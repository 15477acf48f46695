-- ===== src/Keys/Manager/Loading.antt =====
-- What a key manager that returned has opened (src/keys.cpp).
use audpipe_cpp.Prelude.{
  ◌≡◌, refl, sym, ap, subst, Bool, true, false, not, ◌||◌, if◌then◌else◌, Result, ok, err,
}
use audpipe_cpp.Prelude.Effects.{◌>>◌, >>-returned}
use audpipe_cpp.Keys.Crypto.{Crypto}
use audpipe_cpp.Keys.Manager.{
  dir_ready, with_dir, File, pubkey_file, privkey_file, trusted_peers_file, Disk, Error, not_opened,
  no_directory, KeyManager, State, is_open, opened, ensure_file_open, load_or_create_pair,
  open_files, load_or_create,
}

module _ (c : Crypto) where
  abbrev pub IsOpenable : File → State c → Type 0
  IsOpenable file (d, m) =
      (dir_ready d ≡ true) × (d.can_open file ≡ true) × (is_open c file m ≡ false)

  ensure_returned :
      (file : File) (d : Disk) (m : KeyManager c) {s : State c}
      → ensure_file_open c file (d, m) ≡ (ok tt, s)
      → IsOpenable file (d, m) × (s ≡ opened c file (d, m))
  unfolding ensure_file_open
  ensure_returned file d m {s} e = by_tests (dir_ready d) (is_open c file m) (d.can_open file) e
    where
      by_tests :
          (dir open_already can : Bool)
          → ◌≡◌ {A = Result Error (Unit {0}) × State c}
              (if not dir
                then (err no_directory, (d, m))
                else (if open_already || not can
                    then (err not_opened, (with_dir d, m))
                    else (ok tt, opened c file (d, m))))
              (ok tt, s)
          → ((dir ≡ true) × (can ≡ true) × (open_already ≡ false)) × (s ≡ opened c file (d, m))
      by_tests false open_already can h = cc
      by_tests true true can h = cc
      by_tests true false false h = cc
      by_tests true false true h = ((refl, refl, refl), sym (ap (λ r. r.1) h))

  -- The three files, opened one after the other.
  abbrev pub all_opened : State c → State c
  all_opened s = opened c trusted_peers_file (opened c privkey_file (opened c pubkey_file s))

  abbrev pub IsReady : State c → Type 0
  IsReady (d, m) =
      (m.pubkey_is_open ≡ false)
      × (m.privkey_is_open ≡ false)
      × (m.trusted_peers_is_open ≡ false)
      × (dir_ready d ≡ true)
      × (d.can_open pubkey_file ≡ true)
      × (d.can_open privkey_file ≡ true)
      × (d.can_open trusted_peers_file ≡ true)

  pub open_files_returned :
      (d : Disk) (m : KeyManager c) {s : State c}
      → open_files c (d, m) ≡ (ok tt, s)
      → IsReady (d, m) × (s ≡ all_opened (d, m))
  unfolding open_files
  open_files_returned d m {s} e =
      let (t1, first, rest) =
        >>-returned (ensure_file_open c pubkey_file)
          (ensure_file_open c privkey_file >> ensure_file_open c trusted_peers_file) (d, m) e in
      let ((dir, can1, shut1), same1) = ensure_returned pubkey_file d m first in
      let s1 = opened c pubkey_file (d, m) in
      let (t2, second, third) =
        >>-returned (ensure_file_open c privkey_file) (ensure_file_open c trusted_peers_file) s1 (
          subst
            (λ t.
              (ensure_file_open c privkey_file >> ensure_file_open c trusted_peers_file) t
              ≡ (ok tt, s))
            same1 rest) in
      let ((_, can2, shut2), same2) = ensure_returned privkey_file s1.0 s1.1 second in
      let s2 = opened c privkey_file s1 in
      let ((_, can3, shut3), same3) =
        ensure_returned trusted_peers_file s2.0 s2.1
          (subst (λ t. ensure_file_open c trusted_peers_file t ≡ (ok tt, s)) same2 third) in
      ((shut1, shut2, shut3, dir, can1, can2, can3), same3)

  pub load_or_create_returned :
      (key : c.PrivateKey) (d : Disk) (m : KeyManager c) {s : State c}
      → m.loaded ≡ false
      → load_or_create c key (d, m) ≡ (ok tt, s)
      → IsReady (d, m) × (load_or_create_pair c key (all_opened (d, m)) ≡ (ok tt, s))
  unfolding load_or_create
  load_or_create_returned key d m {s} not_loaded e =
      let (t, first, rest) =
        >>-returned (open_files c) (load_or_create_pair c key) (d, m) (subst Runs not_loaded e) in
      let (ready, same) = open_files_returned d m first in
      (ready, subst (λ t. load_or_create_pair c key t ≡ (ok tt, s)) same rest)
    where
      Runs : Bool → Type 0
      Runs loaded =
          ◌≡◌ {A = Result Error (Unit {0}) × State c}
            (if loaded then (ok tt, (d, m)) else (open_files c >> load_or_create_pair c key) (d, m))
            (ok tt, s)
