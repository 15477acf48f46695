-- ===== src/Keys/Manager/Again.antt =====
-- A key manager that is asked a second time (src/keys.cpp).
use audpipe_cpp.Prelude.{◌≡◌, ◌≢◌, refl, Bool, true, false, ok, arith, subst, ap}
use audpipe_cpp.Keys.Crypto.{Crypto}
use audpipe_cpp.Keys.Manager.Loading.{all_opened, open_files_returned, load_or_create_returned}
use audpipe_cpp.Keys.Manager.{
  Disk, KeyManager, State, create, create_pubkey, load, load_or_create_pair, open_files,
  load_or_create,
}

true_not_false : {b : Bool} → b ≡ true → b ≡ false → ⊥
true_not_false h k = cc

module _ (c : Crypto) where
  -- The stream of the trusted peers stays open, and nothing counts as loaded.
  abbrev StaysOpen : State c → Type 0
  StaysOpen (d, m) = (m.trusted_peers_is_open ≡ true) × (m.loaded ≡ false)

  load_or_create_pair-StaysOpen :
      (key : c.PrivateKey) (d : Disk) (m : KeyManager c)
      → StaysOpen (d, m)
      → StaysOpen (load_or_create_pair c key (d, m)).1
  unfolding load_or_create_pair create create_pubkey load
  load_or_create_pair-StaysOpen key d m h = ground arith

  open_files-StaysOpen :
      (d : Disk) (m : KeyManager c) {s : State c}
      → m.loaded ≡ false
      → open_files c (d, m) ≡ (ok tt, s)
      → StaysOpen s
  open_files-StaysOpen d m {s} h e =
      let (ready, end) = open_files_returned c d m e in rw end (refl, h)

  load_or_create-StaysOpen :
      (key : c.PrivateKey) (d : Disk) (m : KeyManager c) {s : State c}
      → m.loaded ≡ false
      → load_or_create c key (d, m) ≡ (ok tt, s)
      → StaysOpen s
  load_or_create-StaysOpen key d m {s} h e =
      let (ready, made) = load_or_create_returned c key d m h e in
      subst StaysOpen (ap (λ r. r.1) made) (
        load_or_create_pair-StaysOpen key (all_opened c (d, m)).0 (all_opened c (d, m)).1 (refl, h))

  -- Asking a key manager twice never works: once it has loaded or created its keys, another call throws,
  -- since the stream of the trusted peers is open already and nothing counts as loaded.
  pub load_or_create_again :
      (key key' : c.PrivateKey) (d : Disk) (m : KeyManager c) {s : State c}
      → m.loaded ≡ false
      → load_or_create c key (d, m) ≡ (ok tt, s)
      → (load_or_create c key' s).0 ≢ ok tt
  load_or_create_again key key' d m {s} h e again =
      let (still_open, not_loaded) = load_or_create-StaysOpen key d m h e in
      let (ready, made) =
        load_or_create_returned c key' s.0 s.1 {s = (load_or_create c key' s).1} not_loaded
          (ap (λ r. (r, (load_or_create c key' s).1)) again) in
      true_not_false still_open ready.2
