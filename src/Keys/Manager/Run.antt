-- ===== src/Keys/Manager/Run.antt =====
-- What one run of a key manager does with its directory (src/keys.cpp).
use audpipe_cpp.Prelude.{
  ℕ, ◌<◌, ◌≡◌, refl, ◌∙◌, true, false, ◌==◌, ◌||◌, some, List, ◌++◌, ok, arith,
}
use audpipe_cpp.Prelude.Effects.{◌>>◌, >>-run}
use audpipe_cpp.Keys.Crypto.{Crypto}
use audpipe_cpp.Keys.Manager.{
  dir_ready, File, pubkey_file, privkey_file, trusted_peers_file, Disk, or_empty, KeyManager,
  key_manager, State, opened, ensure_file_open, create, create_pubkey, load, load_or_create_pair,
  open_files, load_or_create, has_no_text,
}
use audpipe_cpp.Keys.Manager.Loading.{all_opened, IsOpenable}

-- The directory is there or can be made, and its files can be opened.
abbrev pub IsUsable : Disk → Type 0
IsUsable d =
    (dir_ready d ≡ true)
    × (d.can_open pubkey_file ≡ true)
    × (d.can_open privkey_file ≡ true)
    × (d.can_open trusted_peers_file ≡ true)

pub one_empty : (m n : ℕ) → n ≡ 0 → (m == 0 || n == 0) ≡ true
one_empty m n h = ground arith

pub none_empty : (m n : ℕ) → 0 < m → 0 < n → (m == 0 || n == 0) ≡ false
none_empty m n h k = ground arith

module _ (c : Crypto) where
  pub ensure_opens :
      (file : File) (d : Disk) (m : KeyManager c)
      → IsOpenable c file (d, m)
      → ensure_file_open c file (d, m) ≡ (ok tt, opened c file (d, m))
  unfolding ensure_file_open
  ensure_opens file d m (dir, can, shut) = rw (dir, can, shut) refl

  open_files_run :
      (d : Disk)
      → IsUsable d
      → open_files c (d, key_manager c) ≡ (ok tt, all_opened c (d, key_manager c))
  unfolding open_files
  open_files_run d (dir, can1, can2, can3) =
      let s0 : State c = (d, key_manager c) in
      let s1 : State c = opened c pubkey_file s0 in
      let s2 : State c = opened c privkey_file s1 in
      >>-run (ensure_file_open c pubkey_file)
        (ensure_file_open c privkey_file >> ensure_file_open c trusted_peers_file) s0
        (ensure_opens pubkey_file d (key_manager c) (dir, can1, refl))
      ∙ >>-run (ensure_file_open c privkey_file) (ensure_file_open c trusted_peers_file) s1
          (ensure_opens privkey_file s1.0 s1.1 (refl, can2, refl))
      ∙ ensure_opens trusted_peers_file s2.0 s2.1 (refl, can3, refl)

  -- A new key manager opens its files.
  pub load_or_create-pair :
      (key : c.PrivateKey) (d : Disk)
      → IsUsable d
      → load_or_create c key (d, key_manager c)
        ≡ load_or_create_pair c key (all_opened c (d, key_manager c))
  unfolding load_or_create
  load_or_create-pair key d usable =
      >>-run (open_files c) (load_or_create_pair c key) (d, key_manager c) (open_files_run d usable)

  -- The texts behind a creation.
  abbrev pub private_text : c.PrivateKey → List ℕ
  private_text key = c.base64_encode true (c.save_private key)

  abbrev pub public_text : c.PrivateKey → List ℕ
  public_text key = c.base64_encode true (c.save_public (c.public_of key))

  abbrev pub created : c.PrivateKey → State c → State c
  created key (d, m) = (
    record d {
      privkey_text = some (or_empty d.privkey_text ++ private_text key);
      pubkey_text = some (or_empty d.pubkey_text ++ public_text key);
    },
    record m {
      signer = some key;
      verifier = some (c.public_of key);
      privkey = some key;
      pubkey = some (c.public_of key);
    },
  )

  pub create_pair :
      (key : c.PrivateKey) (d : Disk) (m : KeyManager c)
      → (has_no_text c d.privkey_text || has_no_text c d.pubkey_text) ≡ true
      → load_or_create_pair c key (d, m) ≡ (ok tt, created key (d, m))
  unfolding load_or_create_pair create create_pubkey
  create_pair key d m lost = rw lost refl

  abbrev pub loaded : c.PublicKey → c.PrivateKey → State c → State c
  loaded public private (d, m) = (
    d,
    record m {
      privkey_is_open = false;
      pubkey_is_open = false;
      pubkey = some public;
      privkey = some private;
    },
  )

  pub load_pair :
      (key : c.PrivateKey) (d : Disk) (m : KeyManager c) (public : c.PublicKey)
      (private : c.PrivateKey)
      → (has_no_text c d.privkey_text || has_no_text c d.pubkey_text) ≡ false
      → c.load_public (c.base64_decode (or_empty d.pubkey_text)) ≡ some public
      → c.load_private (c.base64_decode (or_empty d.privkey_text)) ≡ some private
      → load_or_create_pair c key (d, m) ≡ (ok tt, loaded public private (d, m))
  unfolding load_or_create_pair load
  load_pair key d m public private there e1 e2 = rw (there, e1, e2) refl
