-- ===== src/Keys/Manager/Outcome.antt =====
-- How the first call of `load_or_create` ends, on every branch (src/keys.cpp).
use audpipe_cpp.Prelude.{
  ◌≡◌, refl, ap, ◌∙◌, Bool, true, false, not, ◌&&◌, ◌||◌, if◌then◌else◌, Bool-cases, inl, inr,
  if_split, Option, none, some, Result, ok, err, arith,
}
use audpipe_cpp.Prelude.Effects.{◌>>◌, >>-run, >>-stopped}
use audpipe_cpp.Keys.Crypto.{Crypto}
use audpipe_cpp.Keys.Manager.{
  dir_ready, with_dir, File, KeyManager, opened, pubkey_file, privkey_file, trusted_peers_file,
  Disk, Error, no_directory, not_opened, bad_key, or_empty, key_manager, State, ensure_file_open,
  close_keys, loaded_pubkey, loaded_privkey, load, load_or_create_pair, open_files, load_or_create,
  has_no_text,
}
use audpipe_cpp.Keys.Manager.Loading.{all_opened}
use audpipe_cpp.Keys.Manager.Run.{IsUsable, load_or_create-pair, create_pair, ensure_opens}

module _ (c : Crypto) where
  -- What is made of the keys that two texts give.
  abbrev pub keys_result : Option c.PublicKey → Option c.PrivateKey → Result Error (Unit {0})
  keys_result none private = err bad_key
  keys_result (some public) none = err bad_key
  keys_result (some public) (some private) = ok tt

  -- What a directory makes of the call.
  unfoldable pub expected : Disk → Result Error (Unit {0})
  expected d =
      if not (dir_ready d)
      then err no_directory
      else if not
          (d.can_open pubkey_file && d.can_open privkey_file && d.can_open trusted_peers_file)
      then err not_opened
      else if has_no_text c d.privkey_text || has_no_text c d.pubkey_text
      then ok tt
      else keys_result (c.load_public (c.base64_decode (or_empty d.pubkey_text)))
          (c.load_private (c.base64_decode (or_empty d.privkey_text)))

  keys_loaded :
      (public : Option c.PublicKey) (private : Option c.PrivateKey) (s : State c)
      → ((loaded_pubkey c public >> loaded_privkey c private) s).0 ≡ keys_result public private
  keys_loaded none private s = refl
  keys_loaded (some public) none s = refl
  keys_loaded (some public) (some private) s = refl

  not_made :
      (file : File) (d : Disk) (m : KeyManager c)
      → dir_ready d ≡ false
      → ensure_file_open c file (d, m) ≡ (err no_directory, (d, m))
  unfolding ensure_file_open
  not_made file d m dir = ground arith

  ensure_throws :
      (file : File) (d : Disk) (m : KeyManager c)
      → dir_ready d ≡ true
      → d.can_open file ≡ false
      → ensure_file_open c file (d, m) ≡ (err not_opened, (with_dir d, m))
  unfolding ensure_file_open
  ensure_throws file d m dir can = ground arith

  module _ (key : c.PrivateKey) (d : Disk) where
    abbrev IsExpected : Result Error (Unit {0}) → Type 0
    IsExpected r = (load_or_create c key (d, key_manager c)).0 ≡ r

    no_dir : dir_ready d ≡ false → IsExpected (err no_directory)
    unfolding load_or_create open_files
    no_dir dir =
        let start : State c = (d, key_manager c) in
        let later = ensure_file_open c privkey_file >> ensure_file_open c trusted_peers_file in
        ap (λ r. r.0)
          (>>-stopped (open_files c) (load_or_create_pair c key) start (
            >>-stopped (ensure_file_open c pubkey_file) later start
              (not_made pubkey_file d (key_manager c) dir)))

    -- The three files up to one that is not opened.
    not_all_open :
        dir_ready d ≡ true
        → (d.can_open pubkey_file && d.can_open privkey_file && d.can_open trusted_peers_file)
          ≡ false
        → (s : State c) × (open_files c (d, key_manager c) ≡ (err not_opened, s))
    unfolding open_files
    not_all_open dir some_shut =
        let s0 : State c = (d, key_manager c) in
        let s1 : State c = opened c pubkey_file s0 in
        let s2 : State c = opened c privkey_file s1 in
        let open_second = ensure_file_open c privkey_file in
        let open_third = ensure_file_open c trusted_peers_file in
        elim (Bool-cases (d.can_open pubkey_file)) [
          | inr is_shut ↦ (
            (with_dir s0.0, s0.1),
            >>-stopped (ensure_file_open c pubkey_file) (open_second >> open_third) s0
                (ensure_throws pubkey_file s0.0 s0.1 dir is_shut),
          )
          | inl first ↦
              let after_first =
                >>-run (ensure_file_open c pubkey_file) (open_second >> open_third) s0
                  (ensure_opens c pubkey_file s0.0 s0.1 (dir, first, refl)) in
              elim (Bool-cases (d.can_open privkey_file)) [
                | inr is_shut ↦ (
                  (with_dir s1.0, s1.1),
                  after_first
                      ∙ >>-stopped open_second open_third s1
                          (ensure_throws privkey_file s1.0 s1.1 refl is_shut),
                )
                | inl second ↦ (
                  (with_dir s2.0, s2.1),
                  after_first
                      ∙ >>-run open_second open_third s1
                          (ensure_opens c privkey_file s1.0 s1.1 (refl, second, refl))
                      ∙ ensure_throws trusted_peers_file s2.0 s2.1 refl (ground arith),
                )
              ]
        ]

    shut :
        dir_ready d ≡ true
        → (d.can_open pubkey_file && d.can_open privkey_file && d.can_open trusted_peers_file)
          ≡ false
        → IsExpected (err not_opened)
    unfolding load_or_create
    shut dir some_shut =
        ap (λ r. r.0)
          (>>-stopped (open_files c) (load_or_create_pair c key) (d, key_manager c)
            (not_all_open dir some_shut).1)

    empty_text :
        IsUsable d
        → (has_no_text c d.privkey_text || has_no_text c d.pubkey_text) ≡ true
        → IsExpected (ok tt)
    empty_text usable lost =
        ap (λ r. r.0)
          (load_or_create-pair c key d usable
            ∙ create_pair c key (all_opened c (d, key_manager c)).0
                (all_opened c (d, key_manager c)).1 lost)

    both_texts :
        IsUsable d
        → (has_no_text c d.privkey_text || has_no_text c d.pubkey_text) ≡ false
        → IsExpected (
            keys_result
              (c.load_public (c.base64_decode (or_empty d.pubkey_text)))
              (c.load_private (c.base64_decode (or_empty d.privkey_text))))
    unfolding load_or_create_pair load
    both_texts usable there =
        ap (λ r. r.0) (load_or_create-pair c key d usable)
        ∙ rw there (
            keys_loaded (c.load_public (c.base64_decode (or_empty d.pubkey_text)))
              (c.load_private (c.base64_decode (or_empty d.privkey_text)))
              (close_keys c (all_opened c (d, key_manager c))))

    -- A first call throws when the directory is neither there nor can be made, when one of its files cannot be opened, or when
    -- both texts of the keys are there and one of them is no key; and it returns in every other case.
    pub load_or_create-expected : (load_or_create c key (d, key_manager c)).0 ≡ expected d
    unfolding expected
    load_or_create-expected =
        if_split IsExpected (not (dir_ready d)) (λ missing. no_dir (ground arith))
          (λ there.
            if_split IsExpected (not all_can_open) (λ closed. shut (ground arith) (ground arith))
              (λ opens.
                if_split IsExpected (has_no_text c d.privkey_text || has_no_text c d.pubkey_text)
                  (λ lost. empty_text (ground arith) lost)
                  (λ both. both_texts (ground arith) both)))
      where
        all_can_open : Bool
        all_can_open =
            d.can_open pubkey_file && d.can_open privkey_file && d.can_open trusted_peers_file
