-- ===== src/Keys/Manager/Pairing.antt =====
-- Which keys a directory gives to the key managers of successive runs (src/keys.cpp).
use audpipe_cpp.Prelude.{
  ◌<◌, ◌≡◌, refl, sym, ap, ◌∙◌, true, ◌||◌, none, some, [], ◌++◌, append-nil, length, length-append,
  ok, arith,
}
use audpipe_cpp.Keys.Crypto.{Crypto, IsLawful}
use audpipe_cpp.Keys.Manager.{
  Disk, or_empty, key_manager, destroy, load_or_create, ensure_loaded, has_no_text,
}
use audpipe_cpp.Keys.Manager.Loading.{all_opened}
use audpipe_cpp.Keys.Manager.Run.{
  IsUsable, one_empty, none_empty, load_or_create-pair, private_text, public_text, created,
  create_pair, loaded, load_pair,
}

module _ (c : Crypto) where
  -- The first manager creates a pair, behind what the private file holds; a second one loads.
  abbrev pub TwoRuns : c.PrivateKey → c.PrivateKey → Disk → c.PrivateKey → Type 0
  TwoRuns key key' d private =
      let (r, s) = load_or_create c key (d, key_manager c) in
      let (r', s') = ensure_loaded c key' (destroy c s, key_manager c) in
      (r ≡ ok tt)
      × (s.1.privkey ≡ some key)
      × (r' ≡ ok tt)
      × (s'.1.privkey ≡ some private)
      × (s'.1.pubkey ≡ some (c.public_of key))
      × (s'.1.signer ≡ none)
      × (s'.1.verifier ≡ none)
      × (destroy c s' ≡ destroy c s)

  module _ (lawful : IsLawful c) (key key' : c.PrivateKey) (d : Disk) (usable : IsUsable d) where
    length-private_text : (k : c.PrivateKey) → 0 < length (private_text c k)
    length-private_text k =
        omega
          (arith, lawful.length-base64_encode true (c.save_private k), lawful.length-save_private k)

    length-public_text : (k : c.PrivateKey) → 0 < length (public_text c k)
    length-public_text k = omega (
      arith,
      lawful.length-base64_encode true (c.save_public (c.public_of k)),
      lawful.length-save_public (c.public_of k),
    )

    lost :
        or_empty d.pubkey_text ≡ []
        → (has_no_text c d.privkey_text || has_no_text c (some (or_empty d.pubkey_text))) ≡ true
    lost no_pubkey =
        one_empty (length (or_empty d.privkey_text)) (length (or_empty d.pubkey_text))
          (ap length no_pubkey)

    first_run :
        or_empty d.pubkey_text ≡ []
        → load_or_create c key (d, key_manager c)
          ≡ (ok tt, created c key (all_opened c (d, key_manager c)))
    first_run no_pubkey =
        load_or_create-pair c key d usable
        ∙ create_pair c key (all_opened c (d, key_manager c)).0 (all_opened c (d, key_manager c)).1
            (lost no_pubkey)

    -- The directory that the first run leaves.
    made : Disk
    made = (created c key (all_opened c (d, key_manager c))).0

    loads_public :
        or_empty d.pubkey_text ≡ []
        → c.load_public (c.base64_decode (or_empty d.pubkey_text ++ public_text c key))
          ≡ some (c.public_of key)
    loads_public no_pubkey =
        let der = c.save_public (c.public_of key) in
        ap c.load_public (
          ap (λ r. c.base64_decode (r ++ public_text c key)) no_pubkey
          ∙ lawful.base64_decode-encode true der
          ∙ sym (append-nil der))
        ∙ lawful.load_public-save (c.public_of key) []

    second_run :
        (private : c.PrivateKey)
        → or_empty d.pubkey_text ≡ []
        → c.load_private (c.base64_decode (or_empty d.privkey_text ++ private_text c key))
          ≡ some private
        → load_or_create c key' (made, key_manager c)
          ≡ (ok tt, loaded c (c.public_of key) private (all_opened c (made, key_manager c)))
    unfolding made
    second_run private no_pubkey loads =
        load_or_create-pair c key' made (refl, usable.1, usable.2, usable.3)
        ∙ load_pair c key' (all_opened c (made, key_manager c)).0
            (all_opened c (made, key_manager c)).1 (c.public_of key) private
            (none_empty (length (or_empty d.privkey_text ++ private_text c key))
              (length (or_empty d.pubkey_text ++ public_text c key))
              (omega (
                arith,
                length-append (or_empty d.privkey_text) (private_text c key),
                length-private_text key,
              ))
              (omega (
                arith,
                length-append (or_empty d.pubkey_text) (public_text c key),
                length-public_text key,
              )))
            (loads_public no_pubkey) loads

    two_runs :
        (private : c.PrivateKey)
        → or_empty d.pubkey_text ≡ []
        → c.load_private (c.base64_decode (or_empty d.privkey_text ++ private_text c key))
          ≡ some private
        → TwoRuns key key' d private
    unfolding made ensure_loaded
    two_runs private no_pubkey loads =
        rw (first_run no_pubkey, second_run private no_pubkey loads)
          (refl, refl, refl, refl, refl, refl, refl, refl)

    -- In a directory with no keys, the first run creates a pair and the next one loads this pair: the
    -- same private key and its public key; the files stay as they are. Yet `ensure_loaded` then returns
    -- with no signer and no verifier.
    pub created_pair_loads :
        or_empty d.pubkey_text ≡ [] → or_empty d.privkey_text ≡ [] → TwoRuns key key' d key
    created_pair_loads no_pubkey no_privkey =
        let der = c.save_private key in
        two_runs key no_pubkey (
          ap c.load_private (
            ap (λ r. c.base64_decode (r ++ private_text c key)) no_privkey
            ∙ lawful.base64_decode-encode true der
            ∙ sym (append-nil der))
          ∙ lawful.load_private-save key [])

    -- In a directory that has a private key and has lost its public one, the first run creates a pair
    -- and uses it, but writes its private key behind the old one: the next run loads the old private
    -- key with the new public key; and it has no signer and no verifier either.
    pub lost_pubkey_mismatch :
        (old : c.PrivateKey)
        → or_empty d.pubkey_text ≡ []
        → d.privkey_text ≡ some (private_text c old)
        → TwoRuns key key' d old
    lost_pubkey_mismatch old no_pubkey old_text = two_runs old no_pubkey (
        ap c.load_private (
          ap (λ r. c.base64_decode (or_empty r ++ private_text c key)) old_text
          ∙ lawful.base64_decode-append true (c.save_private old) (private_text c key)
              (omega (arith, lawful.length-save_private old)))
        ∙ lawful.load_private-save old (c.base64_decode (private_text c key)))
