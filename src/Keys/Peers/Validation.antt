-- ===== src/Keys/Peers/Validation.antt =====
-- What the validation of a trusted peer accepts (src/keys.cpp).
use audpipe_cpp.Prelude.{
  ℕ, zero, suc, ◌<◌, ◌≡◌, refl, sym, ap, ◌∙◌, Bool, true, false, leb, ◌==◌, ◌&&◌, ◌||◌, some, List,
  [], ◌∷◌, ◌++◌, length, take, replicate, length-take, length-append, length-replicate, append-nil,
  ok, arith,
}
use audpipe_cpp.Keys.Crypto.{Crypto, IsLawful}
use audpipe_cpp.Keys.Peers.{
  PeerModel, TrustedPeer, is_empty, decode_hex_id, decode_pubkey_base64, encode_hex_id,
  encode_pubkey_base64, from_json, to_json,
}

take-append : (xs ys : List ℕ) (n : ℕ) → length xs ≡ n → take n (xs ++ ys) ≡ xs
take-append [] ys zero h = refl
take-append [] ys (suc n) h = absurd (omega arith)
take-append (x ∷ xs) ys zero h = absurd (omega arith)
take-append (x ∷ xs) ys (suc n) h = ap (λ r. x ∷ r) (take-append xs ys n (omega arith))

not_empty : (text : List ℕ) → 0 < length text → is_empty text ≡ false
not_empty text h = ground arith

is_64 : (n : ℕ) → n ≡ 64 → (n == 64) ≡ true
is_64 n h = ground arith

module _ (c : Crypto) where
  length-decode_hex_id : (hex : List ℕ) → length (decode_hex_id c hex) ≡ 32
  unfolding decode_hex_id
  length-decode_hex_id hex = omega (
    arith,
    length-take 32 (c.hex_decode hex ++ replicate 32 0),
    length-append (c.hex_decode hex) (replicate 32 0),
    length-replicate {A = ℕ} 32 0,
  )

  module _ (lawful : IsLawful c) where
    decode_hex_id-encode :
        (id : List ℕ) → length id ≡ 32 → decode_hex_id c (encode_hex_id c id) ≡ id
    unfolding decode_hex_id encode_hex_id
    decode_hex_id-encode id size =
        ap (λ r. take 32 (r ++ replicate 32 0)) (lawful.hex_decode-encode id)
        ∙ take-append id (replicate 32 0) 32 size

    length-encode_hex_id : (id : List ℕ) → length id ≡ 32 → length (encode_hex_id c id) ≡ 64
    unfolding encode_hex_id
    length-encode_hex_id id size = omega (arith, lawful.length-hex_encode id)

    decode_pubkey-encode :
        (k : c.PublicKey) → decode_pubkey_base64 c (encode_pubkey_base64 c k) ≡ some k
    unfolding decode_pubkey_base64 encode_pubkey_base64
    decode_pubkey-encode k =
        ap c.load_public
          (lawful.base64_decode-encode false (c.save_public k) ∙ sym (append-nil (c.save_public k)))
        ∙ lawful.load_public-save k []

    length-encode_pubkey : (k : c.PublicKey) → 0 < length (encode_pubkey_base64 c k)
    unfolding encode_pubkey_base64
    length-encode_pubkey k =
        omega
          (arith, lawful.length-base64_encode false (c.save_public k), lawful.length-save_public k)

    -- A peer with an identifier of 32 bytes that is written to JSON and read again is the same peer.
    pub from_json-to_json :
        (p : TrustedPeer c) → length p.signer_id ≡ 32 → from_json c (to_json c p) ≡ ok p
    unfolding from_json to_json
    from_json-to_json p size =
        let size64 = length-encode_hex_id p.signer_id size in
        rw
          (
            not_empty (encode_hex_id c p.signer_id) (omega arith),
            not_empty (encode_pubkey_base64 c p.pubkey) (length-encode_pubkey p.pubkey),
            is_64 (length (encode_hex_id c p.signer_id)) size64,
            decode_pubkey-encode p.pubkey,
            decode_hex_id-encode p.signer_id size,
          )
          refl

  -- A model that is accepted has an identifier of 64 characters and a key that decodes; the peer has an
  -- identifier of 32 bytes, this key, and the label and the revocation of the model.
  from_json-accepts :
      (m : PeerModel) {p : TrustedPeer c}
      → from_json c m ≡ ok p
      → (length m.signer_id ≡ 64)
        × (length p.signer_id ≡ 32)
        × (decode_pubkey_base64 c m.pubkey_base64 ≡ some p.pubkey)
        × (p.label ≡ m.label)
        × (p.revoked ≡ m.revoked)
  unfolding from_json
  from_json-accepts m {p} h = ground (arith, length-decode_hex_id m.signer_id)

-- A character that `HexDecoder` reads.
abbrev pub is_hex : ℕ → Bool
is_hex x = (leb 48 x && leb x 57) || (leb 65 x && leb x 70) || (leb 97 x && leb x 102)

-- `HexDecoder` skips every other character.
abbrev pub SkipsOthers : Crypto → Type 0
SkipsOthers c =
    (c.hex_decode [] ≡ [])
    × ((x : ℕ) (text : List ℕ) → is_hex x ≡ false → c.hex_decode (x ∷ text) ≡ c.hex_decode text)

abbrev pub HasNoHex : List ℕ → Type 0
HasNoHex [] = Unit
HasNoHex (x ∷ text) = (is_hex x ≡ false) × HasNoHex text

module _ (c : Crypto) (skips : SkipsOthers c) where
  hex_decode_none : (text : List ℕ) → HasNoHex text → c.hex_decode text ≡ []
  hex_decode_none [] h = skips.0
  hex_decode_none (x ∷ text) (other, h) = skips.1 x text other ∙ hex_decode_none text h

  -- The characters of an identifier are not checked: 64 characters none of which is hexadecimal are
  -- accepted, next to a key that decodes, as the identifier of 32 zeros.
  pub from_json_no_hex :
      (m : PeerModel) {pubkey : c.PublicKey}
      → length m.signer_id ≡ 64
      → HasNoHex m.signer_id
      → 0 < length m.pubkey_base64
      → decode_pubkey_base64 c m.pubkey_base64 ≡ some pubkey
      → from_json c m
        ≡ ok (record {
          signer_id = replicate 32 0;
          pubkey = pubkey;
          label = m.label;
          revoked = m.revoked;
        })
  unfolding from_json decode_hex_id
  from_json_no_hex m size none_hex some_key decodes =
      rw
        (
          not_empty m.signer_id (omega arith),
          not_empty m.pubkey_base64 some_key,
          is_64 (length m.signer_id) size,
          decodes,
          hex_decode_none m.signer_id none_hex,
        )
        refl
