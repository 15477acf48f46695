-- ===== src/Keys/Peers.antt =====
-- `TrustedPeer` and its JSON model (include/keys.hxx, src/keys.cpp).
pub mod Validation
mod Tests
use audpipe_cpp.Prelude.{
  ℕ, String, Bool, not, ◌==◌, if◌then◌else◌, Option, List, [], ◌∷◌, ◌++◌, length, take, replicate,
  Result, guard, or_throw, ok, err, ◌>>=◌, ◌>>◌,
}
use audpipe_cpp.Keys.Crypto.{Crypto}

-- `schema::TrustedPeer`
pub record PeerModel : Type 0 where
  pub signer_id : List ℕ
  pub pubkey_base64 : List ℕ
  pub label : String
  pub revoked : Bool

pub data Error : Type 0 where
  empty_signer_id empty_pubkey bad_length bad_pubkey : Error

abbrev pub is_empty : List ℕ → Bool
is_empty text = length text == 0

module _ (c : Crypto) where
  pub record TrustedPeer : Type 0 where
    pub signer_id : List ℕ
    pub pubkey : c.PublicKey
    pub label : String
    pub revoked : Bool

  -- `decode_hex_id`: the bytes that are decoded go into an array of 32 zeros, and no further.
  unfoldable pub decode_hex_id : List ℕ → List ℕ
  decode_hex_id hex = take 32 (c.hex_decode hex ++ replicate 32 0)

  unfoldable pub decode_pubkey_base64 : List ℕ → Option c.PublicKey
  decode_pubkey_base64 b64 = c.load_public (c.base64_decode b64)

  unfoldable pub encode_hex_id : List ℕ → List ℕ
  encode_hex_id id = c.hex_encode id

  unfoldable pub encode_pubkey_base64 : c.PublicKey → List ℕ
  encode_pubkey_base64 pubkey = c.base64_encode Bool.false (c.save_public pubkey)

  -- The constructor, with its validation.
  unfoldable pub from_json : PeerModel → Result Error TrustedPeer
  from_json m = do
    guard (not (is_empty m.signer_id)) empty_signer_id
    guard (not (is_empty m.pubkey_base64)) empty_pubkey
    guard (length m.signer_id == 64) bad_length
    pubkey ← or_throw (decode_pubkey_base64 m.pubkey_base64) bad_pubkey
    ok (record {
      signer_id = decode_hex_id m.signer_id;
      pubkey = pubkey;
      label = m.label;
      revoked = m.revoked;
    })

  unfoldable pub to_json : TrustedPeer → PeerModel
  to_json p = record {
    signer_id = encode_hex_id p.signer_id;
    pubkey_base64 = encode_pubkey_base64 p.pubkey;
    label = p.label;
    revoked = p.revoked;
  }
