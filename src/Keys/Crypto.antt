-- ===== src/Keys/Crypto.antt =====
-- What src/keys.cpp takes from Crypto++ and nlohmann/json. Texts and keys in DER are lists of bytes.
use audpipe_cpp.Prelude.{ℕ, ◌*◌, ◌%◌, ◌≤◌, ◌≡◌, Bool, Option, some, List, ◌++◌, length}

-- `HexEncoder`, `HexDecoder`, `Base64Encoder` (the flag tells whether it breaks lines),
-- `Base64Decoder`, and `Save` and `Load` of the two kinds of key; a `Load` that throws is `none`.
pub record Crypto : Type 1 where
  pub PrivateKey : Type 0
  pub PublicKey : Type 0
  pub public_of : PrivateKey → PublicKey
  pub save_private : PrivateKey → List ℕ
  pub save_public : PublicKey → List ℕ
  pub load_private : List ℕ → Option PrivateKey
  pub load_public : List ℕ → Option PublicKey
  pub base64_encode : Bool → List ℕ → List ℕ
  pub base64_decode : List ℕ → List ℕ
  pub hex_encode : List ℕ → List ℕ
  pub hex_decode : List ℕ → List ℕ

-- What the code relies on: decoding undoes encoding, also in front of more text where no padding is
-- needed; encoding does not shorten; a `Load` reads one key and leaves what follows; a private key takes
-- 48 bytes; hexadecimal takes two characters for a byte.
pub record IsLawful (c : Crypto) : Type 0 where
  pub base64_decode-encode :
      (breaks : Bool) (xs : List ℕ) → c.base64_decode (c.base64_encode breaks xs) ≡ xs
  pub base64_decode-append :
      (breaks : Bool) (xs rest : List ℕ)
      → length xs % 3 ≡ 0
      → c.base64_decode (c.base64_encode breaks xs ++ rest) ≡ xs ++ c.base64_decode rest
  pub length-base64_encode :
      (breaks : Bool) (xs : List ℕ) → length xs ≤ length (c.base64_encode breaks xs)
  pub load_private-save :
      (k : c.PrivateKey) (rest : List ℕ) → c.load_private (c.save_private k ++ rest) ≡ some k
  pub load_public-save :
      (k : c.PublicKey) (rest : List ℕ) → c.load_public (c.save_public k ++ rest) ≡ some k
  pub length-save_private : (k : c.PrivateKey) → length (c.save_private k) ≡ 48
  pub length-save_public : (k : c.PublicKey) → length (c.save_public k) ≡ 44
  pub hex_decode-encode : (xs : List ℕ) → c.hex_decode (c.hex_encode xs) ≡ xs
  pub length-hex_encode : (xs : List ℕ) → length (c.hex_encode xs) ≡ 2 * length xs
