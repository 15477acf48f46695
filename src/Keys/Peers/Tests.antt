-- ===== src/Keys/Peers/Tests.antt =====
-- Trusted peers with a concrete library (src/keys.cpp).
use audpipe_cpp.Prelude.{
  ℕ, zero, suc, ◌+◌, ◌*◌, ◌-◌, ◌≡◌, refl, false, leb, if◌then◌else◌, Option, none, some, List, [],
  ◌∷◌, length-replicate, replicate, ok, arith,
}
use audpipe_cpp.Keys.Crypto.{Crypto}
use audpipe_cpp.Keys.Sample.{crypto}
use audpipe_cpp.Keys.Peers.{PeerModel, TrustedPeer, decode_hex_id, decode_pubkey_base64, from_json}
use audpipe_cpp.Keys.Peers.Validation.{is_hex, SkipsOthers, HasNoHex, from_json_no_hex}

abbrev peer : TrustedPeer crypto
peer = record { signer_id = replicate 32 7; pubkey = 9; label = "desk"; revoked = false }

abbrev digit : ℕ → ℕ
digit x = if leb x 57 then x - 48 else (if leb x 70 then x - 55 else x - 87)

-- Pairs of digits, all else skipped.
abbrev read_hex : Option ℕ → List ℕ → List ℕ
read_hex pending [] = []
read_hex none (x ∷ xs) =
    let rest = read_hex none xs in if is_hex x then read_hex (some (digit x)) xs else rest
read_hex (some high) (x ∷ xs) =
    let rest = read_hex (some high) xs in
    if is_hex x then (16 * high + digit x) ∷ read_hex none xs else rest

abbrev skipping : Crypto
skipping = record crypto { hex_decode = read_hex none }

skipping-SkipsOthers : SkipsOthers skipping
skipping-SkipsOthers = (refl, λ x text other. rw other refl)

abbrev model : PeerModel
model = record {
  signer_id = replicate 64 122;
  pubkey_base64 = 9 ∷ [];
  label = "?";
  revoked = false;
}

decoded : decode_hex_id skipping (52 ∷ 49 ∷ 122 ∷ 52 ∷ 50 ∷ []) ≡ 65 ∷ 66 ∷ replicate 30 0
unfolding decode_hex_id
decoded = refl

HasNoHex-replicate : (n x : ℕ) → is_hex x ≡ false → HasNoHex (replicate n x)
HasNoHex-replicate zero x h = tt
HasNoHex-replicate (suc n) x h = (h, HasNoHex-replicate n x h)

decodes : decode_pubkey_base64 skipping model.pubkey_base64 ≡ some 9
unfolding decode_pubkey_base64
decodes = refl

abbrev unchecked : TrustedPeer skipping
unchecked = record { signer_id = replicate 32 0; pubkey = 9; label = "?"; revoked = false }

from_json_no_hex_example : from_json skipping model ≡ ok unchecked
from_json_no_hex_example =
    from_json_no_hex skipping skipping-SkipsOthers model (length-replicate {A = ℕ} 64 122)
      (HasNoHex-replicate 64 122 refl) (omega arith) decodes

accepted : from_json skipping model ≡ ok unchecked
unfolding from_json decode_hex_id decode_pubkey_base64
accepted = refl
