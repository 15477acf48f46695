-- ===== src/Keys/Sample.antt =====
-- A small library that meets what src/keys.cpp relies on.
use audpipe_cpp.Prelude.{
  ℕ, ◌+◌, ◌*◌, ◌≡◌, refl, Option, none, some, List, [], ◌∷◌, length, replicate, arith, ap,
}
use audpipe_cpp.Keys.Crypto.{Crypto, IsLawful}

abbrev pub first_byte : List ℕ → Option ℕ
first_byte [] = none
first_byte (x ∷ xs) = some x

abbrev pub spread : List ℕ → List ℕ
spread [] = []
spread (x ∷ xs) = x ∷ 0 ∷ spread xs

abbrev pub gather : List ℕ → List ℕ
gather [] = []
gather (x ∷ []) = []
gather (x ∷ y ∷ xs) = x ∷ gather xs

abbrev pub crypto : Crypto
crypto = record {
  PrivateKey = ℕ;
  PublicKey = ℕ;
  public_of = λ k. k + 1;
  save_private = λ k. k ∷ replicate 47 0;
  save_public = λ k. k ∷ replicate 43 0;
  load_private = first_byte;
  load_public = first_byte;
  base64_encode = λ breaks xs. xs;
  base64_decode = λ xs. xs;
  hex_encode = spread;
  hex_decode = gather;
}

gather-spread : (xs : List ℕ) → gather (spread xs) ≡ xs
gather-spread [] = refl
gather-spread (x ∷ xs) = ap (λ r. x ∷ r) (gather-spread xs)

length-spread : (xs : List ℕ) → length (spread xs) ≡ 2 * length xs
length-spread [] = refl
length-spread (x ∷ xs) = omega (arith, length-spread xs)

pub crypto-IsLawful : IsLawful crypto
crypto-IsLawful = record {
  base64_decode-encode = λ breaks xs. refl;
  base64_decode-append = λ breaks xs rest h. refl;
  length-base64_encode = λ breaks xs. omega arith;
  load_private-save = λ k rest. refl;
  load_public-save = λ k rest. refl;
  length-save_private = λ k. refl;
  length-save_public = λ k. refl;
  hex_decode-encode = gather-spread;
  length-hex_encode = length-spread;
}
