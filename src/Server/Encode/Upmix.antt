-- ===== src/Server/Encode/Upmix.antt =====
-- The loop that doubles a mono capture (src/server.cpp).
use audpipe_cpp.Prelude.{
  ℕ, suc, ◌+◌, ◌*◌, ◌≤◌, ◌<◌, ◌≡◌, refl, sym, ap, ◌∙◌, List, [], ◌∷◌, ◌++◌, append_assoc,
  append-nil, length, take, set, take-set, take_all, length-set, arith,
}
use native.Mathlib.Numerals.{add-one}
use audpipe_cpp.Server.Encode.{upmix}

-- Every sample twice: left and right.
abbrev pub doubled : List ℕ → List ℕ
doubled [] = []
doubled (x ∷ xs) = x ∷ x ∷ doubled xs

pub length-upmix : (xs : List ℕ) (i : ℕ) (buf : List ℕ) → length (upmix xs i buf) ≡ length buf
unfolding upmix
length-upmix [] i buf = refl
length-upmix (x ∷ xs) i buf =
    length-upmix xs (i + 1) (set (set buf (2 * i) x) (2 * i + 1) x)
    ∙ length-set (set buf (2 * i) x) (2 * i + 1) x
    ∙ length-set buf (2 * i) x

take-set_pair :
    (buf : List ℕ) (k j : ℕ) (x : ℕ)
    → k + 1 < length buf
    → j ≡ k + 2
    → take j (set (set buf k x) (k + 1) x) ≡ take k buf ++ x ∷ x ∷ []
take-set_pair buf k j x h e =
    let e' : j ≡ suc (k + 1) = omega arith in
    rw e' (second ∙ ap (λ r. r ++ x ∷ []) first ∙ append_assoc (take k buf) (x ∷ []) (x ∷ []))
  where
    first : take (k + 1) (set buf k x) ≡ take k buf ++ x ∷ []
    first = rw add-one (take-set buf k x (omega arith))

    second : take (suc (k + 1)) (set (set buf k x) (k + 1) x) ≡ take (k + 1) (set buf k x) ++ x ∷ []
    second = take-set (set buf k x) (k + 1) x (omega (arith, length-set buf k x))

upmix_lem :
    (xs : List ℕ) (i k : ℕ) (buf : List ℕ)
    → k ≡ 2 * i + 2 * length xs
    → k ≤ length buf
    → take k (upmix xs i buf) ≡ take (2 * i) buf ++ doubled xs
unfolding upmix
upmix_lem [] i k buf e h = let e' : k ≡ 2 * i = omega arith in rw (e', append-nil)
upmix_lem (x ∷ xs) i k buf e h =
    let buf' = set (set buf (2 * i) x) (2 * i + 1) x in
    upmix_lem xs (i + 1) k buf' (omega arith)
      (omega (arith, length-set (set buf (2 * i) x) (2 * i + 1) x, length-set buf (2 * i) x))
    ∙ ap (λ r. r ++ doubled xs)
        (take-set_pair buf (2 * i) (2 * (i + 1)) x (omega arith) (omega arith))
    ∙ append_assoc (take (2 * i) buf) (x ∷ x ∷ []) (doubled xs)

-- The loop over `n` samples fills a buffer of `2 * n` places with every sample twice.
pub upmix-doubled : (xs buf : List ℕ) → length buf ≡ 2 * length xs → upmix xs 0 buf ≡ doubled xs
upmix-doubled xs buf h =
    sym (take_all (length buf) (upmix xs 0 buf) (omega (arith, length-upmix xs 0 buf)))
    ∙ upmix_lem xs 0 (length buf) buf (omega arith) (omega arith)
