-- ===== src/Prelude/Suffix.antt =====
-- The last entries of a sequence, for queues that drop their oldest ones.
use Prim.Native.Nat.{ℕ, zero, suc, ◌+◌, ◌-◌, ◌≤◌}
use mathlib.Core.Path.{◌≡◌, refl, sym, ap, ◌∙◌}
use mathlib.Core.List.{List, [], ◌∷◌, ◌++◌}
use native.Mathlib.Omega.{arith}
use audpipe_cpp.Prelude.Lists.{length, drop, length-append, length-drop}

module _ {ℓ} {A : Type ℓ} where
  abbrev pub keep_last : ℕ → List A → List A
  keep_last n xs = drop (length xs - n) xs

  pub drop-append : (n : ℕ) (xs ys : List A) → n ≤ length xs → drop n (xs ++ ys) ≡ drop n xs ++ ys
  drop-append zero xs ys h = refl
  drop-append (suc n) [] ys h = absurd (omega arith)
  drop-append (suc n) (x ∷ xs) ys h = drop-append n xs ys (omega arith)

  pub drop-drop : (m n k : ℕ) (xs : List A) → k ≡ n + m → drop m (drop n xs) ≡ drop k xs
  drop-drop m zero k xs e = let e' : k ≡ m = omega arith in rw e'
  drop-drop zero (suc n) k [] e = let e' : k ≡ suc n = omega arith in rw e'
  drop-drop (suc m) (suc n) k [] e = let e' : k ≡ suc (n + suc m) = omega arith in rw e'
  drop-drop m (suc n) k (x ∷ xs) e =
      let e' : k ≡ suc (n + m) = omega arith in rw e' (drop-drop m n (n + m) xs refl)

  pub keep_last_all : (n : ℕ) (xs : List A) → length xs ≤ n → keep_last n xs ≡ xs
  keep_last_all n xs h = let e : length xs - n ≡ 0 = omega arith in rw e

  pub length-keep_last-le : (n : ℕ) (xs : List A) → length (keep_last n xs) ≤ n
  length-keep_last-le n xs = omega (arith, length-drop (length xs - n) xs)

  -- Dropping early and dropping late come to the same.
  pub keep_last-append :
      (n : ℕ) (xs ys : List A) → keep_last n (keep_last n xs ++ ys) ≡ keep_last n (xs ++ ys)
  keep_last-append n xs ys =
      ap (drop late) (sym (drop-append early xs ys (omega arith)))
      ∙ drop-drop late early (length (xs ++ ys) - n) (xs ++ ys) lengths
    where
      early : ℕ
      early = length xs - n

      late : ℕ
      late = length (drop early xs ++ ys) - n

      lengths : length (xs ++ ys) - n ≡ early + late
      lengths =
          omega (arith, length-append xs ys, length-append (drop early xs) ys, length-drop early xs)
