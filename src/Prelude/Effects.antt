-- ===== src/Prelude/Effects.antt =====
-- Computations over a state that may throw: what they did before they threw stays done.
use mathlib.Core.Path.{◌≡◌, refl, ap}
use audpipe_cpp.Prelude.Throws.{Result, err, ok}

abbrev pub Effect : Type 0 → Type 0 → Type 0 → Type 0
Effect State Error A = State → Result Error A × State

module _ {State Error : Type 0} where
  infixl 5 ◌>>=◌ ◌>>◌
  abbrev pub ◌>>=◌ :
      {A B : Type 0} → Effect State Error A → (A → Effect State Error B) → Effect State Error B
  ◌>>=◌ m next s = let (r, s') = m s in elim r [ err e ↦ (err e, s') | ok a ↦ next a s' ]

  abbrev pub ◌>>◌ :
      {B : Type 0} → Effect State Error (Unit {0}) → Effect State Error B → Effect State Error B
  m >> next = m >>= λ _. next

  abbrev pub return : {A : Type 0} → A → Effect State Error A
  return a s = (ok a, s)

  abbrev pub throw : {A : Type 0} → Error → Effect State Error A
  throw e s = (err e, s)

  abbrev pub modify : (State → State) → Effect State Error (Unit {0})
  modify change s = (ok tt, change s)

  abbrev pub get : Effect State Error State
  get s = (ok s, s)

  -- A sequence that returned has returned from its first part.
  pub >>-returned :
      {B : Type 0} (first : Effect State Error (Unit {0})) (second : Effect State Error B)
      (s : State) {b : B} {s' : State}
      → (first >> second) s ≡ (ok b, s')
      → (t : State) × (first s ≡ (ok tt, t)) × (second t ≡ (ok b, s'))
  >>-returned {B} first second s {b} {s'} h = by_result (first s) h
    where
      by_result :
          (out : Result Error (Unit {0}) × State)
          → ◌≡◌ {A = Result Error B × State}
              (elim out.0 as (λ _. Result Error B × State) [
                | err e ↦ (err e, out.1)
                | ok a ↦ second out.1
              ])
              (ok b, s')
          → (t : State) × (out ≡ (ok tt, t)) × (second t ≡ (ok b, s'))
      by_result (err e, t) h = cc
      by_result (ok a, t) h = (t, refl, h)

  -- A sequence goes on where its first part returned.
  pub >>-run :
      {B : Type 0} (first : Effect State Error (Unit {0})) (second : Effect State Error B)
      (s : State) {t : State}
      → first s ≡ (ok tt, t)
      → (first >> second) s ≡ second t
  >>-run {B} first second s e =
      ap
        (λ (out : Result Error (Unit {0}) × State). elim out.0 as (λ _. Result Error B × State) [
          | err e ↦ (err e, out.1)
          | ok a ↦ second out.1
        ])
        e

  -- A sequence throws what its first part throws.
  pub >>-stopped :
      {B : Type 0} (first : Effect State Error (Unit {0})) (second : Effect State Error B)
      (s : State) {e : Error} {t : State}
      → first s ≡ (err e, t)
      → (first >> second) s ≡ (err e, t)
  >>-stopped {B} first second s h =
      ap
        (λ (out : Result Error (Unit {0}) × State). elim out.0 as (λ _. Result Error B × State) [
          | err e ↦ (err e, out.1)
          | ok a ↦ second out.1
        ])
        h
