-- ===== src/Prelude/Throws.antt =====
-- C++ exceptions as values: a call returns normally (`ok`) or throws (`err`).
use mathlib.Core.Path.{◌≡◌, refl}
use mathlib.Core.Bool.{Bool, true, false}
use mathlib.Core.Option.{Option, none, some}

module _ {ℓ κ} (Exception : Type κ) (Value : Type ℓ) where
  pub data Result : Type (ℓ ⊔ κ) where
    err : Exception → Result
    ok : Value → Result

module _ {κ} {Exception : Type κ} where
  -- `if (!test) throw e;`
  abbrev pub guard : Bool → Exception → Result Exception (Unit {0})
  guard false e = err e
  guard true e = ok tt

  module _ {ℓ} {Value : Type ℓ} where
    -- `if (!o.has_value()) throw e;`, and then `o.value()`.
    abbrev pub or_throw : Option Value → Exception → Result Exception Value
    or_throw (some value) e = ok value
    or_throw none e = err e

    -- The statements behind a call run if it returns.
    infixl 5 ◌>>=◌
    abbrev pub ◌>>=◌ {μ} :
        {Next : Type μ}
        → Result Exception Value
        → (Value → Result Exception Next)
        → Result Exception Next
    call >>= next = elim call [ err e ↦ err e | ok value ↦ next value ]

    -- A chain that returned has returned from its first call.
    pub >>=-returned {μ} :
        {Next : Type μ} (call : Result Exception Value) (next : Value → Result Exception Next)
        {out : Next}
        → (call >>= next) ≡ ok out
        → (value : Value) × (call ≡ ok value) × (next value ≡ ok out)
    >>=-returned (err e) next returned = cc
    >>=-returned (ok value) next returned = (value, refl, returned)

  infixl 5 ◌>>◌
  abbrev pub ◌>>◌ {μ} :
      {Next : Type μ} → Result Exception (Unit {0}) → Result Exception Next → Result Exception Next
  first >> second = first >>= λ _. second
