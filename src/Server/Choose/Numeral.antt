-- ===== src/Server/Choose/Numeral.antt =====
-- Which device a line chooses (src/server.cpp).
use audpipe_cpp.Prelude.{
  ℕ, zero, suc, ◌+◌, ◌*◌, ◌-◌, ◌<◌, ◌≡◌, ◌^◌, refl, ap, ◌∙◌, true, false, ltb, ◌==◌, if◌then◌else◌,
  Option, none, some, List, [], ◌∷◌, ◌++◌, length, get_elem?, ℤ, pos, negsuc, ok, or_throw, arith,
}
use audpipe_cpp.Audio.{AudioDevice}
use audpipe_cpp.Server.Choose.{
  is_digit, is_space, skip_ws, read_digits, read_signed, read_int, checked,
  choose_device_interactive, out_of_range,
}

abbrev pub AreDigits : List ℕ → Type 0
AreDigits [] = Unit
AreDigits (c ∷ cs) = (is_digit c ≡ true) × AreDigits cs

abbrev pub AreSpaces : List ℕ → Type 0
AreSpaces [] = Unit
AreSpaces (c ∷ cs) = (is_space c ≡ true) × AreSpaces cs

-- The number that digits denote, behind those of `n`.
abbrev pub denoted : List ℕ → ℕ → ℕ
denoted [] n = n
denoted (c ∷ cs) n = denoted cs (10 * n + (c - 48))

skip_ws-append : (blank cs : List ℕ) → AreSpaces blank → skip_ws (blank ++ cs) ≡ skip_ws cs
unfolding skip_ws
skip_ws-append [] cs h = refl
skip_ws-append (b ∷ blank) cs (space, h) = rw space (skip_ws-append blank cs h)

skip_ws_all : (blank : List ℕ) → AreSpaces blank → skip_ws blank ≡ []
unfolding skip_ws
skip_ws_all [] h = refl
skip_ws_all (b ∷ blank) (space, h) = rw space (skip_ws_all blank h)

digit_not_space : (c : ℕ) → is_digit c ≡ true → is_space c ≡ false
digit_not_space c h = ground arith

space_not_digit : (c : ℕ) → is_space c ≡ true → is_digit c ≡ false
space_not_digit c h = ground arith

digit_not_sign : (c : ℕ) → is_digit c ≡ true → ((c == 45) ≡ false) × ((c == 43) ≡ false)
digit_not_sign c h = ground arith

read_digits-append :
    (ds blank : List ℕ) (n : ℕ)
    → AreDigits ds
    → AreSpaces blank
    → read_digits (ds ++ blank) n ≡ (denoted ds n, blank)
unfolding read_digits
read_digits-append [] [] n h k = refl
read_digits-append [] (b ∷ blank) n h (space, k) = rw (space_not_digit b space) refl
read_digits-append (d ∷ ds) blank n (digit, h) k =
    rw digit (read_digits-append ds blank (10 * n + (d - 48)) h k)

skip_ws_digit : (d : ℕ) (cs : List ℕ) → is_digit d ≡ true → skip_ws (d ∷ cs) ≡ d ∷ cs
unfolding skip_ws
skip_ws_digit d cs digit = rw (digit_not_space d digit) refl

read_signed-append :
    (ds blank : List ℕ)
    → AreDigits ds
    → AreSpaces blank
    → 0 < length ds
    → denoted ds 0 < 2 ^ 31
    → read_signed (ds ++ blank) ≡ some (pos (denoted ds 0), blank)
read_signed-append [] blank h k some_digit fits = absurd (omega arith)
read_signed-append (d ∷ ds) blank (digit, h) k some_digit fits =
    let (no_minus, no_plus) = digit_not_sign d digit in
    rw (no_minus, no_plus, digit, read_digits-append (d ∷ ds) blank 0 (digit, h) k, in_range) refl
  where
    in_range : ltb (2 ^ 31 - 1) (denoted (d ∷ ds) 0) ≡ false
    in_range = ground arith

-- A line that holds digits between white space, their number an `int`, is read as this number.
read_int-append :
    (before ds after : List ℕ)
    → AreSpaces before
    → AreDigits ds
    → AreSpaces after
    → 0 < length ds
    → denoted ds 0 < 2 ^ 31
    → read_int (before ++ (ds ++ after)) ≡ some (pos (denoted ds 0), after)
unfolding read_int
read_int-append before [] after h k l some_digit fits = absurd (omega arith)
read_int-append before (d ∷ ds) after h (digit, k) l some_digit fits =
    ap read_signed (skip_ws-append before (d ∷ ds ++ after) h ∙ skip_ws_digit d (ds ++ after) digit)
    ∙ read_signed-append (d ∷ ds) after (digit, k) l some_digit fits

-- The device that a number stands for: the first unless it is from 1 to their number.
abbrev pub nominated : (size value : ℕ) → ℕ
nominated size zero = 0
nominated size (suc n) = if ltb n size then n else 0

checked-nominated :
    (size value : ℕ) (blank : List ℕ)
    → AreSpaces blank
    → checked size (some (pos value, blank)) - 1 ≡ nominated size value
unfolding checked
checked-nominated size zero blank h = rw (skip_ws_all blank h) refl
checked-nominated size (suc n) blank h = rw (skip_ws_all blank h) (ground arith)

-- A line that holds only a number below 2^31, in digits, with any white space around it, chooses the
-- device in this place, counted from 1; 0 and a number with no device choose the first one.
choose_numeral :
    (inputs : List AudioDevice) (before ds after : List ℕ)
    → AreSpaces before
    → AreDigits ds
    → AreSpaces after
    → 0 < length ds
    → denoted ds 0 < 2 ^ 31
    → choose_device_interactive inputs (before ++ (ds ++ after))
      ≡ or_throw (get_elem? inputs (nominated (length inputs) (denoted ds 0))) out_of_range
unfolding choose_device_interactive
choose_numeral inputs before ds after h k l some_digit fits =
    rw
      (
        read_int-append before ds after h k l some_digit fits,
        checked-nominated (length inputs) (denoted ds 0) after l,
      )
      refl

checked-in_range : (size : ℕ) (read : Option (ℤ × List ℕ)) → 0 < size → checked size read - 1 < size
unfolding checked
checked-in_range size none h = h
checked-in_range size (some (negsuc n, rest)) h = h
checked-in_range size (some (pos idx, rest)) h = ground arith

get_elem?-lt {ℓ} :
    {A : Type ℓ} (xs : List A) (i : ℕ) → i < length xs → (x : A) × (get_elem? xs i ≡ some x)
get_elem?-lt [] i h = absurd (omega arith)
get_elem?-lt (x ∷ xs) zero h = (x, refl)
get_elem?-lt (x ∷ xs) (suc i) h = get_elem?-lt xs i (omega arith)

-- While there is a device, any line chooses one of those listed, and nothing is thrown.
pub choose_listed :
    (inputs : List AudioDevice) (line : List ℕ)
    → 0 < length inputs
    → (i : ℕ) × (device : AudioDevice) × (i < length inputs)
      × (get_elem? inputs i ≡ some device)
      × (choose_device_interactive inputs line ≡ ok device)
unfolding choose_device_interactive
choose_listed inputs line h =
    let i = checked (length inputs) (read_int line) - 1 in
    let within = checked-in_range (length inputs) (read_int line) h in
    let (device, found) = get_elem?-lt inputs i within in (i, device, within, found, rw found refl)
