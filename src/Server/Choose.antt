-- ===== src/Server/Choose.antt =====
-- `Server::choose_device_interactive` and the `int` that it reads (src/server.cpp).
pub mod Numeral
pub mod Recordable
mod Tests
use audpipe_cpp.Prelude.{
  ℕ, zero, suc, ◌+◌, ◌*◌, ◌-◌, ◌^◌, Bool, true, false, not, ltb, leb, ◌==◌, ◌&&◌, ◌||◌,
  if◌then◌else◌, Option, none, some, List, [], ◌∷◌, length, get_elem?, ℤ, pos, negsuc, Result, ok,
  err, or_throw, ltb_ℤ,
}
use audpipe_cpp.Audio.{AudioDevice}

-- Characters are their codes.
abbrev pub is_digit : ℕ → Bool
is_digit c = leb 48 c && leb c 57

-- A blank, or one of the five control characters from tab to carriage return.
abbrev pub is_space : ℕ → Bool
is_space c = c == 32 || (leb 9 c && leb c 13)

-- `std::ws`
pub skip_ws : List ℕ → List ℕ
skip_ws [] = []
skip_ws (c ∷ cs) = if is_space c then skip_ws cs else c ∷ cs

-- The digits that come next, with the value of those already read; and what is behind them.
pub read_digits : List ℕ → ℕ → ℕ × List ℕ
read_digits [] value = (value, [])
read_digits (c ∷ cs) value =
    if is_digit c then read_digits cs (10 * value + (c - 48)) else (value, c ∷ cs)

abbrev pub starts_with_digit : List ℕ → Bool
starts_with_digit [] = false
starts_with_digit (c ∷ cs) = is_digit c

abbrev pub negated : ℕ → ℤ
negated zero = pos 0
negated (suc n) = negsuc n

abbrev pub read_magnitude : Bool → List ℕ → Option (ℤ × List ℕ)
read_magnitude negative cs =
    if not (starts_with_digit cs)
    then none
    else let (value, rest) = read_digits cs 0 in
      if ltb (if negative then 2 ^ 31 else 2 ^ 31 - 1) value
      then none
      else some (if negative then negated value else pos value, rest)

abbrev pub read_signed : List ℕ → Option (ℤ × List ℕ)
read_signed [] = none
read_signed (c ∷ cs) =
    if c == 45
    then read_magnitude true cs
    else (if c == 43 then read_magnitude false cs else read_magnitude false (c ∷ cs))

-- `iss >> idx` with an `int`: white space, a sign, digits; `none` where it fails, which an overflow
-- does too.
pub read_int : List ℕ → Option (ℤ × List ℕ)
read_int line = read_signed (skip_ws line)

-- `iss >> std::ws, !iss.eof()`
abbrev pub has_more : List ℕ → Bool
has_more [] = false
has_more (c ∷ cs) = true

-- What `idx` is after the check: 1 unless the line is a number from 1 to `size`.
pub checked : (size : ℕ) → Option (ℤ × List ℕ) → ℕ
checked size none = 1
checked size (some (negsuc n, rest)) = 1
checked size (some (pos idx, rest)) =
    if has_more (skip_ws rest) || idx == 0 || ltb size idx then 1 else idx

pub data Error : Type 0 where
  out_of_range : Error

-- `inputs.at(idx - 1)`
pub choose_device_interactive : List AudioDevice → (line : List ℕ) → Result Error AudioDevice
choose_device_interactive inputs line =
    let idx = checked (length inputs) (read_int line) in
    or_throw (get_elem? inputs (idx - 1)) out_of_range
