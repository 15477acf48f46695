-- ===== src/Client/Playback/Buffer.antt =====
-- `dst` as the inner loop of the write callback fills it (src/client.cpp).
use audpipe_cpp.Prelude.{
  take-set, ℕ, ◌+◌, ◌≤◌, ◌<◌, ◌≡◌, refl, ◌⊎◌, inr, List, [], ◌∷◌, ◌++◌, append_assoc, length, set,
  take, length-set, arith,
}
use native.Mathlib.Numerals.{add-one}
use audpipe_cpp.Client.Playback.{Output, drain}

-- The bytes of `dst` that were written.
abbrev pub delivered : Output → List ℕ
delivered o = take o.written o.dst

delivered-write :
    (o : Output) (b : ℕ)
    → o.written < length o.dst
    → take (o.written + 1) (set o.dst o.written b) ≡ delivered o ++ b ∷ []
delivered-write o b h = rw add-one (take-set o.dst o.written b h)

-- What the inner loop does: it moves bytes from the front of the queue to the end of the output, and
-- stops when the output is full or the queue is empty.
pub record Drained (max_len : ℕ) (o : Output) (queue : List ℕ) (out : Output × List ℕ)
    : Type 0 where
  pub moved : delivered out.0 ++ out.1 ≡ delivered o ++ queue
  pub stopped : (out.0.written ≡ max_len) ⊎ (out.1 ≡ [])
  pub bounded : out.0.written ≤ max_len
  pub same_length : length out.0.dst ≡ length o.dst

pub drain-Drained :
    (max_len : ℕ) (o : Output) (queue : List ℕ)
    → o.written ≤ max_len
    → max_len ≤ length o.dst
    → Drained max_len o queue (drain max_len o queue)
unfolding drain
drain-Drained max_len o [] h k = record {
  moved = refl;
  stopped = inr refl;
  bounded = h;
  same_length = refl;
}
drain-Drained max_len o (b ∷ queue) h k =
    let o' : Output = record { dst = set o.dst o.written b; written = o.written + 1 } in
    ground (
      arith,
      drain-Drained max_len o' queue,
      delivered-write o b,
      length-set o.dst o.written b,
      append_assoc (delivered o) (b ∷ []) queue,
    )
