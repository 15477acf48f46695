-- ===== src/Backend/WriteLoop/Whole.antt =====
-- A chunk that is written to its end (src/audio/pulseaudio_backend.cpp).
use audpipe_cpp.Prelude.{
  ℕ, zero, suc, ◌≤◌, ◌≡◌, refl, sym, ap, ◌∙◌, true, false, List, [], ◌∷◌, ◌++◌, append-nil,
  append_assoc, length, take, drop, take-append-drop, take_all, none,
}
use audpipe_cpp.Backend.{Backend}
use audpipe_cpp.Backend.WriteLoop.{
  Write, wrote, interrupted, broken, write_error, would_block, finished, write_chunk, produced,
  after_chunk, write_production, take_turn,
}

drop-length : (xs : List ℕ) → drop (length xs) xs ≡ []
drop-length [] = refl
drop-length (x ∷ xs) = drop-length xs

-- Whether a chunk is written to its end does not depend on the FIFO; and if it is, the FIFO has all of it.
write_chunk_whole :
    (writes : List Write) (bytes other pipe : List ℕ)
    → (write_chunk writes bytes other).0 ≡ finished
    → write_chunk writes bytes pipe ≡ (finished, [], pipe ++ bytes)
unfolding write_chunk
write_chunk_whole writes [] other pipe done = ap (λ p. (finished, [], p)) (sym (append-nil pipe))
write_chunk_whole [] (b ∷ left) other pipe done = cc
write_chunk_whole (wrote zero ∷ writes) (b ∷ left) other pipe done = cc
write_chunk_whole (wrote (suc n) ∷ writes) (b ∷ left) other pipe done =
    write_chunk_whole writes (drop n left) (other ++ b ∷ take n left) (pipe ++ b ∷ take n left) done
    ∙ ap (λ p. (finished, [], p))
        (append_assoc pipe (b ∷ take n left) (drop n left)
          ∙ ap (λ r. pipe ++ b ∷ r) (take-append-drop n left))
write_chunk_whole (interrupted ∷ writes) (b ∷ left) other pipe done =
    write_chunk_whole writes (b ∷ left) other pipe done
write_chunk_whole (would_block true ∷ writes) (b ∷ left) other pipe done = cc
write_chunk_whole (would_block false ∷ writes) (b ∷ left) other pipe done = cc
write_chunk_whole (broken ∷ writes) (b ∷ left) other pipe done = cc
write_chunk_whole (write_error ∷ writes) (b ∷ left) other pipe done = cc

-- The calls of `write` take a chunk to its end.
abbrev pub IsWhole : List Write → List ℕ → Type 0
IsWhole writes bytes = (write_chunk writes bytes []).0 ≡ finished

-- One call of `write` that takes them all does.
pub exact-IsWhole : (bytes : List ℕ) → IsWhole (wrote (length bytes) ∷ []) bytes
unfolding write_chunk
exact-IsWhole [] = refl
exact-IsWhole (b ∷ left) =
    ap (λ rest. (write_chunk [] rest (b ∷ take (length left) left)).0) (drop-length left)

-- A turn that nothing stops and that writes its bytes to their end.
pub take_turn_whole :
    (writes : List Write) (bytes : List ℕ) (b : Backend) (pipe : List ℕ)
    → length bytes ≤ 3840
    → IsWhole writes bytes
    → take_turn
        (record { stopped = false; shutdown = false; production = produced bytes; writes = writes })
        (b, pipe)
      ≡ (none, (b, pipe ++ bytes))
unfolding take_turn write_production after_chunk
take_turn_whole writes bytes b pipe short whole =
    rw (take_all 3840 bytes short, write_chunk_whole writes bytes [] pipe whole) refl
