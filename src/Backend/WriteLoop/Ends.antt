-- ===== src/Backend/WriteLoop/Ends.antt =====
-- How the write loop ends (src/audio/pulseaudio_backend.cpp).
use audpipe_cpp.Prelude.{
  ℕ, ◌≡◌, refl, true, false, Option, none, some, List, [], ◌∷◌, if_both, arith,
}
use audpipe_cpp.Backend.{Backend, is_virtual_input_ready, set_virtual_input_error}
use audpipe_cpp.Backend.VirtualInput.{Ending, returned, waiting, threw}
use audpipe_cpp.Backend.WriteLoop.{
  Write, write_chunk, Stop, finished, gave_up, shut_down, unfinished, died, Production, produced,
  callback_failed, Turn, State, after_chunk, chunk, write_production, take_turn, take_turns,
  run_virtual_input,
}

-- A loop that ended plays no more; one that threw keeps the reason, and the input is not ready.
abbrev pub IsEnded : Ending × State → Type 0
IsEnded (returned, (b, pipe)) = b.playback ≡ false
IsEnded (threw reason, (b, pipe)) =
    (b.playback ≡ false)
    × (b.virtual_input_error ≡ some reason)
    × (is_virtual_input_ready b ≡ false)
IsEnded (waiting, state) = Unit

abbrev IsTurnEnded : Option Ending × State → Type 0
IsTurnEnded (none, state) = Unit
IsTurnEnded (some ending, state) = IsEnded (ending, state)

after_chunk-IsTurnEnded :
    (stop : Stop) (b : Backend) (pipe : List ℕ) → IsTurnEnded (after_chunk stop (b, pipe))
unfolding after_chunk is_virtual_input_ready set_virtual_input_error
after_chunk-IsTurnEnded finished b pipe = tt
after_chunk-IsTurnEnded gave_up b pipe = tt
after_chunk-IsTurnEnded shut_down b pipe = refl
after_chunk-IsTurnEnded unfinished b pipe = tt
after_chunk-IsTurnEnded (died reason) b pipe = ground arith

write_production-IsTurnEnded :
    (production : Production) (writes : List Write) (b : Backend) (pipe : List ℕ)
    → IsTurnEnded (write_production production writes (b, pipe))
unfolding write_production is_virtual_input_ready set_virtual_input_error
write_production-IsTurnEnded callback_failed writes b pipe = ground arith
write_production-IsTurnEnded (produced bytes) writes b pipe =
    let (stop, left, pipe') = write_chunk writes (chunk bytes) pipe in
    after_chunk-IsTurnEnded stop b pipe'

take_turn-IsTurnEnded :
    (t : Turn) (b : Backend) (pipe : List ℕ) → IsTurnEnded (take_turn t (b, pipe))
unfolding take_turn
take_turn-IsTurnEnded t b pipe = if_both IsTurnEnded t.stopped refl (
    if_both IsTurnEnded t.shutdown refl (write_production-IsTurnEnded t.production t.writes b pipe))

take_turns-IsEnded :
    (turns : List Turn) (b : Backend) (pipe : List ℕ) → IsEnded (take_turns turns (b, pipe))
unfolding take_turns
take_turns-IsEnded [] b pipe = tt
take_turns-IsEnded (t ∷ rest) b pipe =
    after (take_turn t (b, pipe)) (take_turn-IsTurnEnded t b pipe)
      (λ b' pipe'. take_turns-IsEnded rest b' pipe')
  where
    after :
        (turn : Option Ending × State)
        → IsTurnEnded turn
        → ((b' : Backend) (pipe' : List ℕ) → IsEnded (take_turns rest (b', pipe')))
        → IsEnded (elim turn.0 as (λ o. Ending × State) [
          | some e ↦ (e, turn.1)
          | none ↦ take_turns rest turn.1
        ])
    after (some e, state) ended later = ended
    after (none, (b', pipe')) ended later = later b' pipe'

-- Whatever the loop meets, once it has ended nothing is played any more; and if it threw, the reason is
-- the one reported and the input is not ready, so that it cannot be run again before a new setup.
pub run-IsEnded :
    (turns : List Turn) (b : Backend) (pipe : List ℕ) → IsEnded (run_virtual_input turns (b, pipe))
unfolding run_virtual_input is_virtual_input_ready set_virtual_input_error
run-IsEnded turns b pipe =
    if_both IsEnded (is_virtual_input_ready b)
      (take_turns-IsEnded turns (record b { playback = true }) pipe) (ground arith)
