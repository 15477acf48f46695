-- ===== src/Backend/CreateInput/Lifecycle.antt =====
-- A virtual input from its creation to the end of the backend (src/audio/pulseaudio_backend.cpp).
use audpipe_cpp.Prelude.{ℕ, ◌≡◌, refl, ◌∙◌, true, false, Option, none, some, List, [], ◌∷◌, if_both}
use audpipe_cpp.Backend.{Backend, is_virtual_input_ready, set_virtual_input_error, stop_recording}
use audpipe_cpp.Backend.Context
use audpipe_cpp.Backend.Context.{ContextState}
use audpipe_cpp.Backend.VirtualInput
use audpipe_cpp.Backend.VirtualInput.{Host, Effects, Unloading, Ending, returned, waiting, threw}
use audpipe_cpp.Backend.VirtualInput.Teardown.{IsKnown}
use audpipe_cpp.Backend.WriteLoop
use audpipe_cpp.Backend.WriteLoop.{
  Write, write_chunk, Stop, finished, gave_up, shut_down, unfinished, died, Production, produced,
  callback_failed, Turn, after_chunk, chunk, write_production, take_turn, take_turns,
  run_virtual_input,
}
use audpipe_cpp.Backend.CreateInput.{State}

-- The loop keeps the module and the descriptor.
abbrev pub IsKept : Backend → Backend → Type 0
IsKept b b' =
    (b'.virtual_source_loaded ≡ b.virtual_source_loaded)
    × (b'.virtual_source_mod_idx ≡ b.virtual_source_mod_idx)

after_chunk-IsKept :
    (stop : Stop) (b : Backend) (pipe : List ℕ) → IsKept b (after_chunk stop (b, pipe)).1.0
unfolding after_chunk set_virtual_input_error
after_chunk-IsKept finished b pipe = (refl, refl)
after_chunk-IsKept gave_up b pipe = (refl, refl)
after_chunk-IsKept shut_down b pipe = (refl, refl)
after_chunk-IsKept unfinished b pipe = (refl, refl)
after_chunk-IsKept (died reason) b pipe = (refl, refl)

write_production-IsKept :
    (production : Production) (writes : List Write) (b : Backend) (pipe : List ℕ)
    → IsKept b (write_production production writes (b, pipe)).1.0
unfolding write_production set_virtual_input_error
write_production-IsKept callback_failed writes b pipe = (refl, refl)
write_production-IsKept (produced bytes) writes b pipe =
    let (stop, left, pipe') = write_chunk writes (chunk bytes) pipe in
    after_chunk-IsKept stop b pipe'

take_turn-IsKept : (t : Turn) (b : Backend) (pipe : List ℕ) → IsKept b (take_turn t (b, pipe)).1.0
unfolding take_turn
take_turn-IsKept t b pipe =
    let P = λ (r : Option Ending × WriteLoop.State). IsKept b r.1.0 in
    if_both P t.stopped (refl, refl)
      (if_both P t.shutdown (refl, refl) (write_production-IsKept t.production t.writes b pipe))

take_turns-IsKept :
    (turns : List Turn) (b : Backend) (pipe : List ℕ) → IsKept b (take_turns turns (b, pipe)).1.0
unfolding take_turns
take_turns-IsKept [] b pipe = (refl, refl)
take_turns-IsKept (t ∷ rest) b pipe =
    after (take_turn t (b, pipe)) (take_turn-IsKept t b pipe)
      (λ b' pipe'. take_turns-IsKept rest b' pipe')
  where
    after :
        (turn : Option Ending × WriteLoop.State)
        → IsKept b turn.1.0
        → ((b' : Backend) (pipe' : List ℕ) → IsKept b' (take_turns rest (b', pipe')).1.0)
        → IsKept b
            (elim turn.0 as (λ o. Ending × WriteLoop.State) [
              | some e ↦ (e, turn.1)
              | none ↦ take_turns rest turn.1
            ]).1.0
    after (some e, state) kept later = kept
    after (none, (b', pipe')) kept later =
        let (loaded, idx) = later b' pipe' in (loaded ∙ kept.0, idx ∙ kept.1)

pub run-IsKept :
    (turns : List Turn) (b : Backend) (pipe : List ℕ)
    → IsKept b (run_virtual_input turns (b, pipe)).1.0
unfolding run_virtual_input set_virtual_input_error
run-IsKept turns b pipe =
    if_both (λ (r : Ending × WriteLoop.State). IsKept b r.1.0) (is_virtual_input_ready b)
      (take_turns-IsKept turns (record b { playback = true }) pipe) (refl, refl)

-- How the thread's work ends: nothing is played any more, and an exception has left its reason.
abbrev pub IsReported : Ending × State → Type 0
IsReported (returned, (b, log, pipe)) = b.playback ≡ false
IsReported (threw reason, (b, log, pipe)) =
    (b.playback ≡ false)
    × (b.virtual_input_error ≡ some reason)
    × (is_virtual_input_ready b ≡ false)
IsReported (waiting, state) = Unit

-- Reported, and the backend knows what to unload once it has stopped.
abbrev IsOver : Ending × State → Type 0
IsOver (ending, (b, log, pipe)) =
    IsReported (ending, (b, log, pipe)) × IsKnown (stop_recording b, log)

module _ (host : Host) (turns : List Turn) (b : Backend) (log : Effects) (pipe : List ℕ)
    (unloading : Unloading) (states : List ContextState) (events : List Context.Event) where
  -- What the destructor of the backend leaves behind.
  abbrev pub destroyed : State → VirtualInput.State
  destroyed (b', log', pipe') =
      let (b2, log2, events') = Context.destroy unloading states (b', log', events) in (b2, log2)
