-- ===== src/Backend/Recording/Accepted.antt =====
-- Which devices a recording refuses (src/audio/pulseaudio_backend.cpp).
use audpipe_cpp.Prelude.{
  ℕ, ◌≡◌, ◌≢◌, refl, sym, subst, Bool, true, false, not, if_both, if_split, Option, none, some, ◌∷◌,
}
use audpipe_cpp.Audio.{AudioDevice}
use audpipe_cpp.Backend.Recording.{
  StreamState, State, Fault, not_a_source, stream_not_created, stream_not_ready, Ending, returned,
  waiting, threw, destroy_stream, record_turns, wait_for_stream_ready, Script, finish, start_loop,
  record_ready, record_stream, record_device, stream_created,
}
use audpipe_cpp.Backend.Recording.Streams.{IsLeft, record_turns-IsLeft, wait_for_stream_ready-fault}

-- The call did not refuse its device.
abbrev pub IsAccepted : Ending × State → Type 0
IsAccepted (returned, s) = Unit
IsAccepted (waiting, s) = Unit
IsAccepted (threw fault, s) = fault ≢ not_a_source

finish-IsAccepted :
    (state : StreamState) (s : State) (out : Ending × State)
    → IsLeft s out
    → IsAccepted (finish state out)
finish-IsAccepted state s (returned, end) left = tt
finish-IsAccepted state s (waiting, end) left = tt
finish-IsAccepted state s (threw fault, end) impossible = absurd impossible

record_ready-IsAccepted :
    (script : Script) (ending : Ending) (s : State)
    → ((fault : Fault) → ending ≡ threw fault → fault ≡ stream_not_ready)
    → IsAccepted (record_ready script ending s)
unfolding record_ready
record_ready-IsAccepted script returned s faults =
    finish-IsAccepted script.last_state (start_loop s) (record_turns script.turns (start_loop s))
      (record_turns-IsLeft script.turns (start_loop s))
record_ready-IsAccepted script waiting s faults = tt
record_ready-IsAccepted script (threw fault) s faults =
    subst (λ f. f ≢ not_a_source) (sym (faults fault refl)) (λ e. cc)

contradiction : {b : Bool} → not b ≡ true → b ≡ true → ⊥
contradiction {b = true} h k = cc
contradiction {b = false} h k = cc

-- A source is not refused.
pub record-IsAccepted :
    (script : Script) (dev : AudioDevice) (s : State)
    → dev.is_source ≡ true
    → IsAccepted (record_device script dev s)
unfolding record_device record_stream
record-IsAccepted script dev s source =
    if_split IsAccepted (not dev.is_source) (λ refused. absurd (contradiction refused source))
      (λ _. by_stream script.created)
  where
    cleared : State
    cleared = destroy_stream script.old_state s

    by_stream :
        (created : Option ℕ)
        → IsAccepted (elim created as (λ o. Ending × State) [
          | none ↦ (threw stream_not_created, cleared)
          | some stream ↦ record_stream script stream cleared
        ])
    by_stream none = λ e. cc
    by_stream (some stream) =
        if_both IsAccepted script.connects
          (record_ready-IsAccepted script (wait_for_stream_ready script.states)
            (record cleared {
              backend = record cleared.backend { stream = some stream };
              events = stream_created stream ∷ cleared.events;
            })
            (wait_for_stream_ready-fault script.states))
          (λ e. cc)
