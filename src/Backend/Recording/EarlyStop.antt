-- ===== src/Backend/Recording/EarlyStop.antt =====
-- A recording that is stopped before its loop (src/audio/pulseaudio_backend.cpp).
use audpipe_cpp.Prelude.{◌≡◌, refl, ap, ◌∙◌, true, false, List, [], ◌∷◌, arith}
use audpipe_cpp.Backend.{stop_recording}
use audpipe_cpp.Backend.Recording.{
  Dispatch, state_changed, readable, Turn, State, Ending, returned, waiting, threw, dispatch,
  dispatch_all, record_turns, Script, finish, start_loop, record_ready,
}

-- Nothing but audio comes.
abbrev pub AreReads : List Dispatch → Type 0
AreReads [] = Unit
AreReads (readable peeks ∷ rest) = AreReads rest
AreReads (state_changed state ∷ rest) = ⊥

-- No turn stops, requests a shutdown or tells a state of the stream.
abbrev pub NeverStops : List Turn → Type 0
NeverStops [] = Unit
NeverStops (t ∷ rest) =
    (t.stopped ≡ false) × (t.shutdown ≡ false) × AreReads t.dispatched × NeverStops rest

dispatch_all-backend :
    (ds : List Dispatch) (s : State) → AreReads ds → (dispatch_all ds s).backend ≡ s.backend
unfolding dispatch_all dispatch
dispatch_all-backend [] s reads = refl
dispatch_all-backend (readable peeks ∷ rest) s reads =
    dispatch_all-backend rest (dispatch (readable peeks) s) reads
dispatch_all-backend (state_changed state ∷ rest) s reads = absurd reads

record_turns-waits :
    (turns : List Turn) (s : State)
    → NeverStops turns
    → s.backend.recording ≡ true
    → (record_turns turns s).0 ≡ waiting
unfolding record_turns
record_turns-waits [] s never on = ground arith
record_turns-waits (t ∷ rest) s (not_stopped, no_shutdown, reads, later) on =
    let same = dispatch_all-backend t.dispatched s reads in
    ground (
      arith,
      record_turns-waits rest (dispatch_all t.dispatched s) later (ap (λ b. b.recording) same ∙ on),
    )

finish-waits :
    (script : Script) (r : Ending × State)
    → r.0 ≡ waiting
    → (finish script.last_state r).0 ≡ waiting
finish-waits script (returned, s) e = e
finish-waits script (waiting, s) e = e
finish-waits script (threw fault, s) e = e

-- A `stop_recording` that comes while the recording still waits for its stream is lost: when the stream
-- is ready, the loop runs on for as long as nothing but audio comes.
pub early_stop_lost :
    (script : Script) (s : State)
    → NeverStops script.turns
    → (record_ready script returned (record s { backend = stop_recording s.backend })).0 ≡ waiting
unfolding record_ready
early_stop_lost script s never =
    let stopped = record s { backend = stop_recording s.backend } in
    finish-waits script (record_turns script.turns (start_loop stopped))
      (record_turns-waits script.turns (start_loop stopped) never refl)
