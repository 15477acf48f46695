-- ===== src/Backend/Recording/Streams.antt =====
-- The streams that a recording leaves (src/audio/pulseaudio_backend.cpp).
use audpipe_cpp.Prelude.{
  ℕ, ◌+◌, ◌-◌, ◌≡◌, refl, sym, ap, subst, ◌∙◌, Bool, true, false, not, if_split, if_both, Option,
  none, some, List, [], ◌∷◌, arith,
}
use audpipe_cpp.Audio.{AudioDevice}
use audpipe_cpp.Backend.Recording.{
  StreamState, unconnected, creating, ready, failed, terminated, stream_state_cb, Dispatch,
  state_changed, readable, Turn, StreamEvent, stream_created, stream_disconnected,
  stream_unreferenced, State, Fault, not_a_source, stream_not_created, not_connected,
  stream_not_ready, Ending, returned, waiting, threw, destroy_stream, dispatch, dispatch_all,
  stop_loop, record_turns, wait_for_stream_ready, Script, finish, start_loop, record_ready,
  record_stream, record_device,
}

-- The streams that were created and not given up.
abbrev pub alive : List StreamEvent → ℕ
alive [] = 0
alive (stream_created stream ∷ events) = alive events + 1
alive (stream_disconnected stream ∷ events) = alive events
alive (stream_unreferenced stream ∷ events) = alive events - 1

abbrev pub held : Option ℕ → ℕ
held none = 0
held (some stream) = 1

-- The only stream alive is the one that the backend holds.
abbrev pub IsBalanced : State → Type 0
IsBalanced s = alive s.events ≡ held s.backend.stream

-- What is left of the stream when a call throws.
abbrev pub IsDropped : Fault → State → Type 0
IsDropped not_a_source s = Unit
IsDropped stream_not_created s = s.backend.stream ≡ none
IsDropped not_connected s = s.backend.stream ≡ none
IsDropped stream_not_ready s = Unit

abbrev pub IsRecorded : Ending × State → Type 0
IsRecorded (returned, s) = IsBalanced s × (s.backend.stream ≡ none) × (s.backend.recording ≡ false)
IsRecorded (waiting, s) = IsBalanced s
IsRecorded (threw fault, s) = IsBalanced s × IsDropped fault s

destroy_stream_lem :
    (state : StreamState) (s : State)
    → IsBalanced s
    → let s' = destroy_stream state s in
      IsBalanced s' × (s'.backend.stream ≡ none) × (s'.backend.recording ≡ s.backend.recording)
unfolding destroy_stream
destroy_stream_lem state s h = ground arith

-- What a part of the loop leaves alone.
abbrev pub Keeps : State → State → Type 0
Keeps s s' = (s'.backend.stream ≡ s.backend.stream) × (s'.events ≡ s.events)

Keeps-IsBalanced : (s s' : State) → Keeps s s' → IsBalanced s → IsBalanced s'
Keeps-IsBalanced s s' (stream, events) h = ap alive events ∙ h ∙ ap held (sym stream)

dispatch-Keeps : (d : Dispatch) (s : State) → Keeps s (dispatch d s)
unfolding dispatch stream_state_cb
dispatch-Keeps (state_changed unconnected) s = (refl, refl)
dispatch-Keeps (state_changed creating) s = (refl, refl)
dispatch-Keeps (state_changed ready) s = (refl, refl)
dispatch-Keeps (state_changed failed) s = (refl, refl)
dispatch-Keeps (state_changed terminated) s = (refl, refl)
dispatch-Keeps (readable peeks) s = (refl, refl)

Keeps-trans : (s s' s'' : State) → Keeps s s' → Keeps s' s'' → Keeps s s''
Keeps-trans s s' s'' (stream, events) (stream', events') = (stream' ∙ stream, events' ∙ events)

dispatch_all-Keeps : (ds : List Dispatch) (s : State) → Keeps s (dispatch_all ds s)
unfolding dispatch_all
dispatch_all-Keeps [] s = (refl, refl)
dispatch_all-Keeps (d ∷ rest) s =
    Keeps-trans s (dispatch d s) (dispatch_all rest (dispatch d s)) (dispatch-Keeps d s)
      (dispatch_all-Keeps rest (dispatch d s))

-- What the loop may end in: it does not throw.
abbrev pub IsLeft : State → Ending × State → Type 0
IsLeft s (returned, s') = Keeps s s' × (s'.backend.recording ≡ false)
IsLeft s (waiting, s') = Keeps s s'
IsLeft s (threw fault, s') = ⊥

IsLeft-later : (s s' : State) (out : Ending × State) → Keeps s s' → IsLeft s' out → IsLeft s out
IsLeft-later s s' (returned, end) k (k', stopped) = (Keeps-trans s s' end k k', stopped)
IsLeft-later s s' (waiting, end) k k' = Keeps-trans s s' end k k'
IsLeft-later s s' (threw fault, end) k impossible = impossible

not-true : {b : Bool} → not b ≡ true → b ≡ false
not-true {b = true} h = sym h
not-true {b = false} h = refl

pub record_turns-IsLeft : (turns : List Turn) (s : State) → IsLeft s (record_turns turns s)
unfolding record_turns stop_loop
record_turns-IsLeft [] s =
    if_split (λ (e : Ending). IsLeft s (e, s)) s.backend.recording (λ _. (refl, refl))
      (λ off. ((refl, refl), off))
record_turns-IsLeft (t ∷ rest) s =
    if_split (IsLeft s) (not s.backend.recording) (λ stopped. ((refl, refl), not-true stopped))
      (λ _.
        if_both (IsLeft s) t.stopped ((refl, refl), refl)
          (if_both (IsLeft s) t.shutdown ((refl, refl), refl)
            (IsLeft-later s (dispatch_all t.dispatched s)
              (record_turns rest (dispatch_all t.dispatched s)) (dispatch_all-Keeps t.dispatched s)
              (record_turns-IsLeft rest (dispatch_all t.dispatched s)))))

finish-IsRecorded :
    (state : StreamState) (s : State) (out : Ending × State)
    → IsBalanced s
    → IsLeft s out
    → IsRecorded (finish state out)
finish-IsRecorded state s (returned, end) h (k, stopped) =
    let (balanced, dropped, same) = destroy_stream_lem state end (Keeps-IsBalanced s end k h) in
    (balanced, dropped, same ∙ stopped)
finish-IsRecorded state s (waiting, end) h k = Keeps-IsBalanced s end k h
finish-IsRecorded state s (threw fault, end) h impossible = absurd impossible

pub wait_for_stream_ready-fault :
    (states : List StreamState) (fault : Fault)
    → wait_for_stream_ready states ≡ threw fault
    → fault ≡ stream_not_ready
unfolding wait_for_stream_ready
wait_for_stream_ready-fault [] fault e = cc
wait_for_stream_ready-fault (ready ∷ rest) fault e = cc
wait_for_stream_ready-fault (failed ∷ rest) fault e = ground arith
wait_for_stream_ready-fault (terminated ∷ rest) fault e = ground arith
wait_for_stream_ready-fault (unconnected ∷ rest) fault e = wait_for_stream_ready-fault rest fault e
wait_for_stream_ready-fault (creating ∷ rest) fault e = wait_for_stream_ready-fault rest fault e

record_ready-IsRecorded :
    (script : Script) (ending : Ending) (s : State)
    → ((fault : Fault) → ending ≡ threw fault → fault ≡ stream_not_ready)
    → IsBalanced s
    → IsRecorded (record_ready script ending s)
unfolding record_ready
record_ready-IsRecorded script returned s faults h =
    finish-IsRecorded script.last_state (start_loop s) (record_turns script.turns (start_loop s)) h
      (record_turns-IsLeft script.turns (start_loop s))
record_ready-IsRecorded script waiting s faults h = h
record_ready-IsRecorded script (threw fault) s faults h =
    (h, subst (λ f. IsDropped f s) (sym (faults fault refl)) tt)

record_stream-IsRecorded :
    (script : Script) (stream : ℕ) (s : State)
    → alive s.events ≡ 0
    → IsRecorded (record_stream script stream s)
unfolding record_stream
record_stream-IsRecorded script stream s h =
    if_both IsRecorded script.connects
      (record_ready-IsRecorded script (wait_for_stream_ready script.states) made
        (wait_for_stream_ready-fault script.states) balanced)
      (let (left, dropped, same) = destroy_stream_lem script.unconnected_state made balanced in
        (left, dropped))
  where
    made : State
    made = record s {
      backend = record s.backend { stream = some stream };
      events = stream_created stream ∷ s.events;
    }

    balanced : IsBalanced made
    balanced = omega (arith, h)

-- A recording never leaves a stream behind that the backend does not hold. If it returns, no stream is
-- left and nothing records; if it throws because the stream is not created or not connected, no stream
-- is left either.
pub record-IsRecorded :
    (script : Script) (dev : AudioDevice) (s : State)
    → IsBalanced s
    → IsRecorded (record_device script dev s)
unfolding record_device
record-IsRecorded script dev s h =
    if_both IsRecorded (not dev.is_source) (h, tt) (by_stream script.created)
  where
    cleared : State
    cleared = destroy_stream script.old_state s

    by_stream :
        (created : Option ℕ)
        → IsRecorded (elim created as (λ o. Ending × State) [
          | none ↦ (threw stream_not_created, cleared)
          | some stream ↦ record_stream script stream cleared
        ])
    by_stream none =
        let (left, dropped, same) = destroy_stream_lem script.old_state s h in (left, dropped)
    by_stream (some stream) =
        let (left, dropped, same) = destroy_stream_lem script.old_state s h in
        record_stream-IsRecorded script stream cleared (left ∙ ap held dropped)
