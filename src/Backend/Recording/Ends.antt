-- ===== src/Backend/Recording/Ends.antt =====
-- That a recording ends (src/audio/pulseaudio_backend.cpp).
use audpipe_cpp.Prelude.{
  ◌≡◌, ◌≢◌, refl, ◌⊎◌, inl, inr, true, false, not, if_split, if_both, ℕ, Option, none, some, List,
  [], ◌∷◌,
}
use audpipe_cpp.Audio.{AudioDevice}
use audpipe_cpp.Backend.Recording.{
  stream_created, stream_not_created, StreamState, unconnected, creating, ready, failed, terminated,
  Turn, State, Ending, returned, waiting, threw, destroy_stream, dispatch_all, record_turns,
  wait_for_stream_ready, Script, finish, start_loop, record_ready, record_stream, record_device,
}

-- Another thread stops the recording, or a shutdown is requested, before the script is over.
abbrev pub IsStopped : List Turn → Type 0
IsStopped [] = ⊥
IsStopped (t ∷ rest) = (t.stopped ≡ true) ⊎ ((t.shutdown ≡ true) ⊎ IsStopped rest)

abbrev pub IsSettled : StreamState → Type 0
IsSettled state = (state ≡ ready) ⊎ ((state ≡ failed) ⊎ (state ≡ terminated))

abbrev pub Settles : List StreamState → Type 0
Settles [] = ⊥
Settles (state ∷ rest) = IsSettled state ⊎ Settles rest

abbrev pub IsOver : Ending → Type 0
IsOver ending = ending ≢ waiting

record_turns-ends :
    (turns : List Turn) (s : State) → IsStopped turns → (record_turns turns s).0 ≡ returned
unfolding record_turns
record_turns-ends [] s never = absurd never
record_turns-ends (t ∷ rest) s stopped =
    if_split P (not s.backend.recording) (λ over. refl)
      (λ on.
        if_split P t.stopped (λ now. refl)
          (λ not_stopped.
            if_split P t.shutdown (λ now. refl)
              (λ no_shutdown.
                by_case stopped not_stopped no_shutdown
                  (record_turns-ends rest (dispatch_all t.dispatched s)))))
  where
    P : Ending × State → Type 0
    P r = r.0 ≡ returned

    by_case :
        (t.stopped ≡ true) ⊎ ((t.shutdown ≡ true) ⊎ IsStopped rest)
        → t.stopped ≡ false
        → t.shutdown ≡ false
        → (IsStopped rest → P (record_turns rest (dispatch_all t.dispatched s)))
        → P (record_turns rest (dispatch_all t.dispatched s))
    by_case (inl now) not_stopped no_shutdown later = cc
    by_case (inr (inl now)) not_stopped no_shutdown later = cc
    by_case (inr (inr rest_stops)) not_stopped no_shutdown later = later rest_stops

wait-IsOver : (states : List StreamState) → Settles states → IsOver (wait_for_stream_ready states)
unfolding wait_for_stream_ready
wait-IsOver [] never = absurd never
wait-IsOver (ready ∷ rest) h = λ e. cc
wait-IsOver (failed ∷ rest) h = λ e. cc
wait-IsOver (terminated ∷ rest) h = λ e. cc
wait-IsOver (unconnected ∷ rest) (inl (inl now)) = cc
wait-IsOver (unconnected ∷ rest) (inl (inr (inl now))) = cc
wait-IsOver (unconnected ∷ rest) (inl (inr (inr now))) = cc
wait-IsOver (unconnected ∷ rest) (inr later) = wait-IsOver rest later
wait-IsOver (creating ∷ rest) (inl (inl now)) = cc
wait-IsOver (creating ∷ rest) (inl (inr (inl now))) = cc
wait-IsOver (creating ∷ rest) (inl (inr (inr now))) = cc
wait-IsOver (creating ∷ rest) (inr later) = wait-IsOver rest later

module _ (script : Script) (settles : Settles script.states) (stops : IsStopped script.turns) where
  abbrev pub AllOver : Ending × State → Type 0
  AllOver r = IsOver r.0

  finish-AllOver : (r : Ending × State) → r.0 ≡ returned → AllOver (finish script.last_state r)
  finish-AllOver (returned, s) h = λ e. cc
  finish-AllOver (waiting, s) h = cc
  finish-AllOver (threw fault, s) h = cc

  record_ready-AllOver :
      (ending : Ending) (s : State) → IsOver ending → AllOver (record_ready script ending s)
  unfolding record_ready
  record_ready-AllOver returned s over =
      finish-AllOver (record_turns script.turns (start_loop s))
        (record_turns-ends script.turns (start_loop s) stops)
  record_ready-AllOver waiting s over = absurd (over refl)
  record_ready-AllOver (threw fault) s over = λ e. cc

  record_stream-AllOver : (stream : ℕ) (s : State) → AllOver (record_stream script stream s)
  unfolding record_stream
  record_stream-AllOver stream s =
      if_both AllOver script.connects
        (record_ready-AllOver (wait_for_stream_ready script.states)
          (record s {
            backend = record s.backend { stream = some stream };
            events = stream_created stream ∷ s.events;
          })
          (wait-IsOver script.states settles))
        (λ e. cc)

  -- A recording whose stream settles and that is stopped is over.
  pub record-AllOver : (device : AudioDevice) (s : State) → AllOver (record_device script device s)
  unfolding record_device
  record-AllOver device s =
      if_both AllOver (not device.is_source) (λ e. cc)
        (by_stream script.created (destroy_stream script.old_state s))
    where
      by_stream :
          (created : Option ℕ) (cleared : State)
          → AllOver (elim created as (λ _. Ending × State) [
            | none ↦ (threw stream_not_created, cleared)
            | some stream ↦ record_stream script stream cleared
          ])
      by_stream none cleared = λ e. cc
      by_stream (some stream) cleared = record_stream-AllOver stream cleared
