-- ===== src/Backend/Context/Waiting.antt =====
-- How the wait for the context ends (src/audio/pulseaudio_backend.cpp).
use audpipe_cpp.Prelude.{ℕ, ◌≡◌, refl, ap, ◌∙◌, none, some, List, [], ◌∷◌, ◌++◌}
use audpipe_cpp.Backend.{initial}
use audpipe_cpp.Backend.Context.{
  ContextState, ready, failed, terminated, Event, disconnected, unreferenced, mainloop_freed,
  Ending, returned, threw, waiting, pa_state_cb, written_over, tell_waiting, wait_for_context_ready,
  create,
}

-- A state that settles nothing.
abbrev pub IsPassing : ContextState → Type 0
IsPassing state = pa_state_cb state ≡ none

abbrev pub AllPassing : List ContextState → Type 0
AllPassing [] = Unit
AllPassing (state ∷ rest) = IsPassing state × AllPassing rest

abbrev pub NoneSettles : List (List ContextState) → Type 0
NoneSettles [] = Unit
NoneSettles (states ∷ rest) = AllPassing states × NoneSettles rest

tell_waiting-passing :
    (states : List ContextState) (n : ℕ) → AllPassing states → tell_waiting states n ≡ n
unfolding tell_waiting
tell_waiting-passing [] n h = refl
tell_waiting-passing (state ∷ rest) n (passes, h) = rw passes (tell_waiting-passing rest n h)

tell_waiting-settled :
    (before : List ContextState) (state : ContextState) (after : List ContextState) (n value : ℕ)
    → pa_state_cb state ≡ some value
    → AllPassing after
    → tell_waiting (before ++ state ∷ after) n ≡ value
unfolding tell_waiting
tell_waiting-settled [] state after n value settles h =
    ap (λ told. tell_waiting after (written_over told n)) settles
    ∙ tell_waiting-passing after value h
tell_waiting-settled (s ∷ before) state after n value settles h =
    tell_waiting-settled before state after (written_over (pa_state_cb s) n) value settles h

wait_passing :
    (passing : List (List ContextState)) (log : List Event)
    → NoneSettles passing
    → wait_for_context_ready passing 0 log ≡ (waiting, log)
unfolding wait_for_context_ready
wait_passing [] log h = refl
wait_passing (states ∷ passing) log (passes, h) =
    ap (λ pa_ready. wait_for_context_ready passing pa_ready log)
      (tell_waiting-passing states 0 passes)
    ∙ wait_passing passing log h

wait_settled :
    (passing : List (List ContextState)) (states : List ContextState)
    (rest : List (List ContextState)) (log : List Event)
    → NoneSettles passing
    → wait_for_context_ready (passing ++ states ∷ rest) 0 log
      ≡ wait_for_context_ready rest (tell_waiting states 0) log
unfolding wait_for_context_ready
wait_settled [] states rest log h = refl
wait_settled (passed ∷ passing) states rest log (passes, h) =
    ap (λ pa_ready. wait_for_context_ready (passing ++ states ∷ rest) pa_ready log)
      (tell_waiting-passing passed 0 passes)
    ∙ wait_settled passing states rest log h

settled :
    (passing : List (List ContextState)) (before : List ContextState) (state : ContextState)
    (after : List ContextState) (rest : List (List ContextState)) (log : List Event) (value : ℕ)
    → NoneSettles passing
    → AllPassing after
    → pa_state_cb state ≡ some value
    → wait_for_context_ready (passing ++ (before ++ state ∷ after) ∷ rest) 0 log
      ≡ wait_for_context_ready rest value log
settled passing before state after rest log value h k settles =
    wait_settled passing (before ++ state ∷ after) rest log h
    ∙ ap (λ pa_ready. wait_for_context_ready rest pa_ready log)
        (tell_waiting-settled before state after 0 value settles k)

module _ (passing : List (List ContextState)) (before after : List ContextState)
    (rest : List (List ContextState)) (log : List Event) where
  pub EndsAs : ContextState → Ending × List Event → Type 0
  EndsAs state (ending, log') =
      create (passing ++ (before ++ state ∷ after) ∷ rest) log ≡ (ending, initial, log')

  settled-EndsAs :
      (state : ContextState) (value : ℕ) {ending : Ending} {log' : List Event}
      → NoneSettles passing
      → AllPassing after
      → pa_state_cb state ≡ some value
      → wait_for_context_ready rest value log ≡ (ending, log')
      → EndsAs state (ending, log')
  unfolding EndsAs create
  settled-EndsAs state value h k settles ends =
      ap (λ (r : Ending × List Event). (r.0, initial, r.1))
        (settled passing before state after rest log value h k settles ∙ ends)

  -- The constructor goes by the first iteration of the main loop that tells a settled state, and by the
  -- last settled state of this iteration: at READY it returns; at FAILED and TERMINATED it disconnects,
  -- unreferences and frees the main loop, in this order, and throws. While no state is settled, which is
  -- so for ever when the connection fails at once, it waits.
  pub create-EndsAs :
      NoneSettles passing
      → AllPassing after
      → (create passing log ≡ (waiting, initial, log))
        × EndsAs ready (returned, log)
        × EndsAs failed (threw, mainloop_freed ∷ unreferenced ∷ disconnected ∷ log)
        × EndsAs terminated (threw, mainloop_freed ∷ unreferenced ∷ disconnected ∷ log)
  unfolding create wait_for_context_ready pa_state_cb
  create-EndsAs h k = (
    ap (λ (r : Ending × List Event). (r.0, initial, r.1)) (wait_passing passing log h),
    settled-EndsAs ready 1 h k refl (ready_ends rest),
    settled-EndsAs failed 2 h k refl (failed_ends rest),
    settled-EndsAs terminated 2 h k refl (failed_ends rest),
  )
    where
      ready_ends :
          (iterations : List (List ContextState))
          → wait_for_context_ready iterations 1 log ≡ (returned, log)
      ready_ends [] = refl
      ready_ends (states ∷ more) = refl

      failed_ends :
          (iterations : List (List ContextState))
          → wait_for_context_ready iterations 2 log
            ≡ (threw, mainloop_freed ∷ unreferenced ∷ disconnected ∷ log)
      failed_ends [] = refl
      failed_ends (states ∷ more) = refl
