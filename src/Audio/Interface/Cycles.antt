-- ===== src/Audio/Interface/Cycles.antt =====
-- The repeated use of a virtual input, for any audio backend that keeps what include/audio.hxx promises.
use audpipe_cpp.Prelude.{◌≡◌, ◌≢◌, sym, subst, false, List, [], ◌∷◌}
use audpipe_cpp.Audio.Interface.{
  AudioBackend, Outcome, returned, blocking, threw, then_run, IsReported, IsValidated, IsLawful,
}

module _ (a : AudioBackend) where
  open a use {
    State, Message, Setup, Run, Teardown, stop_recording, create_virtual_input,
    destroy_virtual_input, setup_virtual_input, is_virtual_input_ready,
  }

  -- What a cycle meets.
  pub record Cycle : Type 0 where
    pub setup : Setup
    pub run : Run
    pub teardown : Teardown

  -- Creation, a stop and teardown.
  unfoldable pub cycle : Cycle → State → State
  cycle c s =
      destroy_virtual_input c.teardown (stop_recording (create_virtual_input c.setup c.run s).1)

  unfoldable pub cycles : List Cycle → State → State
  cycles [] s = s
  cycles (c ∷ rest) s = cycles rest (cycle c s)

  module _ (IsTornDown CanBeTornDown : State → Type 0) (IsAnswered : Setup → Type 0)
      (IsUnloading : Teardown → Type 0) where
    -- Every setup is answered, none blocks, and every teardown gets what it asks for.
    abbrev pub AreAnswered : List Cycle → State → Type 0
    AreAnswered [] s = Unit
    AreAnswered (c ∷ rest) s =
        IsAnswered c.setup
        × ((setup_virtual_input c.setup s).0 ≢ blocking)
        × IsUnloading c.teardown
        × AreAnswered rest (cycle c s)

    module _ (laws : IsLawful a IsTornDown CanBeTornDown IsAnswered IsUnloading) where
      then_run-CanBeTornDown :
          (run : Run) (set_up : Outcome Message × State)
          → set_up.0 ≢ blocking
          → CanBeTornDown set_up.1
          → CanBeTornDown (then_run a run set_up).1
      then_run-CanBeTornDown run (returned, s) settled can = laws.run-CanBeTornDown run s can
      then_run-CanBeTornDown run (blocking, s) settled can = can
      then_run-CanBeTornDown run (threw message, s) settled can = can

      cycle-IsTornDown :
          (c : Cycle) (s : State)
          → IsTornDown s
          → IsAnswered c.setup
          → (setup_virtual_input c.setup s).0 ≢ blocking
          → IsUnloading c.teardown
          → IsTornDown (cycle c s)
      unfolding cycle
      cycle-IsTornDown c s clean answered settled unloads =
          let set_up = setup_virtual_input c.setup s in
          let created = create_virtual_input c.setup c.run s in
          laws.destroy-IsTornDown c.teardown (stop_recording created.1) unloads (
            laws.stop_recording-CanBeTornDown created.1 (
              subst (λ (made : Outcome Message × State). CanBeTornDown made.1)
                (sym (laws.create-then_run c.setup c.run s))
                (then_run-CanBeTornDown c.run set_up settled
                  (laws.setup-CanBeTornDown c.setup s clean answered settled))))

      -- Any number of cycles.
      pub cycles-IsTornDown :
          (cs : List Cycle) (s : State) → IsTornDown s → AreAnswered cs s → IsTornDown (cycles cs s)
      unfolding cycles
      cycles-IsTornDown [] s clean answered = clean
      cycles-IsTornDown (c ∷ rest) s clean (answered, settled, unloads, later) =
          cycles-IsTornDown rest (cycle c s) (cycle-IsTornDown c s clean answered settled unloads)
            later

      then_run-IsReported :
          (run : Run) (set_up : Outcome Message × State)
          → IsValidated a set_up
          → IsReported a (then_run a run set_up)
      then_run-IsReported run (returned, s) validated = laws.run-IsReported run s
      then_run-IsReported run (blocking, s) validated = tt
      then_run-IsReported run (threw message, s) reported = reported

      -- A backend that keeps the promises, torn down at first, through any number of cycles of creation,
      -- stop and teardown whose setups are answered and do not block and whose teardowns get what they ask for: it is torn down again and not
      -- ready. A setup that is answered then either returns with an input that is ready, or blocks, or throws;
      -- and if the setup or the whole creation throws, its message is kept and the input is not
      -- ready.
      pub cycles-renewed :
          (cs : List Cycle) (s : State) (c : Cycle)
          → IsTornDown s
          → AreAnswered cs s
          → IsAnswered c.setup
          → let again = cycles cs s in
            IsTornDown again
            × (is_virtual_input_ready again ≡ false)
            × IsValidated a (setup_virtual_input c.setup again)
            × IsReported a (create_virtual_input c.setup c.run again)
      cycles-renewed cs s c clean answered last =
          let again = cycles cs s in
          let torn_down = cycles-IsTornDown cs s clean answered in
          let validated = laws.setup-IsValidated c.setup again torn_down last in
          (
            torn_down,
            laws.torn_down-not_ready again torn_down,
            validated,
            subst (IsReported a) (sym (laws.create-then_run c.setup c.run again))
                (then_run-IsReported c.run (setup_virtual_input c.setup again) validated),
          )
