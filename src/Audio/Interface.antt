-- ===== src/Audio/Interface.antt =====
-- `AudioBackend` of include/audio.hxx: what an audio backend offers, and what its comments promise of the
-- virtual input.
pub mod Cycles
use audpipe_cpp.Prelude.{
  ℕ, String, ◌≡◌, ◌≢◌, Bool, true, false, Option, none, some, List, Result, ok, err,
}
use audpipe_cpp.Audio.{AudioDevice}

-- A call returns, throws with a message, or still blocks.
pub data Outcome (Message : Type 0) : Type 0 where
  returned blocking : Outcome Message
  threw : Message → Outcome Message

-- The members that a backend overrides. What a call meets of the system is an argument of a type of the
-- backend's own; `record` is `record_device`, with the chunks that it hands to the data callback.
pub record AudioBackend : Type 1 where
  pub State : Type 0
  pub Message : Type 0
  pub Fault : Type 0
  pub Listing : Type 0
  pub Recording : Type 0
  pub Setup : Type 0
  pub Run : Type 0
  pub Teardown : Type 0
  pub get_inputs : Listing → Option (List AudioDevice)
  pub get_outputs : Listing → Option (List AudioDevice)
  pub record_device : Recording → AudioDevice → State → Outcome Fault × List (List ℕ) × State
  pub stop_recording : State → State
  pub create_virtual_input : Setup → Run → State → Outcome Message × State
  pub destroy_virtual_input : Teardown → State → State
  pub setup_virtual_input : Setup → State → Outcome Message × State
  pub run_virtual_input : Run → State → Outcome Message × State
  pub is_virtual_input_ready : State → Bool
  pub get_virtual_input_error : State → Option Message

module _ (a : AudioBackend) where
  open a use {
    State, Message, Setup, Run, Teardown, stop_recording, create_virtual_input,
    destroy_virtual_input, setup_virtual_input, run_virtual_input, is_virtual_input_ready,
    get_virtual_input_error,
  }

  -- What follows a setup in the convenience call: the run, if it returned.
  abbrev pub then_run : Run → Outcome Message × State → Outcome Message × State
  then_run run (returned, s) = run_virtual_input run s
  then_run run (blocking, s) = (blocking, s)
  then_run run (threw message, s) = (threw message, s)

  -- A call that threw has left its message, and the input is not ready.
  abbrev pub IsReported : Outcome Message × State → Type 0
  IsReported (returned, s) = Unit
  IsReported (blocking, s) = Unit
  IsReported (threw message, s) =
      (is_virtual_input_ready s ≡ false) × (get_virtual_input_error s ≡ some message)

  -- A setup that returned is ready.
  abbrev pub IsValidated : Outcome Message × State → Type 0
  IsValidated (returned, s) = is_virtual_input_ready s ≡ true
  IsValidated (blocking, s) = Unit
  IsValidated (threw message, s) = IsReported (threw message, s)

  -- What is promised, for a notion of a state that is torn down, one that can be torn down, and a setup
  -- whose questions are answered, and a teardown that gets what it asks for.
  pub record IsLawful (IsTornDown CanBeTornDown : State → Type 0) (IsAnswered : Setup → Type 0)
      (IsUnloading : Teardown → Type 0) : Type 1 where
    -- "Query whether setup completed successfully."
    pub torn_down-not_ready : (s : State) → IsTornDown s → is_virtual_input_ready s ≡ false
    -- "Setup only. Validates readiness." And "Optional diagnostic string for setup/runtime failure."
    pub setup-IsValidated :
        (setup : Setup) (s : State)
        → IsTornDown s
        → IsAnswered setup
        → IsValidated (setup_virtual_input setup s)
    pub run-IsReported : (run : Run) (s : State) → IsReported (run_virtual_input run s)
    -- "Backward-compatible convenience API (can call setup + run)."
    pub create-then_run :
        (setup : Setup) (run : Run) (s : State)
        → create_virtual_input setup run s ≡ then_run run (setup_virtual_input setup s)
    -- "Explicit teardown for repeatable setup-run-destroy cycles."
    pub setup-CanBeTornDown :
        (setup : Setup) (s : State)
        → IsTornDown s
        → IsAnswered setup
        → (setup_virtual_input setup s).0 ≢ blocking
        → CanBeTornDown (setup_virtual_input setup s).1
    pub run-CanBeTornDown :
        (run : Run) (s : State) → CanBeTornDown s → CanBeTornDown (run_virtual_input run s).1
    pub stop_recording-CanBeTornDown :
        (s : State) → CanBeTornDown s → CanBeTornDown (stop_recording s)
    pub destroy-IsTornDown :
        (teardown : Teardown) (s : State)
        → IsUnloading teardown
        → CanBeTornDown s
        → IsTornDown (destroy_virtual_input teardown s)
    -- "Implementations should be safe to call when already torn down."
    pub torn_down-CanBeTornDown : (s : State) → IsTornDown s → CanBeTornDown s
