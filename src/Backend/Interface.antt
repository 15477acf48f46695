-- ===== src/Backend/Interface.antt =====
-- `PulseaudioBackend` as an `AudioBackend` (src/audio/pulseaudio_backend.cpp and include/audio.hxx).
pub mod Lawful
mod Tests
use audpipe_cpp.Prelude.{
  ℕ, ◌≡◌, ◌≢◌, refl, ap, ◌∙◌, Bool, true, false, not, ◌⊎◌, inl, inr, ◌==◌, if_both, Option, none,
  some, List, [], Result, ok, err, ℤ,
}
use audpipe_cpp.Audio.{AudioDevice}
use audpipe_cpp.Audio.Interface
use audpipe_cpp.Audio.Interface.{AudioBackend, Outcome, IsReported, IsValidated, IsLawful, then_run}
use audpipe_cpp.Backend.{
  Backend, Reason, is_virtual_input_ready, stop_recording, set_virtual_input_error,
}
use audpipe_cpp.Backend.Devices
use audpipe_cpp.Backend.Devices.{DeviceInfo}
use audpipe_cpp.Backend.Recording
use audpipe_cpp.Backend.VirtualInput
use audpipe_cpp.Backend.VirtualInput.{
  Host, Unloading, Effects, no_answer, setup_virtual_input, destroy_virtual_input,
}
use audpipe_cpp.Backend.VirtualInput.Setup.{IsSettled, setup-IsSettled}
use audpipe_cpp.Backend.VirtualInput.Teardown.{
  IsKnown, IsTornDown, destroy-IsTornDown, IsSettled-IsKnown,
}
use audpipe_cpp.Backend.WriteLoop.{Turn, run_virtual_input}
use audpipe_cpp.Backend.WriteLoop.Ends.{IsEnded, run-IsEnded}
use audpipe_cpp.Backend.CreateInput
use audpipe_cpp.Backend.CreateInput.{State, after_setup, create_virtual_input}
use audpipe_cpp.Backend.CreateInput.Lifecycle.{IsKept, run-IsKept}

-- `get_virtual_input_error`; the empty text is `none`.
unfoldable pub get_virtual_input_error : Backend → Option Reason
get_virtual_input_error b = b.virtual_input_error

-- The endings of this backend as those of the interface.
abbrev pub outcome : VirtualInput.Ending → Outcome Reason
outcome VirtualInput.returned = Interface.returned
outcome VirtualInput.waiting = Interface.blocking
outcome (VirtualInput.threw reason) = Interface.threw reason

abbrev pub recording_outcome : Recording.Ending → Outcome Recording.Fault
recording_outcome Recording.returned = Interface.returned
recording_outcome Recording.waiting = Interface.blocking
recording_outcome (Recording.threw fault) = Interface.threw fault

abbrev pub enumerated : Result Devices.Failure (List AudioDevice) → Option (List AudioDevice)
enumerated (err failure) = none
enumerated (ok devices) = some devices

abbrev pub setup : Host → State → Outcome Reason × State
setup host (b, log, pipe) =
    let (ending, (b', log')) = setup_virtual_input host (b, log) in
    (outcome ending, (b', log', pipe))

abbrev pub run : List Turn → State → Outcome Reason × State
run turns (b, log, pipe) =
    let (ending, (b', pipe')) = run_virtual_input turns (b, pipe) in
    (outcome ending, (b', log, pipe'))

abbrev pub create : Host → List Turn → State → Outcome Reason × State
create host turns s = let (ending, s') = create_virtual_input host turns s in (outcome ending, s')

abbrev pub destroy : Unloading → State → State
destroy unloading (b, log, pipe) =
    let (b', log') = destroy_virtual_input unloading (b, log) in (b', log', pipe)

abbrev pub recorded :
    Recording.Script → AudioDevice → State → Outcome Recording.Fault × List (List ℕ) × State
recorded script dev (b, log, pipe) =
    let (ending, end) =
      Recording.record_device script dev
        (record { backend = b; events = []; read = record { fragments = []; drops = 0 } }) in
    (recording_outcome ending, end.read.fragments, (end.backend, log, pipe))

abbrev pub pulseaudio : AudioBackend
pulseaudio = record {
  State = State;
  Message = Reason;
  Fault = Recording.Fault;
  Listing = Option (List DeviceInfo × ℤ);
  Recording = Recording.Script;
  Setup = Host;
  Run = List Turn;
  Teardown = Unloading;
  get_inputs = λ listing. enumerated (Devices.get_inputs listing);
  get_outputs = λ listing. enumerated (Devices.get_outputs listing);
  record_device = recorded;
  stop_recording = λ s. (stop_recording s.0, s.1, s.2);
  create_virtual_input = create;
  destroy_virtual_input = destroy;
  setup_virtual_input = setup;
  run_virtual_input = run;
  is_virtual_input_ready = λ s. is_virtual_input_ready s.0;
  get_virtual_input_error = λ s. get_virtual_input_error s.0;
}
