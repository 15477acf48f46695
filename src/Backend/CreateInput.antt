-- ===== src/Backend/CreateInput.antt =====
-- `PulseaudioBackend::create_virtual_input` (src/audio/pulseaudio_backend.cpp), which the client's thread
-- runs.
pub mod Lifecycle
mod Tests
use audpipe_cpp.Prelude.{ℕ, List}
use audpipe_cpp.Backend.{Backend}
use audpipe_cpp.Backend.VirtualInput
use audpipe_cpp.Backend.VirtualInput.{
  Host, Effects, Ending, returned, waiting, threw, setup_virtual_input,
}
use audpipe_cpp.Backend.WriteLoop.{Turn, run_virtual_input}

-- The backend, what it did, and the bytes in the FIFO.
abbrev pub State : Type 0
State = Backend × Effects × List ℕ

-- What follows the setup.
unfoldable pub after_setup : List Turn → Ending × VirtualInput.State → List ℕ → Ending × State
after_setup turns (threw reason, (b, log)) pipe = (threw reason, (b, log, pipe))
after_setup turns (waiting, (b, log)) pipe = (waiting, (b, log, pipe))
after_setup turns (returned, (b, log)) pipe =
    let (ending, (b', pipe')) = run_virtual_input turns (b, pipe) in (ending, (b', log, pipe'))

unfoldable pub create_virtual_input : Host → List Turn → State → Ending × State
create_virtual_input host turns (b, log, pipe) =
    after_setup turns (setup_virtual_input host (b, log)) pipe
