-- ===== src/Backend/Interface/Lawful.antt =====
-- That `PulseaudioBackend` keeps what `AudioBackend` promises (src/audio/pulseaudio_backend.cpp and
-- include/audio.hxx).
use audpipe_cpp.Prelude.{◌≡◌, ◌≢◌, false, none}
use audpipe_cpp.Backend.{Backend}
use audpipe_cpp.Backend.VirtualInput.{Host, Unloading, unload_done, no_answer}
use audpipe_cpp.Backend.VirtualInput.Setup.{fifo_exists, module_pending, AllEnd}
use audpipe_cpp.Backend.VirtualInput.Teardown.{IsKnown}
use audpipe_cpp.Backend.CreateInput.{State}

-- No FIFO, module or descriptor is left; no module was loaded, or the backend knows which; a load
-- operation ends with an answer, and an unload that is asked for unloads the module.
abbrev pub NothingLeft : State → Type 0
NothingLeft (b, log, pipe) =
    (b.virtual_source_loaded ≡ false)
    × (b.virtual_source_fd ≡ none)
    × (fifo_exists log ≡ false)
    × (module_pending log ≡ false)

abbrev pub ModuleKnown : State → Type 0
ModuleKnown (b, log, pipe) = IsKnown (b, log)

abbrev pub IsAnswered : Host → Type 0
IsAnswered host = (host.loading ≢ no_answer) × AllEnd host

abbrev pub IsUnloading : Unloading → Type 0
IsUnloading unloading = unloading ≡ unload_done
