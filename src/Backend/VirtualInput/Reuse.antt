-- ===== src/Backend/VirtualInput/Reuse.antt =====
-- A second setup of the virtual input, behind one that failed (src/audio/pulseaudio_backend.cpp).
use audpipe_cpp.Prelude.{ℕ, true, false, some, List, ◌∷◌}
use audpipe_cpp.Backend.{Backend}
use audpipe_cpp.Backend.Modules.{ModuleInfo}
use audpipe_cpp.Backend.VirtualInput.{
  Unloading, unload_done, failed, Attempt, no_answer, answered, Host,
}

-- A setup whose load operation ends without an answer.
abbrev pub unanswered : (ℕ → Unloading) → List ModuleInfo → List Attempt → Host
unanswered stale modules attempts = record {
  modules = some modules;
  stale = stale;
  made = true;
  loading = no_answer;
  attempts = attempts;
}

-- A setup whose module is loaded and whose FIFO then cannot be opened.
abbrev pub unopened : (ℕ → Unloading) → ℕ → List ModuleInfo → List Attempt → Host
unopened stale idx modules attempts = record {
  modules = some modules;
  stale = stale;
  made = true;
  loading = answered idx;
  attempts = record { opening = failed; shutdown = false; rollback = unload_done } ∷ attempts;
}
