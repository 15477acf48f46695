-- ===== src/Backend/VirtualInput.antt =====
-- The virtual input: its FIFO, the module that reads it, and the file descriptor that writes it
-- (src/audio/pulseaudio_backend.cpp).
pub mod Setup
pub mod Teardown
pub mod Reuse
pub mod Forgotten
mod Tests
use audpipe_cpp.Prelude.{
  ℕ, Bool, true, false, not, ◌==◌, ◌&&◌, ◌||◌, if◌then◌else◌, Option, none, some, List, [], ◌∷◌,
}
use audpipe_cpp.Backend.{
  Backend, Reason, fifo_not_created, no_operation, module_not_loaded, shutdown_requested,
  fifo_not_opened, invalid_index, is_some, set_virtual_input_error,
}
use audpipe_cpp.Backend.Modules.{ModuleInfo, cleanup_stale_virtual_sources}

-- `pa_context_unload_module`: no operation, or one that ends with a failure or with the module unloaded.
pub data Unloading : Type 0 where
  no_unload unload_failed unload_done : Unloading

abbrev pub is_created : Unloading → Bool
is_created no_unload = false
is_created unload_failed = true
is_created unload_done = true

-- What the backend does to the FIFO and asks of the audio server.
pub data Effect : Type 0 where
  unload_asked : ℕ → Unloading → Effect
  load_answered : ℕ → Effect
  fifo_unlinked fifo_created : Effect
  fifo_opened fifo_closed : ℕ → Effect

-- Newest first.
abbrev pub Effects : Type 0
Effects = List Effect

-- `open`: a descriptor, ENXIO or EINTR, or any other error.
pub data Opening : Type 0 where
  opened : ℕ → Opening
  no_reader failed : Opening

-- One round of the loop that opens the FIFO: what `open` gives, what the shutdown flag is then,
-- and how an unload that this round asks for ends.
pub record Attempt : Type 0 where
  pub opening : Opening
  pub shutdown : Bool
  pub rollback : Unloading

-- `pa_context_load_module`: no operation, one that runs on, one that ends with no call of the callback,
-- or an index.
pub data Loading : Type 0 where
  no_load still_loading no_answer : Loading
  answered : ℕ → Loading

-- What a setup meets; `stale` tells how the unloading of a stale module ends, by its index. Each unload
-- operation ends.
pub record Host : Type 0 where
  pub modules : Option (List ModuleInfo)
  pub stale : ℕ → Unloading
  pub made : Bool
  pub loading : Loading
  pub attempts : List Attempt

-- A call returns, throws, or still waits when the attempts are over.
pub data Ending : Type 0 where
  returned waiting : Ending
  threw : Reason → Ending

abbrev pub State : Type 0
State = Backend × Effects

-- `die`
unfoldable pub die : Reason → State → Ending × State
die reason (b, log) = (threw reason, (set_virtual_input_error reason b, log))

-- The unloading of the module that was just loaded, whose result is not read; then the FIFO is
-- unlinked.
unfoldable pub roll_back : Unloading → Reason → State → Ending × State
roll_back unloading reason (b, log) =
    die reason (b, fifo_unlinked ∷ unload_asked b.virtual_source_mod_idx unloading ∷ log)

unfoldable pub load_done : State → Ending × State
load_done (b, log) = (returned, (record b { virtual_source_loaded = true }, log))

-- A round of the loop that opens the FIFO; `later` is what the next rounds give.
unfoldable pub try_open :
    Opening → (shutdown : Bool) → Unloading → (later : Ending × State) → State → Ending × State
try_open (opened fd) shutdown rollback later (b, log) =
    load_done (record b { virtual_source_fd = some fd }, fifo_opened fd ∷ log)
try_open no_reader true rollback later state = roll_back rollback shutdown_requested state
try_open no_reader false rollback later state = later
try_open failed true rollback later state = roll_back rollback shutdown_requested state
try_open failed false rollback later state = roll_back rollback fifo_not_opened state

-- The loop, which ends the setup.
unfoldable pub open_fifo : List Attempt → State → Ending × State
open_fifo [] state = if is_some state.0.virtual_source_fd then load_done state else (waiting, state)
open_fifo (a ∷ rest) state =
    let later = open_fifo rest state in
    if is_some state.0.virtual_source_fd
    then load_done state
    else try_open a.opening a.shutdown a.rollback later state

-- `pa_load_module_cb`
unfoldable pub pa_load_module_cb : ℕ → Backend → Backend
pa_load_module_cb idx b = record b { virtual_source_mod_idx = idx }

-- What follows the loading of the module.
unfoldable pub after_load : List Attempt → State → Ending × State
after_load attempts (b, log) =
    if b.virtual_source_mod_idx == invalid_index
    then die module_not_loaded (b, fifo_unlinked ∷ log)
    else open_fifo attempts (b, log)

unfoldable pub load_module : Loading → List Attempt → State → Ending × State
load_module no_load attempts (b, log) = die no_operation (b, fifo_unlinked ∷ log)
load_module still_loading attempts (b, log) = (waiting, (b, log))
load_module no_answer attempts (b, log) = after_load attempts (b, log)
load_module (answered idx) attempts (b, log) =
    after_load attempts (pa_load_module_cb idx b, load_answered idx ∷ log)

-- The unloading of the stale modules, one after the other.
unfoldable pub ask_all : (ℕ → Unloading) → List ℕ → Effects → Effects
ask_all stale [] log = log
ask_all stale (idx ∷ rest) log = ask_all stale rest (unload_asked idx (stale idx) ∷ log)

-- `PulseaudioBackend::setup_virtual_input`
unfoldable pub setup_virtual_input : Host → State → Ending × State
setup_virtual_input host (b, log) =
    if b.virtual_source_loaded
    then (returned, (b, log))
    else let cleaned = ask_all host.stale (cleanup_stale_virtual_sources host.modules) log in
      let cleared = record b { virtual_input_error = none } in
      if host.made
      then load_module host.loading host.attempts (cleared, fifo_created ∷ fifo_unlinked ∷ cleaned)
      else die fifo_not_created (cleared, fifo_unlinked ∷ cleaned)

unfoldable pub close_fifo : State → State
close_fifo (b, log) = elim b.virtual_source_fd [
  | none ↦ (b, log)
  | some fd ↦ (record b { virtual_source_fd = none }, fifo_closed fd ∷ log)
]

abbrev pub unloaded : Backend → Backend
unloaded b = record b { virtual_source_loaded = false; virtual_source_mod_idx = invalid_index }

-- What follows the closing. Whether an unload operation is created decides what is reset; whether
-- it succeeds is only logged.
unfoldable pub unload_module : Unloading → State → State
unload_module unloading (b, log) =
    if not b.virtual_source_loaded || b.virtual_source_mod_idx == invalid_index
    then (b, fifo_unlinked ∷ log)
    else let asked = fifo_unlinked ∷ unload_asked b.virtual_source_mod_idx unloading ∷ log in
      if is_created unloading
      then (record (unloaded b) { virtual_input_error = none }, asked)
      else (unloaded b, asked)

-- `PulseaudioBackend::destroy_virtual_input`
unfoldable pub destroy_virtual_input : Unloading → State → State
destroy_virtual_input unloading state = unload_module unloading (close_fifo state)
