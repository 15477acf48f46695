-- ===== src/Backend.antt =====
-- include/audio/pulseaudio_backend.hxx and src/audio/pulseaudio_backend.cpp: the state of the audio
-- backend, a singleton that the client and the server share.
pub mod Modules
pub mod VirtualInput
pub mod WriteLoop
pub mod Recording
pub mod Devices
pub mod Context
pub mod CreateInput
pub mod StreamWrite
pub mod Interface
use audpipe_cpp.Prelude.{ℕ, Bool, true, false, not, ◌&&◌, Option, none, some, ◌-◌, ◌^◌}

-- Why the virtual input failed: the texts of `virtual_input_error`.
pub data Reason : Type 0 where
  fifo_not_created no_operation module_not_loaded shutdown_requested fifo_not_opened : Reason
  not_ready callback_threw reader_disconnected write_failed : Reason

-- `PA_INVALID_INDEX`
abbrev pub invalid_index : ℕ
invalid_index = 2 ^ 32 - 1

-- A stream and a file descriptor are `none` where the code has null and -1, an error text where it
-- is empty.
pub record Backend : Type 0 where
  pub stream : Option ℕ
  pub recording : Bool
  pub playback : Bool
  pub virtual_source_loaded : Bool
  pub virtual_input_error : Option Reason
  pub virtual_source_mod_idx : ℕ
  pub virtual_source_fd : Option ℕ

-- The member initialisers.
abbrev pub initial : Backend
initial = record {
  stream = none;
  recording = false;
  playback = false;
  virtual_source_loaded = false;
  virtual_input_error = none;
  virtual_source_mod_idx = invalid_index;
  virtual_source_fd = none;
}

unfoldable pub stop_recording : Backend → Backend
stop_recording b = record b { recording = false; playback = false }

abbrev pub is_some {ℓ} : {A : Type ℓ} → Option A → Bool
is_some none = false
is_some (some a) = true

unfoldable pub is_virtual_input_ready : Backend → Bool
is_virtual_input_ready b =
    b.virtual_source_loaded && is_some b.virtual_source_fd && not (is_some b.virtual_input_error)

unfoldable pub set_virtual_input_error : Reason → Backend → Backend
set_virtual_input_error reason b = record b { playback = false; virtual_input_error = some reason }
