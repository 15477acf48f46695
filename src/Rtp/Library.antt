-- ===== src/Rtp/Library.antt =====
-- The calls of uvgRTP that src/rtp.cpp makes, and what they return.
use audpipe_cpp.Prelude.{ℕ, String, Bool, Option, List}

-- The `RCE_` flags that the code sets.
pub data Flag : Type 0 where
  rtcp system_call_clustering send_only receive_only : Flag

-- Sessions and streams are pointers, `none` for null.
pub data Event : Type 0 where
  session_created : String → String → Option ℕ → Event
  stream_created : ℕ → ℕ → ℕ → List Flag → Option ℕ → Event
  hook_installed : ℕ → Option ℕ → ℕ → Event
  frame_pushed : ℕ → List ℕ → Event
  stream_destroyed : ℕ → ℕ → Event
  session_destroyed : ℕ → Event

abbrev pub Log : Type 0
Log = List Event

pub record Uvg : Type 0 where
  pub crypto_enabled : Bool
  pub new_session : Log → Option ℕ
  pub new_stream : Log → Option ℕ
