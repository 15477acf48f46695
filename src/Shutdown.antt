-- ===== src/Shutdown.antt =====
-- include/shutdown.hxx and src/shutdown.cpp: one process-wide flag, set and never cleared.
use audpipe_cpp.Prelude.{Bool, true, false}

-- `shutdown_requested`
pub record Shutdown : Type 0 where
  pub shutdown_requested : Bool

pub initial : Shutdown
initial = record { shutdown_requested = false }

pub request_shutdown : Shutdown → Shutdown
request_shutdown s = record s { shutdown_requested = true }

pub is_shutdown_requested : Shutdown → Bool
is_shutdown_requested s = s.shutdown_requested
