-- ===== src/Main/Signals.antt =====
-- `asio_signal_handler` (src/main.cpp), which the signal thread calls.
use audpipe_cpp.Prelude.{Bool, true}
use audpipe_cpp.Shutdown
use audpipe_cpp.Shutdown.{Shutdown}

pub data SignalError : Type 0 where
  no_error operation_aborted other_error : SignalError

-- The shutdown flag, and whether the context of the signal thread is stopped.
pub record Signals : Type 0 where
  pub flag : Shutdown
  pub io_stopped : Bool

-- An error is at most logged.
unfoldable pub asio_signal_handler : SignalError → Signals → Signals
asio_signal_handler no_error s = record {
  flag = Shutdown.request_shutdown s.flag;
  io_stopped = true;
}
asio_signal_handler operation_aborted s = s
asio_signal_handler other_error s = s
