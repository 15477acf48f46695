-- ===== src/Main/ServerRun.antt =====
-- The server's part of `main` (src/main.cpp).
pub mod Balanced
pub mod Ends
pub mod Handles
use audpipe_cpp.Prelude.{
  ℕ, String, Bool, if◌then◌else◌, Option, none, some, List, [], map, ℤ, Result, ok, err,
}
use audpipe_cpp.Audio.{AudioDevice}
use audpipe_cpp.Rtp
use audpipe_cpp.Rtp.{Rtp}
use audpipe_cpp.Rtp.Library.{Uvg, Log}
use audpipe_cpp.Backend.Devices
use audpipe_cpp.Backend.Devices.{DeviceInfo, get_inputs}
use audpipe_cpp.Backend.Recording
use audpipe_cpp.Server.Choose
use audpipe_cpp.Server.Choose.{choose_device_interactive}
use audpipe_cpp.Server.Encode.{Opus, Error}
use audpipe_cpp.Backend.{Backend}
use audpipe_cpp.Server.Object
use audpipe_cpp.Server.Object.{Server, Failure, capture_all}
use audpipe_cpp.Main.{Exit, exited, aborted, crashed, waiting}

module _ (lib : Opus) where
  -- What a server meets: the listing of the devices, whether the wait for it ends, the line that is typed
  -- (`none`: the read still waits), whether there is an encoder, and its recording.
  pub record Script : Type 0 where
    pub devices : Option (List DeviceInfo × ℤ)
    pub listing_ends : Bool
    pub line : Option (List ℕ)
    pub encoder : Option lib.Encoder
    pub recording : Recording.Script

  -- What follows `server.run()`: an exception destroys the server and is caught by `main`, which then
  -- exits with 1; or the server is stopped and then destroyed.
  unfoldable pub after_run :
      Option Error → Recording.Ending → Server lib × Backend × Log → Exit × Log
  after_run (some e) ending state = (exited 1, (Object.destroy lib state).1)
  after_run none (Recording.threw fault) state = (exited 1, (Object.destroy lib state).1)
  after_run none Recording.waiting (s, b, log) = (waiting, log)
  after_run none Recording.returned state =
      (exited 0, (Object.destroy lib (Object.stop lib state)).1)

  -- The fragments that were recorded, taken by the data callback.
  unfoldable pub record_all : Recording.Script → Backend → Server lib × Log → Exit × Log
  record_all recording backend (s, log) =
      let (ending, s', recorder) = Object.run lib recording (
        s,
        record { backend = backend; events = []; read = record { fragments = []; drops = 0 } },
      ) in
      let (thrown, served, log') = capture_all lib (s', log) (map some recorder.read.fragments) in
      after_run thrown ending (served, recorder.backend, log')

  unfoldable pub after_construction :
      Recording.Script → Backend → Result Failure (Server lib) × Log → Exit × Log
  after_construction recording backend (err (Object.rtp_failed Rtp.assertion), log) = (aborted, log)
  after_construction recording backend (err (Object.rtp_failed Rtp.session_failed), log) =
      (exited 1, log)
  after_construction recording backend (err (Object.rtp_failed Rtp.stream_failed), log) =
      (exited 1, log)
  after_construction recording backend (err Object.encoder_failed, log) = (exited 1, log)
  after_construction recording backend (ok s, log) = record_all recording backend (s, log)

  module _ (u : Uvg) (local remote : String × ℕ) (script : Script) (backend : Backend)
      (log : Log) where
    unfoldable pub after_choice : Result Choose.Error AudioDevice → Exit × Log
    after_choice (err e) = (exited 1, log)
    after_choice (ok device) =
        after_construction script.recording backend
          (Object.create lib u script.encoder local remote device log)

    unfoldable pub after_line : List AudioDevice → Option (List ℕ) → Exit × Log
    after_line inputs none = (waiting, log)
    after_line inputs (some line) = after_choice (choose_device_interactive inputs line)

    unfoldable pub after_listing : Result Devices.Failure (List AudioDevice) → Exit × Log
    after_listing (err Devices.no_operation) = (exited 1, log)
    after_listing (err Devices.null_info) = (crashed, log)
    after_listing (ok inputs) = after_line inputs script.line

    unfoldable pub run_server : Exit × Log
    run_server =
        if script.listing_ends then after_listing (get_inputs script.devices) else (waiting, log)
