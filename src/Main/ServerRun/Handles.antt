-- ===== src/Main/ServerRun/Handles.antt =====
-- The pointers that a run of the server gives to uvgRTP (src/main.cpp).
use audpipe_cpp.Prelude.{ℕ, String, sym, subst, Option, none, some, List, [], map, Result, ok, err}
use audpipe_cpp.Rtp
use audpipe_cpp.Rtp.{Callback}
use audpipe_cpp.Rtp.Library.{Uvg, Log}
use audpipe_cpp.Rtp.Handles.{IsSafe, IsUsable, IsUsable-IsSafe}
use audpipe_cpp.Audio.{AudioDevice}
use audpipe_cpp.Backend.{Backend}
use audpipe_cpp.Backend.Devices
use audpipe_cpp.Backend.Devices.{get_inputs}
use audpipe_cpp.Backend.Recording
use audpipe_cpp.Server.Choose
use audpipe_cpp.Server.Choose.{choose_device_interactive}
use audpipe_cpp.Server.Encode
use audpipe_cpp.Server.Encode.{Error}
use audpipe_cpp.Server.Object
use audpipe_cpp.Server.Object.{Server, Failure, capture_all}
use audpipe_cpp.Server.Object.Handles.{
  ServerLeaves, create-ServerLeaves, capture_all-IsUsable, stop-IsUsable_server, destroy-IsSafe,
}
use audpipe_cpp.Server.Object.Lifetime.{run-rtp}
use audpipe_cpp.Main.ServerRun

module _ (lib : Encode.Opus) where
  after_run-IsSafe :
      (thrown : Option Error) (ending : Recording.Ending) (s : Server lib) (b : Backend) (log : Log)
      → IsUsable s.rtp log
      → IsSafe (ServerRun.after_run lib thrown ending (s, b, log)).1
  unfolding ServerRun.after_run
  after_run-IsSafe (some e) ending s b log v = destroy-IsSafe lib s b log v
  after_run-IsSafe none (Recording.threw fault) s b log v = destroy-IsSafe lib s b log v
  after_run-IsSafe none Recording.waiting s b log v = IsUsable-IsSafe s.rtp log v
  after_run-IsSafe none Recording.returned s b log v =
      let (s', b', log') = Object.stop lib (s, b, log) in
      destroy-IsSafe lib s' b' log' (stop-IsUsable_server lib s b log v)

  record_all-IsSafe :
      (recording : Recording.Script) (backend : Backend) (s : Server lib) (log : Log)
      → IsUsable s.rtp log
      → IsSafe (ServerRun.record_all lib recording backend (s, log)).1
  unfolding ServerRun.record_all
  record_all-IsSafe recording backend s log v =
      let start : Recording.State = record {
        backend = backend;
        events = [];
        read = record { fragments = []; drops = 0 };
      } in
      let (ending, s', recorder) = Object.run lib recording (s, start) in
      let fragments = map some recorder.read.fragments in
      let (thrown, served, log') = capture_all lib (s', log) fragments in
      after_run-IsSafe thrown ending served recorder.backend log' (
        capture_all-IsUsable lib s' log fragments
          (subst (λ rtp. IsUsable rtp log) (sym (run-rtp lib recording s start)) v))

  server-IsSafe :
      (recording : Recording.Script) (backend : Backend) (made : Result Failure (Server lib) × Log)
      → ServerLeaves lib made
      → IsSafe (ServerRun.after_construction lib recording backend made).1
  unfolding ServerRun.after_construction
  server-IsSafe recording backend (err (Object.rtp_failed Rtp.assertion), log) safe = safe
  server-IsSafe recording backend (err (Object.rtp_failed Rtp.session_failed), log) safe = safe
  server-IsSafe recording backend (err (Object.rtp_failed Rtp.stream_failed), log) safe = safe
  server-IsSafe recording backend (err Object.encoder_failed, log) safe = safe
  server-IsSafe recording backend (ok s, log) v = record_all-IsSafe recording backend s log v

  module _ (u : Uvg) (local remote : String × ℕ) (script : ServerRun.Script lib) (backend : Backend)
      (log : Log) (safe : IsSafe log) where
    choice-IsSafe :
        (choice : Result Choose.Error AudioDevice)
        → IsSafe (ServerRun.after_choice lib u local remote script backend log choice).1
    unfolding ServerRun.after_choice
    choice-IsSafe (err e) = safe
    choice-IsSafe (ok device) =
        server-IsSafe script.recording backend
          (Object.create lib u script.encoder local remote device log)
          (create-ServerLeaves lib u script.encoder local remote device log safe)

    line-IsSafe :
        (inputs : List AudioDevice) (line : Option (List ℕ))
        → IsSafe (ServerRun.after_line lib u local remote script backend log inputs line).1
    unfolding ServerRun.after_line
    line-IsSafe inputs none = safe
    line-IsSafe inputs (some line) = choice-IsSafe (choose_device_interactive inputs line)

    pub listing-IsSafe :
        (listing : Result Devices.Failure (List AudioDevice))
        → IsSafe (ServerRun.after_listing lib u local remote script backend log listing).1
    unfolding ServerRun.after_listing
    listing-IsSafe (err Devices.no_operation) = safe
    listing-IsSafe (err Devices.null_info) = safe
    listing-IsSafe (ok inputs) = line-IsSafe inputs script.line
