-- ===== src/Main/ServerRun/Balanced.antt =====
-- What a run of the server leaves of uvgRTP (src/main.cpp).
use audpipe_cpp.Prelude.{
  if_both, ℕ, String, ◌+◌, ◌≤◌, ◌≡◌, refl, sym, ap, ◌∙◌, ◌⊎◌, inl, inr, Option, none, some, List,
  [], map, Result, ok, err, arith,
}
use audpipe_cpp.Audio.{AudioDevice}
use audpipe_cpp.Rtp
use audpipe_cpp.Rtp.{Rtp, create_sender}
use audpipe_cpp.Rtp.Library.{Uvg, Log}
use audpipe_cpp.Rtp.Sessions.{sessions, failed_sender_leaks, failed_session_balanced}
use audpipe_cpp.Backend.{Backend}
use audpipe_cpp.Backend.Devices
use audpipe_cpp.Backend.Devices.{get_inputs}
use audpipe_cpp.Backend.Recording
use audpipe_cpp.Server.Choose
use audpipe_cpp.Server.Choose.{choose_device_interactive}
use audpipe_cpp.Server.Encode.{Opus, Error}
use audpipe_cpp.Server.Object
use audpipe_cpp.Server.Object.{Server, Failure, capture_all}
use audpipe_cpp.Server.Object.Lifetime.{
  stopped_balanced, destroyed_balanced, created_sender, failed_rtp, failed_encoder_balanced,
  run-rtp,
}
use audpipe_cpp.Main.{Exit, exited, aborted, crashed, waiting}
use audpipe_cpp.Main.ServerRun.{
  Script, after_run, record_all, after_construction, after_choice, after_line, after_listing,
  run_server,
}

module _ (lib : Opus) (u : Uvg) (local remote : String × ℕ) (log : Log) where
  -- What an exit leaves of the sessions.
  abbrev pub IsBalanced : Exit × Log → Type 0
  IsBalanced (exited n, log') =
      (n ≤ 1)
      × ((sessions log' ≡ sessions log)
          ⊎ ((n ≡ 1)
              × (create_sender u local remote log ≡ (err Rtp.stream_failed, log'))
              × (sessions log' ≡ sessions log + 1)))
  IsBalanced (crashed, log') = log' ≡ log
  IsBalanced (aborted, log') = create_sender u local remote log ≡ (err Rtp.assertion, log')
  IsBalanced (waiting, log') = Unit

  module _ (script : Script lib) (backend : Backend) where
    after_run-IsBalanced :
        (device : AudioDevice) (fragments : List (Option (List ℕ))) (ending : Recording.Ending)
        (b : Backend) (s : Server lib) {log' : Log}
        → create_sender u local remote log ≡ (ok s.rtp, log')
        → let (thrown, served, log2) = capture_all lib (s, log') fragments in
          IsBalanced (after_run lib thrown ending (served, b, log2))
    unfolding after_run
    after_run-IsBalanced device fragments ending b s {log'} sender =
        by_cases (capture_all lib (s, log') fragments).0 ending
      where
        by_cases :
            (thrown : Option Error) (ending' : Recording.Ending)
            → let (thrown', served, log2) = capture_all lib (s, log') fragments in
              IsBalanced (after_run lib thrown ending' (served, b, log2))
        by_cases (some e) ending' = (
          omega arith,
          inl (
              destroyed_balanced lib u script.encoder local remote device log fragments b s sender),
        )
        by_cases none (Recording.threw fault) = (
          omega arith,
          inl (
              destroyed_balanced lib u script.encoder local remote device log fragments b s sender),
        )
        by_cases none Recording.waiting = tt
        by_cases none Recording.returned = (
          omega arith,
          inl (stopped_balanced lib u script.encoder local remote device log fragments b s sender),
        )

    record_all-IsBalanced :
        (device : AudioDevice) (s : Server lib) {log' : Log}
        → create_sender u local remote log ≡ (ok s.rtp, log')
        → IsBalanced (record_all lib script.recording backend (s, log'))
    unfolding record_all
    record_all-IsBalanced device s {log'} sender =
        let start : Recording.State = record {
          backend = backend;
          events = [];
          read = record { fragments = []; drops = 0 };
        } in
        let (ending, s', recorder) = Object.run lib script.recording (s, start) in
        after_run-IsBalanced device (map some recorder.read.fragments) ending recorder.backend s'
          (sender ∙ ap (λ rtp. (ok rtp, log')) (sym (run-rtp lib script.recording s start)))

    after_construction-IsBalanced :
        (device : AudioDevice) (made : Result Failure (Server lib) × Log)
        → Object.create lib u script.encoder local remote device log ≡ made
        → IsBalanced (after_construction lib script.recording backend made)
    unfolding after_construction
    after_construction-IsBalanced device (err (Object.rtp_failed Rtp.assertion), log') e =
        failed_rtp lib u script.encoder local remote device log Rtp.assertion e
    after_construction-IsBalanced device (err (Object.rtp_failed Rtp.session_failed), log') e = (
      omega arith,
      inl (
          failed_session_balanced u local remote log
            (failed_rtp lib u script.encoder local remote device log Rtp.session_failed e)),
    )
    after_construction-IsBalanced device (err (Object.rtp_failed Rtp.stream_failed), log') e =
        let failed = failed_rtp lib u script.encoder local remote device log Rtp.stream_failed e in
        (omega arith, inr (refl, failed, failed_sender_leaks u local remote log failed))
    after_construction-IsBalanced device (err Object.encoder_failed, log') e =
        (omega arith, inl (failed_encoder_balanced lib u script.encoder local remote device log e))
    after_construction-IsBalanced device (ok s, log') e =
        record_all-IsBalanced device s
          (created_sender lib u script.encoder local remote device log e)

    after_choice-IsBalanced :
        (choice : Result Choose.Error AudioDevice)
        → IsBalanced (after_choice lib u local remote script backend log choice)
    unfolding after_choice
    after_choice-IsBalanced (err e) = (omega arith, inl refl)
    after_choice-IsBalanced (ok device) =
        after_construction-IsBalanced device
          (Object.create lib u script.encoder local remote device log) refl

    -- A server that ends has destroyed every session that it created, with one exception: when the stream
    -- cannot be created, one session is left and the exit status is 1. The status is 0 or 1. It dies by `assert` only where its
    -- `Rtp` does, and it follows a null pointer only before it has created anything.
    pub run_server-IsBalanced : IsBalanced (run_server lib u local remote script backend log)
    unfolding run_server after_listing after_line
    run_server-IsBalanced =
        if_both IsBalanced script.listing_ends (by_listing (get_inputs script.devices)) tt
      where
        by_line :
            (inputs : List AudioDevice) (line : Option (List ℕ))
            → IsBalanced (after_line lib u local remote script backend log inputs line)
        by_line inputs none = tt
        by_line inputs (some line) = after_choice-IsBalanced (choose_device_interactive inputs line)

        by_listing :
            (listing : Result Devices.Failure (List AudioDevice))
            → IsBalanced (after_listing lib u local remote script backend log listing)
        by_listing (err Devices.no_operation) = (omega arith, inl refl)
        by_listing (err Devices.null_info) = refl
        by_listing (ok inputs) = by_line inputs script.line
