-- ===== src/Main/ServerRun/Ends.antt =====
-- That a run of the server ends (src/main.cpp).
use audpipe_cpp.Prelude.{
  ℕ, String, if_split, true, ◌≡◌, ◌≢◌, refl, sym, ◌∙◌, Option, none, some, List, [], map, Result,
  ok, err,
}
use audpipe_cpp.Audio.{AudioDevice}
use audpipe_cpp.Rtp
use audpipe_cpp.Rtp.Library.{Uvg, Log}
use audpipe_cpp.Backend.{Backend}
use audpipe_cpp.Backend.Devices
use audpipe_cpp.Backend.Devices.{get_inputs}
use audpipe_cpp.Backend.Recording
use audpipe_cpp.Backend.Recording.Ends.{IsStopped, Settles, record-AllOver}
use audpipe_cpp.Server.Choose
use audpipe_cpp.Server.Choose.{choose_device_interactive}
use audpipe_cpp.Server.Encode.{Opus, Error}
use audpipe_cpp.Server.Object
use audpipe_cpp.Server.Object.{Server, Failure, capture_all}
use audpipe_cpp.Server.Object.Lifetime.{run-ending}
use audpipe_cpp.Main.{Exit, waiting}
use audpipe_cpp.Main.ServerRun.{
  Script, after_run, record_all, after_construction, after_choice, after_line, after_listing,
  run_server,
}

module _ (lib : Opus) (script : Script lib) (settles : Settles script.recording.states)
    (stops : IsStopped script.recording.turns) (listing : script.listing_ends ≡ true)
    (typed : script.line ≢ none) where
  abbrev pub IsDone : Exit × Log → Type 0
  IsDone (exit, log) = exit ≢ waiting

  after_run-IsDone :
      (thrown : Option Error) (ending : Recording.Ending) (state : Server lib × Backend × Log)
      → ending ≢ Recording.waiting
      → IsDone (after_run lib thrown ending state)
  unfolding after_run
  after_run-IsDone (some e) ending state over = λ h. cc
  after_run-IsDone none (Recording.threw fault) state over = λ h. cc
  after_run-IsDone none Recording.waiting state over = absurd (over refl)
  after_run-IsDone none Recording.returned state over = λ h. cc

  record_all-IsDone :
      (backend : Backend) (s : Server lib) (log : Log)
      → IsDone (record_all lib script.recording backend (s, log))
  unfolding record_all
  record_all-IsDone backend s log =
      let start : Recording.State = record {
        backend = backend;
        events = [];
        read = record { fragments = []; drops = 0 };
      } in
      let (ending, s', recorder) = Object.run lib script.recording (s, start) in
      let (thrown, served, log') = capture_all lib (s', log) (map some recorder.read.fragments) in
      after_run-IsDone thrown ending (served, recorder.backend, log')
        (λ h.
          record-AllOver script.recording settles stops s.capture.device start
            (sym (run-ending lib script.recording s start) ∙ h))

  after_construction-IsDone :
      (backend : Backend) (made : Result Failure (Server lib) × Log)
      → IsDone (after_construction lib script.recording backend made)
  unfolding after_construction
  after_construction-IsDone backend (err (Object.rtp_failed Rtp.assertion), log) = λ h. cc
  after_construction-IsDone backend (err (Object.rtp_failed Rtp.session_failed), log) = λ h. cc
  after_construction-IsDone backend (err (Object.rtp_failed Rtp.stream_failed), log) = λ h. cc
  after_construction-IsDone backend (err Object.encoder_failed, log) = λ h. cc
  after_construction-IsDone backend (ok s, log) = record_all-IsDone backend s log

  module _ (u : Uvg) (local remote : String × ℕ) (backend : Backend) (log : Log) where
    after_choice-IsDone :
        (choice : Result Choose.Error AudioDevice)
        → IsDone (after_choice lib u local remote script backend log choice)
    unfolding after_choice
    after_choice-IsDone (err e) = λ h. cc
    after_choice-IsDone (ok device) =
        after_construction-IsDone backend
          (Object.create lib u script.encoder local remote device log)

    after_line-IsDone :
        (inputs : List AudioDevice) (line : Option (List ℕ))
        → line ≢ none
        → IsDone (after_line lib u local remote script backend log inputs line)
    unfolding after_line
    after_line-IsDone inputs none there = absurd (there refl)
    after_line-IsDone inputs (some line) there =
        after_choice-IsDone (choose_device_interactive inputs line)

    -- A server whose listing ends, whose line is typed, whose stream settles and whose recording is
    -- stopped does not wait on.
    pub run_server-IsDone : IsDone (run_server lib u local remote script backend log)
    unfolding run_server after_listing
    run_server-IsDone =
        if_split IsDone script.listing_ends (λ ends. by_listing (get_inputs script.devices))
          (λ still. cc)
      where
        by_listing :
            (listing : Result Devices.Failure (List AudioDevice))
            → IsDone (after_listing lib u local remote script backend log listing)
        by_listing (err Devices.no_operation) = λ h. cc
        by_listing (err Devices.null_info) = λ h. cc
        by_listing (ok inputs) = after_line-IsDone inputs script.line typed
