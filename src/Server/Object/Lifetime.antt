-- ===== src/Server/Object/Lifetime.antt =====
-- What a server leaves of uvgRTP when it ends (src/server.cpp).
use audpipe_cpp.Prelude.{
  ℕ, String, ◌≡◌, refl, sym, ap, ◌∙◌, Bool-cases, inl, inr, Option, none, some, List, [], ◌∷◌, ◌++◌,
  ok, err, Result, ◌>>=◌, if◌then◌else◌, ◌==◌, take, arith,
}
use audpipe_cpp.Audio.{AudioDevice}
use audpipe_cpp.Backend.{Backend}
use audpipe_cpp.Rtp
use audpipe_cpp.Rtp.{Rtp, create_sender, Call, writes, stops, step, run, write_frames}
use audpipe_cpp.Rtp.Library.{Uvg, Log}
use audpipe_cpp.Rtp.Sessions.{sessions, sender_balanced}
use audpipe_cpp.Server.Encode.{Opus, Capture, Thrown, bytes_to_opus, data_callback}
use audpipe_cpp.Backend.Recording
use audpipe_cpp.Server.Object
use audpipe_cpp.Server.Object.{
  Server, rtp_failed, encoder_failed, set_up, after_sender, create, stop, destroy, Captured,
  carry_on, capture_all,
}

run-append :
    (state : Rtp × Log) (first second : List Call)
    → run state (first ++ second) ≡ run (run state first) second
unfolding run
run-append state [] second = refl
run-append state (c ∷ first) second = run-append (step state c) first second

module _ (lib : Opus) where
  -- What a call of the encoder makes the server write: nothing, or one frame.
  abbrev frames_of : Capture lib → List Call
  frames_of c =
      if c.opus_enc_outbuf_size == 0
      then []
      else writes (take c.opus_enc_outbuf_size c.opus_enc_outbuf) ∷ []

  send : Rtp → Log → Capture lib → Result (Thrown lib) (Capture lib × Log)
  send rtp log c = ok (
    c,
    if c.opus_enc_outbuf_size == 0
        then log
        else write_frames rtp (take c.opus_enc_outbuf_size c.opus_enc_outbuf) log,
  )

  abbrev pub IsKept : Server lib → Log → Captured lib → List Call → Type 0
  IsKept s log (thrown, s', log') cs = (s'.rtp ≡ s.rtp) × (run (s.rtp, log) cs ≡ (s.rtp, log'))

  abbrev next_log : Rtp → Log → Capture lib → Log
  next_log rtp log c =
      if c.opus_enc_outbuf_size == 0
      then log
      else write_frames rtp (take c.opus_enc_outbuf_size c.opus_enc_outbuf) log

  frames_of-run :
      (rtp : Rtp) (log : Log) (c : Capture lib)
      → run (rtp, log) (frames_of c) ≡ (rtp, next_log rtp log c)
  unfolding run step
  frames_of-run rtp log c = elim (Bool-cases (c.opus_enc_outbuf_size == 0)) [
    | inl no_frame ↦ rw no_frame refl
    | inr frame ↦ rw frame refl
  ]

  carry_on-run :
      (rest : List (Option (List ℕ))) (s : Server lib) (log : Log)
      (r : Result (Thrown lib) (Capture lib))
      → ((s' : Server lib) (log' : Log)
          → (cs : List Call) × IsKept s' log' (capture_all lib (s', log') rest) cs)
      → (cs : List Call) × IsKept s log
          (carry_on lib (λ state. capture_all lib state rest) s log (r >>= send s.rtp log))
          cs
  unfolding send run
  carry_on-run rest s log (err e) later = ([], (refl, refl))
  carry_on-run rest s log (ok c) later =
      let log' = next_log s.rtp log c in
      let (cs, (same, wrote)) = later (record s { capture = c }) log' in
      (
        frames_of c ++ cs,
        (
          same,
          run-append (s.rtp, log) (frames_of c) cs
              ∙ ap (λ state. run state cs) (frames_of-run s.rtp log c)
              ∙ wrote,
        ),
      )

  -- Whatever fragments come, the server only writes frames.
  pub capture_all-run :
      (s : Server lib) (log : Log) (fragments : List (Option (List ℕ)))
      → (cs : List Call) × IsKept s log (capture_all lib (s, log) fragments) cs
  unfolding capture_all run data_callback send
  capture_all-run s log [] = ([], (refl, refl))
  capture_all-run s log (bytes ∷ rest) =
      carry_on-run rest s log (bytes_to_opus lib bytes s.capture)
        (λ s' log'. capture_all-run s' log' rest)

  -- A run leaves the `Rtp` member as it is.
  pub run-rtp :
      (recording : Recording.Script) (s : Server lib) (recorder : Recording.State)
      → (Object.run lib recording (s, recorder)).1.rtp ≡ s.rtp
  unfolding Object.run
  run-rtp recording s recorder =
      by_ending (Recording.record_device recording s.capture.device recorder).0
    where
      by_ending : (ending : Recording.Ending) → (Object.stop_running lib ending s).rtp ≡ s.rtp
      by_ending Recording.waiting = refl
      by_ending Recording.returned = refl
      by_ending (Recording.threw fault) = refl

  pub run-ending :
      (recording : Recording.Script) (s : Server lib) (recorder : Recording.State)
      → (Object.run lib recording (s, recorder)).0
        ≡ (Recording.record_device recording s.capture.device recorder).0
  unfolding Object.run
  run-ending recording s recorder = refl

  module _ (u : Uvg) (encoder : Option lib.Encoder) (local remote : String × ℕ)
      (device : AudioDevice) (log : Log) where
    after_sender-ok :
        (found : Option lib.Encoder) (made : Result Rtp.Error Rtp × Log) (s : Server lib)
        (log' : Log)
        → after_sender lib device found made ≡ (ok s, log')
        → made ≡ (ok s.rtp, log')
    unfolding set_up
    after_sender-ok found (err e, made_log) s log' h = ground arith
    after_sender-ok none (ok rtp, made_log) s log' h = ground arith
    after_sender-ok (some opusenc) (ok rtp, made_log) s log' h = ground arith

    -- The calls that a server makes of its `Rtp`, then those of its end, and then the destructor.
    ended_balanced :
        (fragments : List (Option (List ℕ))) (end : List Call) (s : Server lib) {log' : Log}
        → create_sender u local remote log ≡ (ok s.rtp, log')
        → let (thrown, served, log2) = capture_all lib (s, log') fragments in
          let (rtp, log3) = run (served.rtp, log2) end in
          sessions (Rtp.stop rtp log3).1 ≡ sessions log
    ended_balanced fragments end s {log'} sender =
        let (cs, (same, wrote)) = capture_all-run s log' fragments in
        let after = (capture_all lib (s, log') fragments).2 in
        let ended =
          run-append (s.rtp, log') cs end
          ∙ ap (λ state. run state end) (wrote ∙ ap (λ rtp. (rtp, after)) (sym same)) in
        ap (λ state. sessions (Rtp.stop state.0 state.1).1) (sym ended)
        ∙ sender_balanced u local remote log (cs ++ end) sender

    pub stopped_balanced :
        (fragments : List (Option (List ℕ))) (b : Backend) (s : Server lib) {log' : Log}
        → create_sender u local remote log ≡ (ok s.rtp, log')
        → let (thrown, served, log2) = capture_all lib (s, log') fragments in
          sessions (destroy lib (stop lib (served, b, log2))).1 ≡ sessions log
    unfolding stop destroy run step
    stopped_balanced fragments b s sender = ended_balanced fragments (stops ∷ stops ∷ []) s sender

    pub destroyed_balanced :
        (fragments : List (Option (List ℕ))) (b : Backend) (s : Server lib) {log' : Log}
        → create_sender u local remote log ≡ (ok s.rtp, log')
        → let (thrown, served, log2) = capture_all lib (s, log') fragments in
          sessions (destroy lib (served, b, log2)).1 ≡ sessions log
    unfolding stop destroy run step
    destroyed_balanced fragments b s sender = ended_balanced fragments (stops ∷ []) s sender

    pub created_sender :
        {s : Server lib} {log' : Log}
        → create lib u encoder local remote device log ≡ (ok s, log')
        → create_sender u local remote log ≡ (ok s.rtp, log')
    unfolding create
    created_sender {s} {log'} made =
        after_sender-ok encoder (create_sender u local remote log) s log' made

    -- When the `Rtp` cannot be created, only the session of a stream that failed is left.
    after_sender-rtp :
        (found : Option lib.Encoder) (made : Result Rtp.Error Rtp × Log) (e : Rtp.Error)
        (log' : Log)
        → after_sender lib device found made ≡ (err (rtp_failed e), log')
        → made ≡ (err e, log')
    unfolding set_up
    after_sender-rtp found (err e', made_log) e log' h = ground arith
    after_sender-rtp none (ok rtp, made_log) e log' h = ground arith
    after_sender-rtp (some opusenc) (ok rtp, made_log) e log' h = ground arith

    pub failed_rtp :
        (e : Rtp.Error) {log' : Log}
        → create lib u encoder local remote device log ≡ (err (rtp_failed e), log')
        → create_sender u local remote log ≡ (err e, log')
    unfolding create
    failed_rtp e {log'} h = after_sender-rtp encoder (create_sender u local remote log) e log' h

    after_sender-failed :
        (found : Option lib.Encoder) (made : Result Rtp.Error Rtp × Log) (log' : Log)
        → after_sender lib device found made ≡ (err encoder_failed, log')
        → (rtp : Rtp) × (before : Log) × (made ≡ (ok rtp, before))
          × ((Rtp.stop rtp before).1 ≡ log')
    unfolding set_up
    after_sender-failed found (err e, made_log) log' h = ground arith
    after_sender-failed none (ok rtp, made_log) log' h = (rtp, made_log, refl, ap (λ r. r.1) h)
    after_sender-failed (some opusenc) (ok rtp, made_log) log' h = ground arith

    -- When the encoder cannot be created, the constructor throws and leaves as many sessions as there
    -- were before.
    pub failed_encoder_balanced :
        {log' : Log}
        → create lib u encoder local remote device log ≡ (err encoder_failed, log')
        → sessions log' ≡ sessions log
    unfolding create run
    failed_encoder_balanced {log'} failed =
        let (rtp, before, sender, destroyed) =
          after_sender-failed encoder (create_sender u local remote log) log' failed in
        ap sessions (sym destroyed) ∙ sender_balanced u local remote log [] sender
