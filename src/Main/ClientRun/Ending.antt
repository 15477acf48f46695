-- ===== src/Main/ClientRun/Ending.antt =====
-- How a run of the client ends (src/main.cpp).
use audpipe_cpp.Prelude.{
  ℕ, zero, suc, ◌+◌, ◌≤◌, String, subst, ◌≡◌, refl, sym, ap, ◌∙◌, ◌⊎◌, inl, inr, Bool, true, false,
  not, ◌||◌, if_split, none, some, List, [], ◌∷◌, arith,
}
use audpipe_cpp.Rtp
use audpipe_cpp.Rtp.{Rtp}
use audpipe_cpp.Rtp.Library.{Log, stream_destroyed, session_destroyed}
use audpipe_cpp.Rtp.Lifecycle.{IsOpen, stop_open}
use audpipe_cpp.Client.State.{Client, is_healthy, request_shutdown}
use audpipe_cpp.Client.Playback.{Opus, fresh_decbuf}
use audpipe_cpp.Config.{ConnectionPolicy}
use audpipe_cpp.Rtp.{Callback}
use audpipe_cpp.Rtp.Library.{Uvg}
use audpipe_cpp.Rtp.Tries.{tries}
use audpipe_cpp.Client.Connect
use audpipe_cpp.Client.Connect.{World, Outcome, constructed, threw}
use audpipe_cpp.Client.Connect.Attempts.{Settled, create-Settled}
use audpipe_cpp.Backend.VirtualInput
use audpipe_cpp.Client.Life
use audpipe_cpp.Client.Life.{Living, Happening, happen_all}
use audpipe_cpp.Client.Life.Kept.{happen_all-rtp}
use audpipe_cpp.Main.{Exit, exited, aborted, crashed, waiting}
use audpipe_cpp.Main.ClientRun.{
  Turn, Script, wait_loop, shut_down, exit_with, input_ending, end_loop, after_construction,
  run_client,
}

module _ (lib : Opus) where
  -- A shutdown is requested before the script is over, or the client has failed by its end.
  abbrev pub IsTold : List (Turn lib) → Living lib → Type 0
  IsTold [] l = is_healthy l.client ≡ false
  IsTold (t ∷ rest) l = (t.shutdown ≡ true) ⊎ IsTold rest (happen_all lib t.happenings l)

  wait_loop-ends :
      (turns : List (Turn lib)) (l : Living lib) → IsTold turns l → (wait_loop lib turns l).0 ≡ true
  unfolding wait_loop
  wait_loop-ends [] l told = ground arith
  wait_loop-ends (t ∷ rest) l (inl now) = ground arith
  wait_loop-ends (t ∷ rest) l (inr later) =
      if_split (λ (r : Bool × Living lib). r.0 ≡ true) (t.shutdown || not (is_healthy l.client))
        (λ stops. refl) (λ goes_on. wait_loop-ends rest (happen_all lib t.happenings l) later)

  pub wait_loop-rtp :
      (turns : List (Turn lib)) (l : Living lib)
      → (wait_loop lib turns l).1.client.rtp ≡ l.client.rtp
  unfolding wait_loop
  wait_loop-rtp [] l = refl
  wait_loop-rtp (t ∷ rest) l =
      if_split (λ (r : Bool × Living lib). r.1.client.rtp ≡ l.client.rtp)
        (t.shutdown || not (is_healthy l.client)) (λ stops. refl)
        (λ goes_on.
          wait_loop-rtp rest (happen_all lib t.happenings l) ∙ happen_all-rtp lib t.happenings l)

  pub shut_down-log :
      (input : VirtualInput.Ending) (l : Living lib) (log : Log) (r : Rtp) (s t : ℕ)
      → l.client.rtp ≡ some r
      → IsOpen r s t
      → shut_down lib input l log
        ≡ exit_with lib (Life.is_over input, session_destroyed s ∷ stream_destroyed s t ∷ log)
  unfolding shut_down request_shutdown Life.destroy Rtp.stop
  shut_down-log VirtualInput.returned l log r s t there open_now =
      ground (arith, stop_open r log s t open_now)
  shut_down-log VirtualInput.waiting l log r s t there open_now =
      ground (arith, stop_open r log s t open_now)
  shut_down-log (VirtualInput.threw reason) l log r s t there open_now =
      ground (arith, stop_open r log s t open_now)

  -- The client as its loop finds it.
  abbrev pub starting : Script lib → Client → World → Living lib
  starting script c w = record {
    client = c;
    backend = w.backend;
    opusdec = script.opusdec;
    pcm_decbuf = fresh_decbuf;
  }

  constructed-ends :
      (script : Script lib) (c : Client) (w : World) (r : Rtp) (s t : ℕ)
      → c.rtp ≡ some r
      → IsOpen r s t
      → IsTold script.turns (starting script c w)
      → Life.is_over (input_ending lib script w) ≡ true
      → after_construction lib script (constructed c w)
        ≡ (exited 0, session_destroyed s ∷ stream_destroyed s t ∷ w.log)
  unfolding after_construction
  constructed-ends script c w r s t there open_now told over =
      let input = input_ending lib script w in
      let l = starting script c w in
      let end = (wait_loop lib script.turns l).1 in
      ap (λ (ended : Bool). end_loop lib input (ended, end) w.log)
        (wait_loop-ends script.turns l told)
      ∙ shut_down-log input end w.log r s t (wait_loop-rtp script.turns l ∙ there) open_now
      ∙ ap (λ over. exit_with lib (over, session_destroyed s ∷ stream_destroyed s t ∷ w.log)) over

  module _ (u : Uvg) (local remote : String × ℕ) (cb : Callback) (script : Script lib)
      (pol : ConnectionPolicy) (w : World) where
    -- How the program is over: after a shutdown or a failure of the client, with status 0, its stream and
    -- then its session destroyed; with status 1 after `max_retries` attempts, or fewer where a read of
    -- the flag found a shutdown; or by `assert`.
    abbrev pub IsOver : Exit × Log → Type 0
    IsOver (exited zero, log) =
        (s : ℕ) × (t : ℕ) × (before : Log) × (log
          ≡ session_destroyed s ∷ stream_destroyed s t ∷ before)
        × (tries before ≤ tries w.log + pol.max_retries)
    IsOver (exited (suc n), log) =
        (n ≡ 0)
        × ((tries log ≡ tries w.log + pol.max_retries) ⊎ ((k : ℕ) × (script.connecting k ≡ true)))
    IsOver (aborted, log) = (u.crypto_enabled ≡ false) ⊎ (cb.hook ≡ none)
    IsOver (crashed, log) = ⊥
    IsOver (waiting, log) = ⊥

    -- Its loop is told to end, and the work of the thread of its virtual input is over some time.
    abbrev pub IsAnswered : Outcome → Type 0
    IsAnswered (constructed c w') =
        IsTold script.turns (starting script c w')
        × (Life.is_over (input_ending lib script w') ≡ true)
    IsAnswered (threw f w') = Unit
    IsAnswered (Connect.aborted w') = Unit

    after_construction-IsOver :
        (o : Outcome)
        → Settled script.connecting u local remote cb pol.max_retries pol.max_retries w.log o
        → IsAnswered o
        → IsOver (after_construction lib script o)
    unfolding after_construction
    after_construction-IsOver (constructed c w') (r, s, t, there, open_now, few, enough)
          (told, over) =
        subst IsOver (sym (constructed-ends script c w' r s t there open_now told over))
          (s, t, w'.log, refl, enough)
    after_construction-IsOver (threw f w') (b, p, inl (last, all)) answered = (refl, inl all)
    after_construction-IsOver (threw f w') (b, p, inr (backoff, k, found)) answered =
        (refl, inr (k, found))
    after_construction-IsOver (Connect.aborted w') why answered = why

    -- A client whose policy allows an attempt and that gets its decoder ends, if its loop is told to
    -- wherever it comes to the loop and the thread of its virtual input can be joined: the program does not wait on.
    pub run_client-IsOver :
        1 ≤ pol.max_retries
        → script.decoder_created ≡ true
        → IsAnswered (Connect.create script.connecting u local remote cb true pol w)
        → IsOver (run_client lib u local remote cb script pol w)
    unfolding run_client
    run_client-IsOver some_retry decoder answered =
        subst
          (λ created. IsOver (
            after_construction lib script
              (Connect.create script.connecting u local remote cb created pol w)))
          (sym decoder)
          (after_construction-IsOver (Connect.create script.connecting u local remote cb true pol w)
            (create-Settled script.connecting u local remote cb pol w some_retry) answered)
