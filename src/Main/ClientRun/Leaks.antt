-- ===== src/Main/ClientRun/Leaks.antt =====
-- How many sessions a run of the client leaves at most (src/main.cpp and src/client.cpp).
use audpipe_cpp.Prelude.{
  refl, ◌∷◌, ℕ, zero, suc, String, ◌+◌, ◌≤◌, ◌<◌, ◌≡◌, sym, ap, ◌∙◌, subst, Bool, true, false, some,
  arith,
}
use audpipe_cpp.Config.{ConnectionPolicy}
use audpipe_cpp.Rtp.{Rtp, Callback}
use audpipe_cpp.Rtp.Library.{Uvg, Log, session_destroyed, stream_destroyed}
use audpipe_cpp.Rtp.Lifecycle.{IsOpen}
use audpipe_cpp.Rtp.Sessions.{sessions}
use audpipe_cpp.Client.Playback.{Opus}
use audpipe_cpp.Client.Connect
use audpipe_cpp.Client.Connect.{World, Outcome, constructed, threw}
use audpipe_cpp.Client.Connect.Attempts.{Settled, create-Settled}
use audpipe_cpp.Client.Connect.Bound.{HasAtMost, create-HasAtMost}
use audpipe_cpp.Client.Life.{Living}
use audpipe_cpp.Main.{Exit, exited, aborted, crashed, waiting}
use audpipe_cpp.Backend.VirtualInput
use audpipe_cpp.Client.Life
use audpipe_cpp.Main.ClientRun.{
  exit_with, input_ending, shut_down, Script, wait_loop, end_loop, after_construction, run_client,
}
use audpipe_cpp.Main.ClientRun.Ending.{wait_loop-rtp, shut_down-log, starting}

module _ (lib : Opus) where
  -- At most `n` sessions are alive, and fewer if the status is 0.
  abbrev pub LeavesAtMost : ℕ → Exit × Log → Type 0
  LeavesAtMost n (exited zero, log) = sessions log < n
  LeavesAtMost n (exited (suc status), log) = sessions log ≤ n
  LeavesAtMost n (aborted, log) = sessions log ≤ n
  LeavesAtMost n (crashed, log) = sessions log ≤ n
  LeavesAtMost n (waiting, log) = sessions log ≤ n

  fewer-LeavesAtMost : (n : ℕ) (end : Exit × Log) → sessions end.1 < n → LeavesAtMost n end
  fewer-LeavesAtMost n (exited zero, log) fewer = fewer
  fewer-LeavesAtMost n (exited (suc status), log) fewer = omega arith
  fewer-LeavesAtMost n (aborted, log) fewer = omega arith
  fewer-LeavesAtMost n (crashed, log) fewer = omega arith
  fewer-LeavesAtMost n (waiting, log) fewer = omega arith

  exit_with-log : (over : Bool) (log : Log) → (exit_with lib (over, log)).1 ≡ log
  exit_with-log true log = refl
  exit_with-log false log = refl

  end_loop-LeavesAtMost :
      (n : ℕ) (input : VirtualInput.Ending) (ended : Bool) (l : Living lib) (log : Log) (r : Rtp)
      (s t : ℕ)
      → l.client.rtp ≡ some r
      → IsOpen r s t
      → 1 ≤ n
      → sessions log ≤ n
      → LeavesAtMost n (end_loop lib input (ended, l) log)
  end_loop-LeavesAtMost n input false l log r s t there open_now positive few = few
  end_loop-LeavesAtMost n input true l log r s t there open_now positive few =
      let end = session_destroyed s ∷ stream_destroyed s t ∷ log in
      fewer-LeavesAtMost n (shut_down lib input l log) (
        omega (
          arith,
          ap (λ (out : Exit × Log). sessions out.1)
              (shut_down-log lib input l log r s t there open_now),
          ap sessions (exit_with-log (Life.is_over input) end),
        ))

  module _ (u : Uvg) (local remote : String × ℕ) (cb : Callback) (script : Script lib)
      (pol : ConnectionPolicy) (w : World) where
    after_construction-LeavesAtMost :
        (n : ℕ) (o : Outcome)
        → Settled script.connecting u local remote cb pol.max_retries pol.max_retries w.log o
        → 1 ≤ n
        → HasAtMost n o
        → LeavesAtMost n (after_construction lib script o)
    unfolding after_construction
    after_construction-LeavesAtMost n (constructed c w') (r, s, t, there, open_now, few, enough)
          positive held =
        let l = starting lib script c w' in
        let (ended, end) = wait_loop lib script.turns l in
        end_loop-LeavesAtMost n (input_ending lib script w') ended end w'.log r s t
          (wait_loop-rtp lib script.turns l ∙ there) open_now positive held
    after_construction-LeavesAtMost n (threw f w') settled positive held = held
    after_construction-LeavesAtMost n (Connect.aborted w') settled positive held = held

    -- A run of a client whose policy allows an attempt and that gets its decoder, however it ends:
    -- at most `max_retries` sessions more are alive than before, and fewer than that if it exits
    -- with 0.
    pub run_client-LeavesAtMost :
        1 ≤ pol.max_retries
        → script.decoder_created ≡ true
        → LeavesAtMost
            (sessions w.log + pol.max_retries)
            (run_client lib u local remote cb script pol w)
    unfolding run_client
    run_client-LeavesAtMost some_retry decoder =
        let n = sessions w.log + pol.max_retries in
        subst
          (λ created. LeavesAtMost n (
            after_construction lib script
              (Connect.create script.connecting u local remote cb created pol w)))
          (sym decoder)
          (after_construction-LeavesAtMost n
            (Connect.create script.connecting u local remote cb true pol w)
            (create-Settled script.connecting u local remote cb pol w some_retry) (omega arith)
            (create-HasAtMost script.connecting u local remote cb true pol w))
