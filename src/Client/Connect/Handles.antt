-- ===== src/Client/Connect/Handles.antt =====
-- The pointers that the connection attempts of a client give to uvgRTP (src/client.cpp).
use audpipe_cpp.Prelude.{
  ℕ, String, zero, suc, ◌+◌, ◌≡◌, refl, Bool, true, false, ◌==◌, if_both, Option, none, some,
  Result, ok, err,
}
use audpipe_cpp.Config.{ConnectionPolicy}
use audpipe_cpp.Rtp
use audpipe_cpp.Rtp.{Rtp, Callback, create_receiver}
use audpipe_cpp.Rtp.Library.{Uvg, Log}
use audpipe_cpp.Rtp.Handles.{IsSafe, IsUsable, IsUsable-IsSafe, Leaves, stop-IsUsable}
use audpipe_cpp.Rtp.Handles.Opening.{create_receiver-Leaves}
use audpipe_cpp.Client.State.{
  Client, Failure, rtp_failed, shutdown_during_backoff, decoder_failed, fresh, stop_rtp,
}
use audpipe_cpp.Client.Connect.{
  World, Outcome, constructed, threw, aborted, fail, retry, after_attempt, connect, create,
  back_off,
}

-- An `Rtp` member that is empty, or fit for use.
abbrev pub MemberUsable : Option Rtp → Log → Type 0
MemberUsable none log = IsSafe log
MemberUsable (some r) log = IsUsable r log

pub MemberUsable-IsSafe : (rtp : Option Rtp) (log : Log) → MemberUsable rtp log → IsSafe log
MemberUsable-IsSafe none log v = v
MemberUsable-IsSafe (some r) log v = IsUsable-IsSafe r log v

pub stop_rtp-MemberUsable :
    (rtp : Option Rtp) (log : Log)
    → MemberUsable rtp log
    → let (rtp', log') = stop_rtp rtp log in MemberUsable rtp' log'
stop_rtp-MemberUsable none log v = v
stop_rtp-MemberUsable (some r) log v = stop-IsUsable r log v

-- What the constructor of a client leaves.
abbrev pub ClientLeaves : Outcome → Type 0
ClientLeaves (constructed c w) = MemberUsable c.rtp w.log
ClientLeaves (threw f w) = IsSafe w.log
ClientLeaves (aborted w) = IsSafe w.log

fail-ClientLeaves :
    (f : Failure) (c : Client) (w : World) → IsSafe w.log → ClientLeaves (fail f c w)
unfolding fail
fail-ClientLeaves f c w safe = safe

module _ (shutdown : ℕ → Bool) (u : Uvg) (local remote : String × ℕ) (cb : Callback) where
  retry-ClientLeaves :
      (attempt : ℕ) (c : Client) (tried : World) (next : World → Outcome)
      → IsSafe tried.log
      → ((w : World) → IsSafe w.log → ClientLeaves (next w))
      → ClientLeaves (retry shutdown attempt c tried next)
  unfolding retry
  retry-ClientLeaves attempt c tried next safe later =
      let reads = (back_off shutdown c.conn_pol.retry_backoff_ms tried.reads).1 in
      let rested : World = record tried { reads = reads + 1 } in
      if_both ClientLeaves (attempt == c.conn_pol.max_retries)
        (fail-ClientLeaves (rtp_failed attempt) c tried safe)
        (if_both ClientLeaves (shutdown reads)
          (fail-ClientLeaves shutdown_during_backoff c rested safe) (later rested safe))

  after_attempt-ClientLeaves :
      (attempt : ℕ) (c : Client) (w : World) (made : Result Rtp.Error Rtp) (log : Log)
      (next : World → Outcome)
      → Leaves (made, log)
      → ((w' : World) → IsSafe w'.log → ClientLeaves (next w'))
      → ClientLeaves (after_attempt shutdown attempt c (record w { log = log }) made next)
  unfolding after_attempt
  after_attempt-ClientLeaves attempt c w (ok r) log next left later = left
  after_attempt-ClientLeaves attempt c w (err Rtp.assertion) log next left later = left
  after_attempt-ClientLeaves attempt c w (err Rtp.session_failed) log next left later =
      retry-ClientLeaves attempt c (record w { log = log }) next left later
  after_attempt-ClientLeaves attempt c w (err Rtp.stream_failed) log next left later =
      retry-ClientLeaves attempt c (record w { log = log }) next left later

  connect-ClientLeaves :
      (left attempt : ℕ) (c : Client) (w : World)
      → c.rtp ≡ none
      → IsSafe w.log
      → ClientLeaves (connect shutdown u local remote cb left attempt c w)
  unfolding connect
  connect-ClientLeaves zero attempt c w empty safe = rw empty safe
  connect-ClientLeaves (suc left) attempt c w empty safe =
      let (made, log) = create_receiver u local remote cb w.log in
      after_attempt-ClientLeaves attempt c w made log
        (λ w'. connect shutdown u local remote cb left (attempt + 1) c w')
        (create_receiver-Leaves u local remote w.log cb safe)
        (λ w' safe'. connect-ClientLeaves left (attempt + 1) c w' empty safe')

  -- The constructor is safe, whether it returns, throws or dies.
  pub create-ClientLeaves :
      (decoder : Bool) (pol : ConnectionPolicy) (w : World)
      → IsSafe w.log
      → ClientLeaves (create shutdown u local remote cb decoder pol w)
  unfolding create
  create-ClientLeaves true pol w safe =
      connect-ClientLeaves pol.max_retries 1 (fresh pol) w refl safe
  create-ClientLeaves false pol w safe = fail-ClientLeaves decoder_failed (fresh pol) w safe
