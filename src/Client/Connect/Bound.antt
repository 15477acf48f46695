-- ===== src/Client/Connect/Bound.antt =====
-- How many sessions the connection attempts of a client leave at most (src/client.cpp).
use audpipe_cpp.Prelude.{
  ℕ, String, zero, suc, ◌+◌, ◌≤◌, ◌≡◌, refl, sym, subst, Bool, true, false, ◌==◌, if_both, Result,
  ok, err, arith,
}
use audpipe_cpp.Config.{ConnectionPolicy}
use audpipe_cpp.Rtp
use audpipe_cpp.Rtp.{
  Rtp, Callback, create_receiver, create_session, init_rtp, create_stream, install_receive_hook,
}
use audpipe_cpp.Rtp.Library.{Uvg, Log}
use audpipe_cpp.Rtp.Sessions.{sessions}
use audpipe_cpp.Client.State.{
  Client, Failure, rtp_failed, shutdown_during_backoff, decoder_failed, fresh,
}
use audpipe_cpp.Client.Connect.{
  World, Outcome, constructed, threw, aborted, fail, retry, after_attempt, connect, create,
  back_off,
}

abbrev pub final_log : Outcome → Log
final_log (constructed c w) = w.log
final_log (threw f w) = w.log
final_log (aborted w) = w.log

-- No more than so many sessions are alive.
abbrev pub HasAtMost : ℕ → Outcome → Type 0
HasAtMost n o = sessions (final_log o) ≤ n

module _ (shutdown : ℕ → Bool) (u : Uvg) (local remote : String × ℕ) (cb : Callback) where
  create_receiver-one :
      (log : Log) → sessions (create_receiver u local remote cb log).1 ≤ sessions log + 1
  unfolding create_receiver create_session init_rtp create_stream install_receive_hook Rtp.fresh
  create_receiver-one log = ground arith

  fail-HasAtMost :
      (n : ℕ) (f : Failure) (c : Client) (w : World) → sessions w.log ≤ n → HasAtMost n (fail f c w)
  unfolding fail
  fail-HasAtMost n f c w few = few

  retry-HasAtMost :
      (n attempt : ℕ) (c : Client) (tried : World) (next : World → Outcome)
      → sessions tried.log ≤ n
      → ((w : World) → w.log ≡ tried.log → HasAtMost n (next w))
      → HasAtMost n (retry shutdown attempt c tried next)
  unfolding retry
  retry-HasAtMost n attempt c tried next few later =
      let reads = (back_off shutdown c.conn_pol.retry_backoff_ms tried.reads).1 in
      let rested : World = record tried { reads = reads + 1 } in
      if_both (HasAtMost n) (attempt == c.conn_pol.max_retries)
        (fail-HasAtMost n (rtp_failed attempt) c tried few)
        (if_both (HasAtMost n) (shutdown reads)
          (fail-HasAtMost n shutdown_during_backoff c rested few) (later rested refl))

  after_attempt-HasAtMost :
      (n attempt : ℕ) (c : Client) (tried : World) (made : Result Rtp.Error Rtp)
      (next : World → Outcome)
      → sessions tried.log ≤ n
      → ((w : World) → w.log ≡ tried.log → HasAtMost n (next w))
      → HasAtMost n (after_attempt shutdown attempt c tried made next)
  unfolding after_attempt
  after_attempt-HasAtMost n attempt c tried (ok r) next few later = few
  after_attempt-HasAtMost n attempt c tried (err Rtp.assertion) next few later = few
  after_attempt-HasAtMost n attempt c tried (err Rtp.session_failed) next few later =
      retry-HasAtMost n attempt c tried next few later
  after_attempt-HasAtMost n attempt c tried (err Rtp.stream_failed) next few later =
      retry-HasAtMost n attempt c tried next few later

  connect-HasAtMost :
      (n left attempt : ℕ) (c : Client) (w : World)
      → sessions w.log + left ≤ n
      → HasAtMost n (connect shutdown u local remote cb left attempt c w)
  unfolding connect
  connect-HasAtMost n zero attempt c w few = omega arith
  connect-HasAtMost n (suc left) attempt c w few =
      let (made, log) = create_receiver u local remote cb w.log in
      let one = create_receiver-one w.log in
      after_attempt-HasAtMost n attempt c (record w { log = log }) made
        (λ w'. connect shutdown u local remote cb left (attempt + 1) c w') (omega arith)
        (λ w' same.
          connect-HasAtMost n left (attempt + 1) c w'
            (subst (λ log'. sessions log' + left ≤ n) (sym same) (omega arith)))

  -- An attempt leaves at most one session more.
  pub create-HasAtMost :
      (decoder : Bool) (pol : ConnectionPolicy) (w : World)
      → HasAtMost
          (sessions w.log + pol.max_retries)
          (create shutdown u local remote cb decoder pol w)
  unfolding create
  create-HasAtMost true pol w =
      connect-HasAtMost (sessions w.log + pol.max_retries) pol.max_retries 1 (fresh pol) w
        (omega arith)
  create-HasAtMost false pol w =
      fail-HasAtMost (sessions w.log + pol.max_retries) decoder_failed (fresh pol) w (omega arith)
