-- ===== src/Client/Connect.antt =====
-- The constructor of `Client` (src/client.cpp): the connection attempts and the wait between them.
-- The shutdown flag belongs to the signal thread: `shutdown n` is what the n-th read of it finds.
pub mod Backoff
pub mod Attempts
pub mod Leaks
pub mod Configured
pub mod Fresh
pub mod Handles
pub mod Bound
mod Tests
use audpipe_cpp.Prelude.{
  ℕ, String, zero, suc, ◌+◌, ◌-◌, Bool, true, false, ltb, ◌==◌, if◌then◌else◌, Option, none, some,
  List, ok, err, Result,
}
use audpipe_cpp.Config.{ConnectionPolicy}
use audpipe_cpp.Rtp
use audpipe_cpp.Rtp.{Rtp, Callback, create_receiver}
use audpipe_cpp.Rtp.Library.{Uvg, Log}
use audpipe_cpp.Backend.{Backend}
use audpipe_cpp.Client.State.{
  Client, Failure, decoder_failed, rtp_failed, shutdown_during_backoff, fresh, set_error,
}

-- `poll_step`, in milliseconds.
abbrev pub poll_step : ℕ
poll_step = 100

-- What the constructor has done so far.
pub record World : Type 0 where
  pub backend : Backend
  pub log : Log
  pub reads : ℕ

-- A constructor returns an object, throws, or dies by a failed assertion.
pub data Outcome : Type 0 where
  constructed : Client → World → Outcome
  threw : Failure → World → Outcome
  aborted : World → Outcome

-- `set_error(message); throw`.
pub fail : Failure → Client → World → Outcome
fail failure c w =
    let (c', b) = set_error failure (c, w.backend) in threw failure (record w { backend = b })

module _ (shutdown : ℕ → Bool) where
  -- `while (waited < backoff && !is_shutdown_requested())`, each round a sleep of one poll step: the
  -- time waited and the reads of the flag. The fuel is more than the rounds that `backoff` allows.
  pub wait : ℕ → ℕ → ℕ → ℕ → ℕ × ℕ
  wait zero backoff waited reads = (waited, reads)
  wait (suc fuel) backoff waited reads =
      let rest = wait fuel backoff (waited + poll_step) (reads + 1) in
      if ltb waited backoff
      then (if shutdown reads then (waited, reads + 1) else rest)
      else (waited, reads)

  pub back_off : ℕ → ℕ → ℕ × ℕ
  unfolding wait
  back_off backoff reads = wait (suc backoff) backoff 0 reads

  -- The handler of an exception: give up after the last attempt, else wait and go on, unless a
  -- shutdown was requested. (`this->rtp.reset()` leaves `rtp` empty, as it is.)
  pub retry : (attempt : ℕ) → Client → World → (World → Outcome) → Outcome
  retry attempt c tried next =
      if attempt == c.conn_pol.max_retries
      then fail (rtp_failed attempt) c tried
      else let (waited, reads) = back_off c.conn_pol.retry_backoff_ms tried.reads in
        let rested : World = record tried { reads = reads + 1 } in
        if shutdown reads then fail shutdown_during_backoff c rested else next rested

  -- What follows a construction of the `Rtp` member: `break`, the handler, or the end by `assert`.
  unfoldable pub after_attempt :
      (attempt : ℕ) → Client → World → Result Rtp.Error Rtp → (World → Outcome) → Outcome
  unfolding retry
  after_attempt attempt c tried (ok rtp) next = constructed (record c { rtp = some rtp }) tried
  after_attempt attempt c tried (err Rtp.assertion) next = aborted tried
  after_attempt attempt c tried (err e) next = retry attempt c tried next

  module _ (u : Uvg) (local remote : String × ℕ) (cb : Callback) where
    -- The rounds `attempt = max_retries - left + 1 .. max_retries` of the loop.
    unfoldable pub connect : (left : ℕ) → (attempt : ℕ) → Client → World → Outcome
    connect zero attempt c w = constructed c w
    connect (suc left) attempt c w =
        let (made, log) = create_receiver u local remote cb w.log in
        after_attempt attempt c (record w { log = log }) made
          (λ w'. connect left (attempt + 1) c w')

    -- The constructor, but for the callbacks and threads it installs. `decoder` tells whether
    -- `opus_decoder_create` succeeds.
    unfoldable pub create : Bool → ConnectionPolicy → World → Outcome
    create decoder conn_pol w =
        let c = fresh conn_pol in
        if decoder then connect conn_pol.max_retries 1 c w else fail decoder_failed c w
