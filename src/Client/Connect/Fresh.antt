-- ===== src/Client/Connect/Fresh.antt =====
-- What the constructor of a client leaves of its members (src/client.cpp).
use audpipe_cpp.Prelude.{
  ℕ, String, zero, suc, ◌+◌, ◌≡◌, refl, subst, Bool, ◌==◌, if_both, Result, ok, err,
}
use audpipe_cpp.Config.{ConnectionPolicy}
use audpipe_cpp.Rtp
use audpipe_cpp.Rtp.{Rtp, Callback, create_receiver}
use audpipe_cpp.Rtp.Library.{Uvg}
use audpipe_cpp.Client.State.{Client, fresh}
use audpipe_cpp.Client.Connect.{
  World, Outcome, constructed, threw, aborted, fail, back_off, retry, after_attempt, connect,
  create,
}

-- Only the `Rtp` member is set.
abbrev KeepsRest : Client → Outcome → Type 0
KeepsRest c (constructed c' w) = c' ≡ record c { rtp = c'.rtp }
KeepsRest c (threw failure w) = Unit
KeepsRest c (aborted w) = Unit

module _ (shutdown : ℕ → Bool) where
  retry-KeepsRest :
      (attempt : ℕ) (c : Client) (tried : World) (next : World → Outcome)
      → ((w : World) → KeepsRest c (next w))
      → KeepsRest c (retry shutdown attempt c tried next)
  unfolding retry fail
  retry-KeepsRest attempt c tried next later =
      let reads = (back_off shutdown c.conn_pol.retry_backoff_ms tried.reads).1 in
      if_both (KeepsRest c) (attempt == c.conn_pol.max_retries) tt
        (if_both (KeepsRest c) (shutdown reads) tt (later (record tried { reads = reads + 1 })))

  after_attempt-KeepsRest :
      (attempt : ℕ) (c : Client) (tried : World) (made : Result Rtp.Error Rtp)
      (next : World → Outcome)
      → ((w : World) → KeepsRest c (next w))
      → KeepsRest c (after_attempt shutdown attempt c tried made next)
  unfolding after_attempt
  after_attempt-KeepsRest attempt c tried (ok rtp) next later = refl
  after_attempt-KeepsRest attempt c tried (err Rtp.assertion) next later = tt
  after_attempt-KeepsRest attempt c tried (err Rtp.session_failed) next later =
      retry-KeepsRest attempt c tried next later
  after_attempt-KeepsRest attempt c tried (err Rtp.stream_failed) next later =
      retry-KeepsRest attempt c tried next later

  module _ (u : Uvg) (local remote : String × ℕ) (cb : Callback) where
    connect-KeepsRest :
        (left attempt : ℕ) (c : Client) (w : World)
        → KeepsRest c (connect shutdown u local remote cb left attempt c w)
    unfolding connect
    connect-KeepsRest zero attempt c w = refl
    connect-KeepsRest (suc left) attempt c w =
        let (made, log) = create_receiver u local remote cb w.log in
        after_attempt-KeepsRest attempt c (record w { log = log }) made
          (λ w'. connect shutdown u local remote cb left (attempt + 1) c w')
          (λ w'. connect-KeepsRest left (attempt + 1) c w')

    -- A client that is constructed has its member initialisers, but for the `Rtp`.
    pub create-fresh :
        (decoder : Bool) (pol : ConnectionPolicy) (w w' : World) {c : Client}
        → create shutdown u local remote cb decoder pol w ≡ constructed c w'
        → c ≡ record (fresh pol) { rtp = c.rtp }
    unfolding create fail
    create-fresh decoder pol w w' made = subst (KeepsRest (fresh pol)) made (
        if_both (KeepsRest (fresh pol)) decoder (connect-KeepsRest pol.max_retries 1 (fresh pol) w)
          tt)
