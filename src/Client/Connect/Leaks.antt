-- ===== src/Client/Connect/Leaks.antt =====
-- What failed connection attempts leave behind (src/client.cpp over src/rtp.cpp).
use audpipe_cpp.Prelude.{
  ℕ, String, zero, suc, ◌+◌, ◌≤◌, ◌≡◌, ◌≢◌, refl, ap, ◌∙◌, Bool, true, false, none, some, arith,
}
use audpipe_cpp.Config.{ConnectionPolicy}
use audpipe_cpp.Rtp.{Callback, create_receiver}
use audpipe_cpp.Rtp.Library.{Uvg, Log}
use audpipe_cpp.Rtp.Sessions.{sessions, failed_receiver_leaks, receiver_without_stream}
use audpipe_cpp.Client.State.{Client, rtp_failed, fresh, set_error}
use audpipe_cpp.Client.Connect.{
  World, Outcome, threw, fail, retry, after_attempt, connect, create, back_off,
}

module _ (shutdown : ℕ → Bool) (u : Uvg) (local remote : String × ℕ) (cb : Callback)
    (running : (n : ℕ) → shutdown n ≡ false) (s : Log → ℕ) (f : ℕ)
    (crypto : u.crypto_enabled ≡ true) (hook : cb.hook ≡ some f)
    (session : (log : Log) → u.new_session log ≡ some (s log))
    (stream : (log : Log) → u.new_stream log ≡ none) where
  retry_last :
      (attempt : ℕ) (c : Client) (w : World) (next : World → Outcome)
      → attempt ≡ c.conn_pol.max_retries
      → (w' : World) × (retry shutdown attempt c w next
          ≡ threw (rtp_failed c.conn_pol.max_retries) w')
        × (w'.log ≡ w.log)
  unfolding retry fail
  retry_last attempt c w next e =
      (record w { backend = (set_error (rtp_failed attempt) (c, w.backend)).1 }, ground arith, refl)

  retry_more :
      (attempt : ℕ) (c : Client) (w : World) (next : World → Outcome)
      → attempt ≢ c.conn_pol.max_retries
      → (w' : World) × (retry shutdown attempt c w next ≡ next w') × (w'.log ≡ w.log)
  unfolding retry
  retry_more attempt c w next e =
      let reads = (back_off shutdown c.conn_pol.retry_backoff_ms w.reads).1 in
      (record w { reads = reads + 1 }, ground (arith, running reads), refl)

  failed_attempt :
      (attempt : ℕ) (c : Client) (w : World) (next : World → Outcome)
      → let out = create_receiver u local remote cb w.log in
        (w' : World) × (after_attempt shutdown attempt c (record w { log = out.1 }) out.0 next
          ≡ retry shutdown attempt c w' next)
        × (sessions w'.log ≡ sessions w.log + 1)
  unfolding after_attempt
  failed_attempt attempt c w next =
      let (log', e) =
        receiver_without_stream u local remote w.log cb (s w.log) f crypto hook (session w.log)
          stream in
      (
        record w { log = log' },
        ap (λ p. after_attempt shutdown attempt c (record w { log = p.1 }) p.0 next) e,
        failed_receiver_leaks u local remote w.log cb e,
      )

  connect_leaks :
      (left attempt : ℕ) (c : Client) (w : World)
      → attempt + left ≡ c.conn_pol.max_retries + 1
      → left ≢ 0
      → (w' : World) × (connect shutdown u local remote cb left attempt c w
          ≡ threw (rtp_failed c.conn_pol.max_retries) w')
        × (sessions w'.log ≡ sessions w.log + left)
  unfolding connect
  connect_leaks zero attempt c w n z = absurd (z refl)
  connect_leaks (suc zero) attempt c w n z =
      let next = λ (w' : World). connect shutdown u local remote cb 0 (attempt + 1) c w' in
      let (w1, tried, one) = failed_attempt attempt c w next in
      let (w2, gave_up, same) = retry_last attempt c w1 next (omega arith) in
      (w2, tried ∙ gave_up, omega (arith, ap sessions same))
  connect_leaks (suc (suc left)) attempt c w n z =
      let next = λ (w' : World). connect shutdown u local remote cb (suc left) (attempt + 1) c w' in
      let (w1, tried, one) = failed_attempt attempt c w next in
      let (w2, waited, same) = retry_more attempt c w1 next (omega arith) in
      let (w3, gave_up, more) =
        connect_leaks (suc left) (attempt + 1) c w2 (omega arith) (omega arith) in
      (w3, tried ∙ waited ∙ gave_up, omega (arith, ap sessions same))

  -- While no shutdown is requested, a library with encryption that gives sessions, which may differ, but
  -- no streams, asked with a hook, makes the constructor of a client whose policy allows an attempt and
  -- whose decoder is created throw after its `max_retries` attempts, and each attempt leaves one more session alive.
  pub create_leaks :
      (pol : ConnectionPolicy) (w : World)
      → 1 ≤ pol.max_retries
      → (w' : World) × (create shutdown u local remote cb true pol w
          ≡ threw (rtp_failed pol.max_retries) w')
        × (sessions w'.log ≡ sessions w.log + pol.max_retries)
  unfolding create
  create_leaks pol w h = connect_leaks pol.max_retries 1 (fresh pol) w (omega arith) (omega arith)
