-- ===== src/Client/Connect/Attempts.antt =====
-- How the connection attempts of the client end (src/client.cpp).
use audpipe_cpp.Prelude.{
  ℕ, String, zero, suc, ◌+◌, ◌≤◌, ◌<◌, ◌≡◌, ◌≢◌, refl, ap, ◌⊎◌, inl, inr, Bool, true, false, ◌==◌,
  if_split, none, some, Result, ok, err, arith,
}
use audpipe_cpp.Rtp
use audpipe_cpp.Rtp.{
  Rtp, Callback, create_receiver, create_session, init_rtp, create_stream, install_receive_hook,
}
use audpipe_cpp.Rtp.Library.{Uvg, Log}
use audpipe_cpp.Rtp.Tries.{tries, create_receiver-tries, create_receiver-assertion}
use audpipe_cpp.Rtp.Lifecycle.{IsOpen, create_receiver-IsOpen}
use audpipe_cpp.Config.{ConnectionPolicy}
use audpipe_cpp.Backend.{stop_recording}
use audpipe_cpp.Client.State.{
  Client, Failure, rtp_failed, shutdown_during_backoff, fresh, set_error,
}
use audpipe_cpp.Client.Connect.{
  World, Outcome, constructed, threw, aborted, fail, retry, after_attempt, connect, create,
  back_off,
}

module _ (shutdown : ℕ → Bool) (u : Uvg) (local remote : String × ℕ) (cb : Callback) where
  -- How a run of at most `left` attempts ends, of which the last has the number `last`.
  abbrev pub Settled : ℕ → ℕ → Log → Outcome → Type 0
  Settled last left log (constructed c w) =
      (r : Rtp) × (session : ℕ) × (stream : ℕ) × (c.rtp ≡ some r)
      × IsOpen r session stream
      × (tries log < tries w.log)
      × (tries w.log ≤ tries log + left)
  Settled last left log (threw f w) =
      (w.backend.recording ≡ false)
      × (w.backend.playback ≡ false)
      × (((f ≡ rtp_failed last) × (tries w.log ≡ tries log + left))
          ⊎ ((f ≡ shutdown_during_backoff) × (n : ℕ) × (shutdown n ≡ true)))
  Settled last left log (aborted w) = (u.crypto_enabled ≡ false) ⊎ (cb.hook ≡ none)

  Settled-more :
      (last left : ℕ) (log log' : Log) (o : Outcome)
      → tries log' ≡ tries log + 1
      → Settled last left log' o
      → Settled last (suc left) log o
  Settled-more last left log log' (constructed c w) e (r, s, t, v, o, lo, hi) =
      (r, s, t, v, o, omega arith, omega arith)
  Settled-more last left log log' (threw f w) e (b, p, inl (g, n)) = (b, p, inl (g, omega arith))
  Settled-more last left log log' (threw f w) e (b, p, inr g) = (b, p, inr g)
  Settled-more last left log log' (aborted w) e v = v

  fail-Settled :
      (last left : ℕ) (log : Log) (f : Failure) (c : Client) (w : World)
      → c.healthy ≡ true
      → ((f ≡ rtp_failed last) × (tries w.log ≡ tries log + left))
        ⊎ ((f ≡ shutdown_during_backoff) × (n : ℕ) × (shutdown n ≡ true))
      → Settled last left log (fail f c w)
  unfolding fail set_error stop_recording
  fail-Settled last left log f c w h why = (ground arith, ground arith, why)

  -- The attempts behind the one at hand, if any is left.
  abbrev Later : Client → (World → Outcome) → ℕ → Type 0
  Later c next left = (w' : World) → left ≢ 0 → Settled c.conn_pol.max_retries left w'.log (next w')

  retry-Settled :
      (left attempt : ℕ) (c : Client) (log : Log) (tried : World) (next : World → Outcome)
      → c.healthy ≡ true
      → attempt + left ≡ c.conn_pol.max_retries
      → tries tried.log ≡ tries log + 1
      → Later c next left
      → Settled c.conn_pol.max_retries (suc left) log (retry shutdown attempt c tried next)
  unfolding retry
  retry-Settled left attempt c log tried next h n e later =
      if_split (Settled last (suc left) log) (attempt == last)
        (λ final.
          let (same, none_left) = last_attempt final in
          fail-Settled last (suc left) log (rtp_failed attempt) c tried h
            (inl (ap rtp_failed same, omega arith)))
        (λ more.
          if_split (Settled last (suc left) log) (shutdown reads)
            (λ stop.
              fail-Settled last (suc left) log shutdown_during_backoff c rested h
                (inr (refl, reads, stop)))
            (λ going.
              Settled-more last left log tried.log (next rested) e (later rested (not_last more))))
    where
      last : ℕ
      last = c.conn_pol.max_retries

      reads : ℕ
      reads = (back_off shutdown c.conn_pol.retry_backoff_ms tried.reads).1

      rested : World
      rested = record tried { reads = reads + 1 }

      last_attempt : (attempt == last) ≡ true → (attempt ≡ last) × (left ≡ 0)
      last_attempt final = ground arith

      not_last : (attempt == last) ≡ false → left ≢ 0
      not_last more = ground arith

  after_attempt-Settled :
      (left attempt : ℕ) (c : Client) (w : World) (made : Result Rtp.Error Rtp) (log : Log)
      (next : World → Outcome)
      → c.healthy ≡ true
      → attempt + left ≡ c.conn_pol.max_retries
      → create_receiver u local remote cb w.log ≡ (made, log)
      → Later c next left
      → Settled c.conn_pol.max_retries
          (suc left)
          w.log
          (after_attempt shutdown attempt c (record w { log = log }) made next)
  unfolding after_attempt
  after_attempt-Settled left attempt c w (ok r) log next h n e later =
      let (s, t, o) = create_receiver-IsOpen u local remote w.log cb e in
      let counted = create_receiver-tries u local remote cb w.log e in
      (r, s, t, refl, o, omega arith, omega arith)
  after_attempt-Settled left attempt c w (err Rtp.assertion) log next h n e later =
      create_receiver-assertion u local remote cb w.log (ap (λ p. p.0) e)
  after_attempt-Settled left attempt c w (err Rtp.session_failed) log next h n e later =
      retry-Settled left attempt c w.log (record w { log = log }) next h n
        (create_receiver-tries u local remote cb w.log e) later
  after_attempt-Settled left attempt c w (err Rtp.stream_failed) log next h n e later =
      retry-Settled left attempt c w.log (record w { log = log }) next h n
        (create_receiver-tries u local remote cb w.log e) later

  connect_lem :
      (left attempt : ℕ) (c : Client) (w : World)
      → c.healthy ≡ true
      → attempt + left ≡ c.conn_pol.max_retries + 1
      → left ≢ 0
      → Settled c.conn_pol.max_retries left w.log
          (connect shutdown u local remote cb left attempt c w)
  unfolding connect
  connect_lem zero attempt c w h n z = absurd (z refl)
  connect_lem (suc left) attempt c w h n z =
      let (made, log) = create_receiver u local remote cb w.log in
      after_attempt-Settled left attempt c w made log
        (λ w'. connect shutdown u local remote cb left (attempt + 1) c w') h (omega arith) refl
        (λ w' more. connect_lem left (attempt + 1) c w' h (omega arith) more)

  -- A client whose policy allows an attempt and whose decoder is created is either returned with an open `Rtp`, after 1 to
  -- `max_retries` attempts; or the constructor throws, with the audio backend told to stop, after
  -- exactly `max_retries` failed attempts or because a read of the shutdown flag found it set; or it
  -- dies by `assert`, which takes a library without encryption or a missing hook.
  pub create-Settled :
      (pol : ConnectionPolicy) (w : World)
      → 1 ≤ pol.max_retries
      → Settled pol.max_retries pol.max_retries w.log (create shutdown u local remote cb true pol w)
  unfolding create
  create-Settled pol w h =
      connect_lem pol.max_retries 1 (fresh pol) w refl (omega arith) (omega arith)
