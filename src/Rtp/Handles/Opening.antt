-- ===== src/Rtp/Handles/Opening.antt =====
-- The pointers that the constructors of src/rtp.cpp give to uvgRTP.
use audpipe_cpp.Rtp.Handles.{session_alive, AreAlive, IsSafe, IsUsable, Leaves}
use audpipe_cpp.Prelude.{
  ℕ, String, ◌≡◌, refl, ◌⊎◌, inl, inr, true, ◌==◌, none, some, List, ◌∷◌, arith, Result, ok, err,
  subst, sym,
}
use audpipe_cpp.Rtp.Library.{Uvg, Log, Flag, session_created, stream_created, hook_installed}
use audpipe_cpp.Rtp.{
  Rtp, Error, Callback, create_sender, create_receiver, init_rtp, create_session, create_stream,
  default_send_flags, default_recv_flags, fresh, install_receive_hook,
}
use audpipe_cpp.Rtp.Lifecycle.{handle, IsOpen, create_sender-IsOpen, create_receiver-IsOpen}

==-self : (n : ℕ) → (n == n) ≡ true
==-self n = ground arith

-- A stream of a session that is alive.
opened-AreAlive :
    (s t local_port remote_port : ℕ) (flags : List Flag) (log : Log)
    → session_alive s log ≡ true
    → AreAlive s t (stream_created s local_port remote_port flags (some t) ∷ log)
opened-AreAlive s t local_port remote_port flags log alive = (alive, rw (==-self t) (==-self s))

created-alive :
    (local remote : String) (s : ℕ) (log : Log)
    → session_alive s (session_created local remote (some s) ∷ log) ≡ true
created-alive local remote s log = rw (==-self s) refl

handle-IsOpen : (r : Rtp) (s t : ℕ) → IsOpen r s t → IsOpen r (handle r.session) (handle r.stream)
handle-IsOpen r s t open_now = ground arith

hooked-IsUsable :
    (r : Rtp) (s t : ℕ) (cb : Callback) (log : Log)
    → IsOpen r s t
    → AreAlive s t log
    → IsSafe log
    → IsUsable r (hook_installed t cb.hook cb.userdata ∷ log)
hooked-IsUsable r s t cb log open_now alive safe = inl (s, t, open_now, alive, ((s, alive), safe))

-- The calls of uvgRTP that a constructor makes when it returns.
abbrev opening : (local remote : String × ℕ) → List Flag → (s t : ℕ) → Log → Log
opening local remote flags s t log =
    stream_created s local.1 remote.1 flags (some t)
    ∷ session_created local.0 remote.0 (some s)
    ∷ log

module _ (u : Uvg) (local remote : String × ℕ) (log : Log) where
  opening-AreAlive :
      (flags : List Flag) (s t : ℕ) → AreAlive s t (opening local remote flags s t log)
  opening-AreAlive flags s t =
      opened-AreAlive s t local.1 remote.1 flags (session_created local.0 remote.0 (some s) ∷ log)
        (created-alive local.0 remote.0 s log)

  opening-IsUsable :
      (flags : List Flag) (r : Rtp) (s t : ℕ)
      → IsOpen r s t
      → IsSafe log
      → IsUsable r (opening local remote flags s t log)
  opening-IsUsable flags r s t open_now safe =
      inl (s, t, open_now, opening-AreAlive flags s t, (created-alive local.0 remote.0 s log, safe))

  create_sender-opening :
      {r : Rtp} {log' : Log}
      → create_sender u local remote log ≡ (ok r, log')
      → log' ≡ opening local remote default_send_flags (handle r.session) (handle r.stream) log
  unfolding create_sender create_session init_rtp create_stream fresh
  create_sender-opening e = ground arith

  create_receiver-opening :
      (cb : Callback) {r : Rtp} {log' : Log}
      → create_receiver u local remote cb log ≡ (ok r, log')
      → log'
        ≡ hook_installed (handle r.stream) cb.hook cb.userdata
          ∷ opening local remote default_recv_flags (handle r.session) (handle r.stream) log
  unfolding create_receiver create_session init_rtp create_stream fresh install_receive_hook
  create_receiver-opening cb e = ground arith

  -- When it throws, a stream was asked for with the session that had been created, or not at all.
  abbrev IsUnopened : List Flag → Log → Type 0
  IsUnopened flags log' =
      (log' ≡ session_created local.0 remote.0 (u.new_session log) ∷ log)
      ⊎ (log'
          ≡ stream_created (handle (u.new_session log)) local.1 remote.1 flags none
            ∷ session_created local.0 remote.0 (some (handle (u.new_session log)))
            ∷ log)

  IsUnopened-IsSafe :
      (flags : List Flag) (log' : Log) → IsSafe log → IsUnopened flags log' → IsSafe log'
  IsUnopened-IsSafe flags log' safe (inl same) = subst IsSafe (sym same) safe
  IsUnopened-IsSafe flags log' safe (inr same) =
      subst IsSafe (sym same)
        (created-alive local.0 remote.0 (handle (u.new_session log)) log, safe)

  create_sender-IsUnopened :
      {e : Error} {log' : Log}
      → create_sender u local remote log ≡ (err e, log')
      → IsUnopened default_send_flags log'
  unfolding create_sender create_session init_rtp create_stream fresh
  create_sender-IsUnopened e = ground arith

  create_receiver-IsUnopened :
      (cb : Callback) {e : Error} {log' : Log}
      → create_receiver u local remote cb log ≡ (err e, log')
      → IsUnopened default_recv_flags log'
  unfolding create_receiver create_session init_rtp create_stream fresh install_receive_hook
  create_receiver-IsUnopened cb e = ground arith

  -- A constructor is safe: what it leaves, by its return or its exception, is fit for use.
  pub create_sender-Leaves : IsSafe log → Leaves (create_sender u local remote log)
  create_sender-Leaves safe = by_result (create_sender u local remote log) refl
    where
      by_result :
          (made : Result Error Rtp × Log) → create_sender u local remote log ≡ made → Leaves made
      by_result (err e, log') made =
          IsUnopened-IsSafe default_send_flags log' safe (create_sender-IsUnopened made)
      by_result (ok r, log') made =
          let (s, t, open_now) = create_sender-IsOpen u local remote log made in
          subst (IsUsable r) (sym (create_sender-opening made)) (
            opening-IsUsable default_send_flags r (handle r.session) (handle r.stream)
              (handle-IsOpen r s t open_now) safe)

  pub create_receiver-Leaves :
      (cb : Callback) → IsSafe log → Leaves (create_receiver u local remote cb log)
  create_receiver-Leaves cb safe = by_result (create_receiver u local remote cb log) refl
    where
      by_result :
          (made : Result Error Rtp × Log)
          → create_receiver u local remote cb log ≡ made
          → Leaves made
      by_result (err e, log') made =
          IsUnopened-IsSafe default_recv_flags log' safe (create_receiver-IsUnopened cb made)
      by_result (ok r, log') made =
          let (s, t, open_now) = create_receiver-IsOpen u local remote log cb made in
          subst (IsUsable r) (sym (create_receiver-opening cb made)) (
            hooked-IsUsable r (handle r.session) (handle r.stream) cb
              (opening local remote default_recv_flags (handle r.session) (handle r.stream) log)
              (handle-IsOpen r s t open_now)
              (opening-AreAlive default_recv_flags (handle r.session) (handle r.stream))
              (created-alive local.0 remote.0 (handle r.session) log, safe))
