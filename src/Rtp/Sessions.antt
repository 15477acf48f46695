-- ===== src/Rtp/Sessions.antt =====
-- How many uvgRTP sessions a run of src/rtp.cpp leaves alive.
use audpipe_cpp.Prelude.{
  ℕ, String, ◌+◌, ◌-◌, ◌≡◌, refl, true, none, some, List, [], ◌∷◌, arith, ok, err,
}
use audpipe_cpp.Rtp.Library.{
  Uvg, Log, session_created, stream_created, hook_installed, frame_pushed, stream_destroyed,
  session_destroyed,
}
use audpipe_cpp.Rtp.{
  Rtp, Callback, session_failed, stream_failed, default_recv_flags, create_sender, create_receiver,
  init_rtp, create_session, create_stream, fresh, install_receive_hook, stop, Call, writes, stops,
  run,
}
use audpipe_cpp.Rtp.Lifecycle.{written, run_open, create_sender-IsOpen, create_receiver-IsOpen}

-- The sessions that were created and not destroyed.
abbrev pub sessions : Log → ℕ
sessions [] = 0
sessions (session_created local remote none ∷ log) = sessions log
sessions (session_created local remote (some s) ∷ log) = sessions log + 1
sessions (stream_created s local remote flags t ∷ log) = sessions log
sessions (hook_installed t hook userdata ∷ log) = sessions log
sessions (frame_pushed t bytes ∷ log) = sessions log
sessions (stream_destroyed s t ∷ log) = sessions log
sessions (session_destroyed s ∷ log) = sessions log - 1

sessions-written : (t : ℕ) (cs : List Call) (log : Log) → sessions (written t cs log) ≡ sessions log
unfolding written
sessions-written t [] log = refl
sessions-written t (writes bytes ∷ cs) log = sessions-written t cs (frame_pushed t bytes ∷ log)
sessions-written t (stops ∷ cs) log = refl

module _ (u : Uvg) (local remote : String × ℕ) (log : Log) where
  create_sender-sessions :
      {r : Rtp} {log' : Log}
      → create_sender u local remote log ≡ (ok r, log')
      → sessions log' ≡ sessions log + 1
  unfolding create_sender create_session init_rtp create_stream fresh
  create_sender-sessions e = ground arith

  create_receiver-sessions :
      (cb : Callback) {r : Rtp} {log' : Log}
      → create_receiver u local remote cb log ≡ (ok r, log')
      → sessions log' ≡ sessions log + 1
  unfolding create_receiver create_session init_rtp create_stream fresh install_receive_hook
  create_receiver-sessions cb e = ground arith

  -- A sender that was constructed, used and destroyed leaves as many sessions as there were before.
  pub sender_balanced :
      (cs : List Call) {r : Rtp} {log' : Log}
      → create_sender u local remote log ≡ (ok r, log')
      → let (r', before) = run (r, log') cs in sessions (stop r' before).1 ≡ sessions log
  sender_balanced cs {r} {log'} e =
      let (s, t, o) = create_sender-IsOpen u local remote log e in
      rw ((run_open r log' s t cs o).1)
        (omega (arith, create_sender-sessions e, sessions-written t cs log'))

  -- So does a receiver.
  receiver_balanced :
      (cb : Callback) (cs : List Call) {r : Rtp} {log' : Log}
      → create_receiver u local remote cb log ≡ (ok r, log')
      → let (r', before) = run (r, log') cs in sessions (stop r' before).1 ≡ sessions log
  receiver_balanced cb cs {r} {log'} e =
      let (s, t, o) = create_receiver-IsOpen u local remote log cb e in
      rw ((run_open r log' s t cs o).1)
        (omega (arith, create_receiver-sessions cb e, sessions-written t cs log'))

  -- When the stream cannot be created the constructor throws and no destructor runs: the session that
  -- it had created stays alive.
  pub failed_receiver_leaks :
      (cb : Callback) {log' : Log}
      → create_receiver u local remote cb log ≡ (err stream_failed, log')
      → sessions log' ≡ sessions log + 1
  unfolding create_receiver create_session init_rtp create_stream fresh install_receive_hook
  failed_receiver_leaks cb e = ground arith

  pub failed_sender_leaks :
      {log' : Log}
      → create_sender u local remote log ≡ (err stream_failed, log')
      → sessions log' ≡ sessions log + 1
  unfolding create_sender create_session init_rtp create_stream fresh
  failed_sender_leaks e = ground arith

  -- With no session there is nothing to leave.
  pub failed_session_balanced :
      {log' : Log}
      → create_sender u local remote log ≡ (err session_failed, log')
      → sessions log' ≡ sessions log
  unfolding create_sender create_session init_rtp create_stream fresh
  failed_session_balanced e = ground arith

  -- What a receiver comes to when the library gives a session and no stream.
  pub receiver_without_stream :
      (cb : Callback) (s f : ℕ)
      → u.crypto_enabled ≡ true
      → cb.hook ≡ some f
      → u.new_session log ≡ some s
      → ((log' : Log) → u.new_stream log' ≡ none)
      → (log' : Log) × (create_receiver u local remote cb log ≡ (err stream_failed, log'))
  unfolding create_receiver create_session init_rtp create_stream fresh install_receive_hook
  receiver_without_stream cb s f crypto hook session stream =
      let log' = session_created local.0 remote.0 (some s) ∷ log in
      (
        stream_created s local.1 remote.1 default_recv_flags none ∷ log',
        ground (arith, stream log'),
      )
