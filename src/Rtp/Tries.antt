-- ===== src/Rtp/Tries.antt =====
-- How often uvgRTP was asked for a session (src/rtp.cpp).
use audpipe_cpp.Prelude.{ℕ, String, ◌+◌, ◌≡◌, ◌⊎◌, false, none, [], ◌∷◌, Result, err, arith}
use audpipe_cpp.Rtp.Library.{
  Uvg, Log, session_created, stream_created, hook_installed, frame_pushed, stream_destroyed,
  session_destroyed,
}
use audpipe_cpp.Rtp.{
  Rtp, Error, Callback, assertion, create_sender, create_receiver, create_session, init_rtp,
  create_stream, fresh, install_receive_hook,
}

-- The sessions that were asked for, one for each attempt.
abbrev pub tries : Log → ℕ
tries [] = 0
tries (session_created local remote s ∷ log) = tries log + 1
tries (stream_created s local remote flags t ∷ log) = tries log
tries (hook_installed t hook userdata ∷ log) = tries log
tries (frame_pushed t bytes ∷ log) = tries log
tries (stream_destroyed s t ∷ log) = tries log
tries (session_destroyed s ∷ log) = tries log

pub create_receiver-tries :
    (u : Uvg) (local remote : String × ℕ) (cb : Callback) (log : Log) {made : Result Error Rtp}
    {log' : Log}
    → create_receiver u local remote cb log ≡ (made, log')
    → tries log' ≡ tries log + 1
unfolding create_receiver create_session init_rtp create_stream install_receive_hook fresh
create_receiver-tries u local remote cb log e = ground arith

pub create_receiver-assertion :
    (u : Uvg) (local remote : String × ℕ) (cb : Callback) (log : Log)
    → (create_receiver u local remote cb log).0 ≡ err assertion
    → (u.crypto_enabled ≡ false) ⊎ (cb.hook ≡ none)
unfolding create_receiver create_session init_rtp create_stream install_receive_hook fresh
create_receiver-assertion u local remote cb log e = ground arith

pub create_sender-assertion :
    (u : Uvg) (local remote : String × ℕ) (log : Log) {log' : Log}
    → create_sender u local remote log ≡ (err assertion, log')
    → u.crypto_enabled ≡ false
unfolding create_sender create_session init_rtp create_stream install_receive_hook fresh
create_sender-assertion u local remote log e = ground arith
