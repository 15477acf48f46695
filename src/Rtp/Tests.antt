-- ===== src/Rtp/Tests.antt =====
-- src/rtp.cpp at concrete inputs.
use audpipe_cpp.Prelude.{ℕ, String, ◌≡◌, refl, true, false, none, some, List, [], ◌∷◌, ok}
use audpipe_cpp.Rtp.Library.{
  Uvg, Log, session_created, stream_created, hook_installed, frame_pushed, stream_destroyed,
  session_destroyed,
}
use audpipe_cpp.Rtp.{
  Rtp, Callback, create_sender, create_receiver, init_rtp, create_session, create_stream, fresh,
  install_receive_hook, write_frames, stop, writes, stops, Call, step, run, default_send_flags,
  default_recv_flags,
}
use audpipe_cpp.Rtp.Lifecycle.{IsClosed, written, run_open}

-- A library that hands out session 5 and stream 6, and one that creates no stream.
abbrev working : Uvg
working = record { crypto_enabled = true; new_session = λ log. some 5; new_stream = λ log. some 6 }

abbrev no_streams : Uvg
no_streams = record { crypto_enabled = true; new_session = λ log. some 5; new_stream = λ log. none }

abbrev here : String × ℕ
here = ("::1", 7981)

abbrev there : String × ℕ
there = ("::1", 8179)

abbrev hook : Callback
hook = record { hook = some 1; userdata = 2 }

abbrev sender : Rtp
sender = record {
  recv_callback = record { hook = none; userdata = 0 };
  session = some 5;
  stream = some 6;
  stopped = false;
}

abbrev sender_log : Log
sender_log =
    stream_created 5 7981 8179 default_send_flags (some 6)
    ∷ session_created "::1" "::1" (some 5)
    ∷ []

sender_runs : create_sender working here there [] ≡ (ok sender, sender_log)
unfolding create_sender create_session init_rtp create_stream fresh
sender_runs = refl

abbrev receiver_log : Log
receiver_log =
    hook_installed 6 (some 1) 2
    ∷ stream_created 5 7981 8179 default_recv_flags (some 6)
    ∷ session_created "::1" "::1" (some 5)
    ∷ []

receiver_runs :
    create_receiver working here there hook []
    ≡ (ok (record sender { recv_callback = hook }), receiver_log)
unfolding create_receiver create_session init_rtp create_stream fresh install_receive_hook
receiver_runs = refl

-- A frame, a stop, a frame that comes too late, and a second stop.
abbrev calls : List Call
calls = writes (1 ∷ []) ∷ stops ∷ writes (2 ∷ []) ∷ stops ∷ []

calls-run :
    (run (sender, []) calls).1
    ≡ session_destroyed 5 ∷ stream_destroyed 5 6 ∷ frame_pushed 6 (1 ∷ []) ∷ []
unfolding run step write_frames stop
calls-run = refl

run_open_example :
    let (r', log') = run (sender, []) calls in
    let (q, final) = stop r' log' in
    IsClosed q × (final ≡ session_destroyed 5 ∷ stream_destroyed 5 6 ∷ frame_pushed 6 (1 ∷ []) ∷ [])
unfolding written
run_open_example = run_open sender [] 5 6 calls (refl, refl, refl)

abbrev failed_log : Log
failed_log =
    stream_created 5 7981 8179 default_recv_flags none ∷ session_created "::1" "::1" (some 5) ∷ []
