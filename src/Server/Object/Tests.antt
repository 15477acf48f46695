-- ===== src/Server/Object/Tests.antt =====
-- A server at concrete fragments (src/server.cpp).
use audpipe_cpp.Prelude.{
  ℕ, String, ◌+◌, ◌≡◌, refl, true, false, some, none, Option, List, [], ◌∷◌, pos, ok, err,
  replicate, arith,
}
use audpipe_cpp.Audio.{AudioDevice}
use audpipe_cpp.Rtp
use audpipe_cpp.Rtp.{
  Rtp, create_sender, init_rtp, create_session, create_stream, default_send_flags,
}
use audpipe_cpp.Rtp.Library.{
  Uvg, Log, session_created, stream_created, stream_destroyed, session_destroyed,
}
use audpipe_cpp.Server.Encode.{Opus, opus_frame_size}
use audpipe_cpp.Server.Object.{encoder_failed, fresh, set_up, create, Captured, capture_all}
use audpipe_cpp.Server.Object.Memory.{captured-IsWithin}
use audpipe_cpp.Server.Encode.Memory.{EncodesInPlace, IsWithin}
use audpipe_cpp.Rtp.Frames.{AllFit}

abbrev codec : Opus
codec = record { Encoder = ℕ; encode = λ enc input out size. (enc + 1, pos 2, 8 ∷ 9 ∷ []) }

abbrev working : Uvg
working = record { crypto_enabled = true; new_session = λ log. some 5; new_stream = λ log. some 6 }

abbrev here : String × ℕ
here = ("::1", 7981)

abbrev there : String × ℕ
there = ("::1", 8179)

abbrev microphone : AudioDevice
microphone = record {
  name = "mic";
  description = "Microphone";
  index = 3;
  sample_rate = 48000;
  channels = 1;
  is_monitor = false;
  is_default = false;
  is_source = true;
}

abbrev sender : Rtp
sender = record {
  recv_callback = record { hook = none; userdata = 0 };
  session = some 5;
  stream = some 6;
  stopped = false;
}

abbrev sender_log : Log
sender_log =
    stream_created 5 7981 8179 default_send_flags (some 6)
    ∷ session_created "::1" "::1" (some 5)
    ∷ []

abbrev fragments : List (Option (List ℕ))
fragments = some (1 ∷ 0 ∷ []) ∷ none ∷ []

created :
    create codec working (some 0) here there microphone []
    ≡ (ok (fresh codec microphone 0 sender), sender_log)
unfolding create set_up create_sender create_session init_rtp create_stream Rtp.fresh
created = refl

abbrev ended_log : Log
ended_log = session_destroyed 5 ∷ stream_destroyed 5 6 ∷ sender_log

not_created : create codec working none here there microphone [] ≡ (err encoder_failed, ended_log)
unfolding create set_up create_sender create_session init_rtp create_stream Rtp.fresh Rtp.stop
not_created = refl

-- An encoder that leaves the output buffer as it is.
abbrev steady : Opus
steady = record { Encoder = ℕ; encode = λ enc input out size. (enc + 1, pos 2, out) }

steady-EncodesInPlace : EncodesInPlace steady
steady-EncodesInPlace = record {
  size = λ enc input out full size. omega arith;
  same_length = λ enc input out full size. size;
}

-- A whole fragment, none, and one that is too short.
abbrev captured : Captured steady
captured =
    capture_all steady (fresh steady microphone 0 sender, sender_log)
      (some (replicate 1920 3) ∷ none ∷ some (1 ∷ 0 ∷ []) ∷ [])

captured-IsWithin_example : IsWithin steady captured.1.capture × AllFit opus_frame_size captured.2
captured-IsWithin_example =
    captured-IsWithin steady steady-EncodesInPlace microphone 0 sender sender_log
      (some (replicate 1920 3) ∷ none ∷ some (1 ∷ 0 ∷ []) ∷ []) (tt, (tt, tt))
