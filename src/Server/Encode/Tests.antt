-- ===== src/Server/Encode/Tests.antt =====
-- src/server.cpp at concrete fragments.
use audpipe_cpp.Prelude.{
  ℕ, ◌+◌, ◌≡◌, refl, true, false, some, none, [], ◌∷◌, ◌++◌, replicate, length-replicate, pos,
  arith,
}
use audpipe_cpp.Audio.{AudioDevice}
use audpipe_cpp.Rtp.{Rtp}
use audpipe_cpp.Server.Encode.{Opus, Capture, upmix, data_callback}
use audpipe_cpp.Server.Encode.Upmix.{doubled, upmix-doubled}
use audpipe_cpp.Server.Encode.Fragments.{long_fragment}

-- A codec that gives frames of three bytes.
abbrev codec : Opus
codec = record { Encoder = ℕ; encode = λ enc input out size. (enc + 1, pos 3, 7 ∷ 8 ∷ 9 ∷ []) }

abbrev microphone : AudioDevice
microphone = record {
  name = "mic";
  description = "Microphone";
  index = 3;
  sample_rate = 48000;
  channels = 1;
  is_monitor = false;
  is_default = false;
  is_source = true;
}

abbrev capture : Capture codec
capture = record {
  device = microphone;
  opusenc = 0;
  opus_enc_outbuf = 0 ∷ 0 ∷ 0 ∷ [];
  opus_enc_outbuf_size = 2;
  pcm_stereo_buf = replicate 1920 0;
}

abbrev sender : Rtp
sender = record {
  recv_callback = record { hook = none; userdata = 0 };
  session = some 5;
  stream = some 6;
  stopped = false;
}

two_samples : upmix (1 ∷ 2 ∷ []) 0 (0 ∷ 0 ∷ 0 ∷ 0 ∷ []) ≡ 1 ∷ 1 ∷ 2 ∷ 2 ∷ []
unfolding upmix
two_samples = refl

upmix-doubled_example : upmix (1 ∷ 2 ∷ []) 0 (0 ∷ 0 ∷ 0 ∷ 0 ∷ []) ≡ doubled (1 ∷ 2 ∷ [])
upmix-doubled_example = upmix-doubled (1 ∷ 2 ∷ []) (0 ∷ 0 ∷ 0 ∷ 0 ∷ []) refl

long_fragment_example :
    data_callback codec sender (some (replicate 1920 1 ++ 2 ∷ 0 ∷ [])) (capture, [])
    ≡ data_callback codec sender (some (replicate 1920 1)) (capture, [])
long_fragment_example =
    long_fragment codec sender (replicate 1920 1) (2 ∷ 0 ∷ []) capture []
      (omega (arith, length-replicate {A = ℕ} 1920 1))
