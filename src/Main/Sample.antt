-- ===== src/Main/Sample.antt =====
-- A server, a client and two fragments, for the tests.
use audpipe_cpp.Prelude.{ℕ, ◌+◌, ◌≡◌, refl, true, false, some, none, List, [], ◌∷◌, replicate, pos}
use audpipe_cpp.Audio.{AudioDevice}
use audpipe_cpp.Config.{default_policy}
use audpipe_cpp.Server.Encode
use audpipe_cpp.Server.Encode.Packets.{packets}
use audpipe_cpp.Server.Object
use audpipe_cpp.Server.Object.{Server, capture_all}
use audpipe_cpp.Server.Object.Sending.{packets_of}
use audpipe_cpp.Client.State
use audpipe_cpp.Client.State.{Client}
use audpipe_cpp.Client.Receive.{Frame}
use audpipe_cpp.Client.Playback

-- An encoder that numbers its packets, and a decoder that repeats the number.
abbrev pub encoder : Encode.Opus
encoder = record { Encoder = ℕ; encode = λ enc input out size. (enc + 1, pos 2, 8 ∷ enc ∷ []) }

abbrev pub second_byte : List ℕ → List ℕ
second_byte [] = []
second_byte (x ∷ []) = []
second_byte (x ∷ y ∷ rest) = y ∷ y ∷ y ∷ y ∷ []

abbrev pub decoder : Playback.Opus
decoder = record { Decoder = ℕ; decode = λ dec frame out. (dec, pos 1, second_byte frame) }

abbrev pub microphone : AudioDevice
microphone = record {
  name = "mic";
  description = "Microphone";
  index = 3;
  sample_rate = 48000;
  channels = 1;
  is_monitor = false;
  is_default = false;
  is_source = true;
}

abbrev pub server : Server encoder
server = Object.fresh encoder microphone 0 (record {
  recv_callback = record { hook = none; userdata = 0 };
  session = some 5;
  stream = some 6;
  stopped = false;
})

abbrev pub fragment : List ℕ
fragment = replicate 1920 3

abbrev pub frames : List Frame
frames =
    record { address = 10; payload = some (8 ∷ 0 ∷ []); payload_len = 2 }
    ∷ record { address = 11; payload = some (8 ∷ 1 ∷ []); payload_len = 2 }
    ∷ []

abbrev pub client : Client
client = State.fresh default_policy

pub sent :
    packets_of encoder server.capture (fragment ∷ fragment ∷ []) ≡ (8 ∷ 0 ∷ []) ∷ (8 ∷ 1 ∷ []) ∷ []
unfolding packets
sent = refl
