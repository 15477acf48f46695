-- ===== src/Server/Object.antt =====
-- The constructor, `run`, `stop` and the destructor of `Server` (src/server.cpp).
pub mod Lifetime
pub mod Handles
pub mod Sending
pub mod Memory
mod Tests
use audpipe_cpp.Prelude.{
  ℕ, String, Bool, true, false, Option, none, some, List, [], ◌∷◌, ◌*◌, replicate, ok, err, Result,
}
use audpipe_cpp.Audio.{AudioDevice}
use audpipe_cpp.Backend.{Backend, stop_recording}
use audpipe_cpp.Backend.Recording
use audpipe_cpp.Rtp
use audpipe_cpp.Rtp.{Rtp, create_sender}
use audpipe_cpp.Rtp.Library.{Uvg, Log}
use audpipe_cpp.Server.Encode.{Opus, Capture, Error, Thrown, opus_frame_size, data_callback}

-- Why the constructor throws.
pub data Failure : Type 0 where
  rtp_failed : Rtp.Error → Failure
  encoder_failed : Failure

module _ (lib : Opus) where
  pub record Server : Type 0 where
    pub capture : Capture lib
    pub running : Bool
    pub rtp : Rtp

  -- The members once the encoder is there.
  abbrev pub fresh : AudioDevice → lib.Encoder → Rtp → Server
  fresh device opusenc rtp = record {
    capture = record {
      device = device;
      opusenc = opusenc;
      opus_enc_outbuf = replicate opus_frame_size 0;
      opus_enc_outbuf_size = 0;
      pcm_stereo_buf = replicate (960 * 2) 0;
    };
    running = false;
    rtp = rtp;
  }

  -- The body of the constructor. An exception leaves it after the `Rtp` member was constructed, which
  -- is therefore destroyed.
  pub set_up : AudioDevice → Option lib.Encoder → Rtp → Log → Result Failure Server × Log
  set_up device none rtp log = (err encoder_failed, (Rtp.stop rtp log).1)
  set_up device (some opusenc) rtp log = (ok (fresh device opusenc rtp), log)

  abbrev pub after_sender :
      AudioDevice → Option lib.Encoder → Result Rtp.Error Rtp × Log → Result Failure Server × Log
  after_sender device encoder (err e, log) = (err (rtp_failed e), log)
  after_sender device encoder (ok rtp, log) = set_up device encoder rtp log

  -- The constructor; `encoder` is what `opus_encoder_create` gives.
  pub create :
      Uvg
      → Option lib.Encoder
      → (local remote : String × ℕ) → AudioDevice
      → Log
      → Result Failure Server × Log
  create u encoder local remote device log =
      after_sender device encoder (create_sender u local remote log)

  -- `Server::run`: the recording of the audio backend, which may throw or wait on.
  abbrev pub stop_running : Recording.Ending → Server → Server
  stop_running Recording.waiting s = record s { running = true }
  stop_running Recording.returned s = record s { running = false }
  stop_running (Recording.threw fault) s = record s { running = false }

  pub run :
      Recording.Script → Server × Recording.State → Recording.Ending × Server × Recording.State
  run script (s, recorder) =
      let (ending, recorder') = Recording.record_device script s.capture.device recorder in
      (ending, stop_running ending s, recorder')

  -- `Server::stop`
  pub stop : Server × Backend × Log → Server × Backend × Log
  stop (s, b, log) =
      let (rtp, log') = Rtp.stop s.rtp log in
      (record s { running = false; rtp = rtp }, stop_recording b, log')

  -- The destructor: `stop`, and then the member `rtp` is destroyed. The encoder is freed.
  pub destroy : Server × Backend × Log → Backend × Log
  destroy state = let (s, b, log) = stop state in (b, (Rtp.stop s.rtp log).1)

  -- What an exception of the data callback leaves the recording and `run` with, if there is one, next
  -- to the server and the log.
  abbrev pub Captured : Type 0
  Captured = Option Error × Server × Log

  -- What follows a call of the data callback.
  abbrev pub carry_on :
      (Server × Log → Captured) → Server → Log → Result (Thrown lib) (Capture lib × Log) → Captured
  carry_on next s log (err (e, capture)) = (some e, record s { capture = capture }, log)
  carry_on next s log (ok (capture, log')) = next (record s { capture = capture }, log')

  -- The fragments that the audio backend hands over, in order, up to one whose encoding throws.
  pub capture_all : Server × Log → List (Option (List ℕ)) → Captured
  capture_all (s, log) [] = (none, s, log)
  capture_all (s, log) (bytes ∷ rest) =
      carry_on (λ state. capture_all state rest) s log
        (data_callback lib s.rtp bytes (s.capture, log))
