-- ===== src/Server/Encode.antt =====
-- `Server::bytes_to_opus` and the data callback (src/server.cpp). libopus is a parameter.
pub mod Upmix
pub mod Fragments
pub mod Frame
pub mod Packets
pub mod Memory
mod Tests
use audpipe_cpp.Prelude.{
  ℕ, zero, suc, ◌+◌, ◌*◌, Bool, ltb, ◌==◌, ◌||◌, if◌then◌else◌, Option, none, some, List, [], ◌∷◌,
  length, take, replicate, set, ℤ, pos, negsuc, Result, ok, err, ◌>>=◌,
}
use audpipe_cpp.Audio.{AudioDevice}
use audpipe_cpp.Rtp.{Rtp, write_frames}
use audpipe_cpp.Rtp.Library.{Log}

-- `opus_encode` of 960 samples of two channels: the state, the samples that it reads, the output
-- buffer and the most bytes that it may write there. It gives a length or a negative error.
pub record Opus : Type 1 where
  pub Encoder : Type 0
  pub encode : Encoder → List ℕ → List ℕ → ℕ → Encoder × ℤ × List ℕ

abbrev pub opus_frame_size : ℕ
opus_frame_size = 3840

-- The samples of `len` bytes, read as `opus_int16` on a little-endian machine. A sample is only
-- moved, so its bit pattern stands for it.
abbrev pub samples : List ℕ → List ℕ
samples [] = []
samples (low ∷ []) = []
samples (low ∷ high ∷ rest) = (low + 256 * high) ∷ samples rest

-- The first `n` samples behind a pointer.
pub read_samples : ℕ → List ℕ → List ℕ
read_samples n input = take n input

-- `for (i = 0; i < 960; i++)`, over the samples `in[i..960)`.
pub upmix : List ℕ → (i : ℕ) → List ℕ → List ℕ
upmix [] i buf = buf
upmix (sample ∷ rest) i buf = upmix rest (i + 1) (set (set buf (2 * i) sample) (2 * i + 1) sample)

pub data Error : Type 0 where
  encode_failed : Error

module _ (lib : Opus) where
  open lib use {Encoder, encode}

  -- The members that the callback works on.
  pub record Capture : Type 0 where
    pub device : AudioDevice
    pub opusenc : Encoder
    pub opus_enc_outbuf : List ℕ
    pub opus_enc_outbuf_size : ℕ
    pub pcm_stereo_buf : List ℕ

  -- An exception, with the members as it leaves them.
  abbrev pub Thrown : Type 0
  Thrown = Error × Capture

  abbrev pub check_length : ℤ → Capture → Result Thrown Capture
  check_length (negsuc n) s = err (encode_failed, s)
  check_length (pos n) s = ok (record s { opus_enc_outbuf_size = n })

  -- The call of the encoder and the check of its result.
  pub encode_samples : List ℕ → Capture → Result Thrown Capture
  encode_samples encode_in s =
      let (opusenc, res, outbuf) = encode s.opusenc encode_in s.opus_enc_outbuf opus_frame_size in
      check_length res (record s { opusenc = opusenc; opus_enc_outbuf = outbuf })

  -- What is encoded: 960 samples of two channels. A mono capture is doubled; any other is read as
  -- if it were stereo.
  pub encode_capture : List ℕ → Capture → Result Thrown Capture
  encode_capture input s =
      if s.device.channels == 1
      then (if ltb (length input) 960
          then ok s
          else let stereo = upmix (read_samples 960 input) 0 s.pcm_stereo_buf in
            encode_samples stereo (record s { pcm_stereo_buf = stereo }))
      else (if ltb (length input) 1920 then ok s else encode_samples (read_samples 1920 input) s)

  -- `Server::bytes_to_opus`; the bytes are `none` for a null pointer.
  pub bytes_to_opus : Option (List ℕ) → Capture → Result Thrown Capture
  bytes_to_opus none s = ok (record s { opus_enc_outbuf_size = 0 })
  bytes_to_opus (some bytes) s =
      if ltb (length bytes) 2
      then ok (record s { opus_enc_outbuf_size = 0 })
      else encode_capture (samples bytes) (record s {
        opus_enc_outbuf_size = 0;
        opus_enc_outbuf = replicate (length s.opus_enc_outbuf) 0;
      })

  -- The data callback: the frame that was encoded, if any, goes to RTP.
  unfoldable pub data_callback :
      Rtp → Option (List ℕ) → Capture × Log → Result Thrown (Capture × Log)
  data_callback rtp bytes (s, log) = do
    s' ← bytes_to_opus bytes s
    ok (
      s',
      if s'.opus_enc_outbuf_size == 0
          then log
          else write_frames rtp (take s'.opus_enc_outbuf_size s'.opus_enc_outbuf) log,
    )
