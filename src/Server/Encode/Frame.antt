-- ===== src/Server/Encode/Frame.antt =====
-- What a fragment that holds a whole frame makes the server send (src/server.cpp).
use audpipe_cpp.Prelude.{
  ℕ, zero, suc, ◌*◌, ◌≤◌, ◌≡◌, refl, ap, ◌∙◌, true, false, some, List, ◌∷◌, length, take,
  length-take, if◌then◌else◌, ltb, ◌==◌, replicate, ℤ, pos, negsuc, Result, ok, err, arith,
  Bool-cases, inl, inr, ◌>>=◌, Option,
}
use audpipe_cpp.Rtp.{Rtp, write_frames}
use audpipe_cpp.Rtp.Library.{Log, frame_pushed}
use audpipe_cpp.Rtp.Lifecycle.{IsOpen, write_frames_open}
use audpipe_cpp.Server.Encode.{
  Opus, Capture, check_length, Error, Thrown, encode_failed, samples, read_samples, opus_frame_size,
  encode_samples, encode_capture, bytes_to_opus, data_callback,
}
use audpipe_cpp.Server.Encode.Upmix.{doubled, upmix-doubled}
use audpipe_cpp.Server.Encode.Fragments.{
  frame_samples, frame_bytes, length-samples, frame_bytes-pos,
}

pub length-read_samples :
    (n : ℕ) (input : List ℕ) → n ≤ length input → length (read_samples n input) ≡ n
unfolding read_samples
length-read_samples n input h = omega (arith, length-take n input)

module _ (lib : Opus) where
  -- The stereo samples of a frame: those of a mono capture doubled, those of any other as they are.
  abbrev pub stereo_of : Capture lib → List ℕ → List ℕ
  stereo_of s input =
      if s.device.channels == 1 then doubled (read_samples 960 input) else read_samples 1920 input

  -- The frame that is ready to be sent, if the call returned.
  abbrev pub frame_ready : Result (Thrown lib) (Capture lib) → Result Error (ℕ × List ℕ)
  frame_ready (err (e, s)) = err e
  frame_ready (ok s) = ok (s.opus_enc_outbuf_size, s.opus_enc_outbuf)

  abbrev pub frame_of : ℤ → List ℕ → Result Error (ℕ × List ℕ)
  frame_of (pos n) out = ok (n, out)
  frame_of (negsuc n) out = err encode_failed

  check_length-frame :
      (res : ℤ) (s : Capture lib)
      → frame_ready (check_length lib res s) ≡ frame_of res s.opus_enc_outbuf
  check_length-frame (pos n) s = refl
  check_length-frame (negsuc n) s = refl

  encode_samples-frame :
      (input : List ℕ) (s : Capture lib)
      → frame_ready (encode_samples lib input s)
        ≡ frame_of
            (lib.encode s.opusenc input s.opus_enc_outbuf opus_frame_size).1
            (lib.encode s.opusenc input s.opus_enc_outbuf opus_frame_size).2
  unfolding encode_samples
  encode_samples-frame input s =
      check_length-frame (lib.encode s.opusenc input s.opus_enc_outbuf opus_frame_size).1
        (record s {
          opusenc = (lib.encode s.opusenc input s.opus_enc_outbuf opus_frame_size).0;
          opus_enc_outbuf = (lib.encode s.opusenc input s.opus_enc_outbuf opus_frame_size).2;
        })

  -- The frame that the encoder gives for the samples of a capture.
  abbrev pub result_of : Capture lib → List ℕ → Result Error (ℕ × List ℕ)
  result_of s stereo =
      frame_of (lib.encode s.opusenc stereo s.opus_enc_outbuf opus_frame_size).1
        (lib.encode s.opusenc stereo s.opus_enc_outbuf opus_frame_size).2

  enough : (n k : ℕ) → k ≤ n → ltb n k ≡ false
  enough n k h = ground arith

  encode_capture_mono :
      (input : List ℕ) (s : Capture lib)
      → (s.device.channels == 1) ≡ true
      → length s.pcm_stereo_buf ≡ 1920
      → 960 ≤ length input
      → frame_ready (encode_capture lib input s) ≡ result_of s (doubled (read_samples 960 input))
  unfolding encode_capture
  encode_capture_mono input s mono size h =
      rw
        (
          mono,
          enough (length input) 960 h,
          upmix-doubled (read_samples 960 input) s.pcm_stereo_buf fits,
        )
        (encode_samples-frame (doubled (read_samples 960 input))
          (record s { pcm_stereo_buf = doubled (read_samples 960 input) }))
    where
      fits : length s.pcm_stereo_buf ≡ 2 * length (read_samples 960 input)
      fits = omega (arith, length-read_samples 960 input h)

  encode_capture_other :
      (input : List ℕ) (s : Capture lib)
      → (s.device.channels == 1) ≡ false
      → 1920 ≤ length input
      → frame_ready (encode_capture lib input s) ≡ result_of s (read_samples 1920 input)
  unfolding encode_capture
  encode_capture_other input s other h =
      rw (other, enough (length input) 1920 h) (encode_samples-frame (read_samples 1920 input) s)

  encode_capture-frame :
      (input : List ℕ) (s : Capture lib)
      → length s.pcm_stereo_buf ≡ 1920
      → frame_samples lib s ≤ length input
      → frame_ready (encode_capture lib input s) ≡ result_of s (stereo_of s input)
  encode_capture-frame input s size h = elim (Bool-cases (s.device.channels == 1)) [
    | inl mono ↦ rw mono (encode_capture_mono input s mono size (ground arith))
    | inr other ↦ rw other (encode_capture_other input s other (ground arith))
  ]

  abbrev pub cleared : Capture lib → Capture lib
  cleared s = record s {
    opus_enc_outbuf_size = 0;
    opus_enc_outbuf = replicate (length s.opus_enc_outbuf) 0;
  }

  bytes_to_opus-frame :
      (bytes : List ℕ) (s : Capture lib)
      → length s.pcm_stereo_buf ≡ 1920
      → frame_bytes lib s ≤ length bytes
      → frame_ready (bytes_to_opus lib (some bytes) s)
        ≡ result_of (cleared s) (stereo_of s (samples bytes))
  unfolding bytes_to_opus
  bytes_to_opus-frame bytes s size h =
      let two = frame_bytes-pos lib s in
      rw (enough (length bytes) 2 (omega arith)) (
        encode_capture-frame (samples bytes) (cleared s) size (omega (arith, length-samples bytes)))

  abbrev pub log_of : Result (Thrown lib) (Capture lib × Log) → Result Error Log
  log_of (err (e, s)) = err e
  log_of (ok (s, log)) = ok log

  -- The log after a frame: a negative length throws, 0 sends nothing, any other is the length of the
  -- frame that is sent.
  abbrev pub sends : ℕ → ℤ → List ℕ → Log → Result Error Log
  sends stream (negsuc n) out log = err encode_failed
  sends stream (pos zero) out log = ok log
  sends stream (pos (suc n)) out log = ok (frame_pushed stream (take (suc n) out) ∷ log)

  abbrev hand_over : Rtp → Log → ℕ × List ℕ → Result Error Log
  hand_over rtp log (n, out) = ok (if n == 0 then log else write_frames rtp (take n out) log)

  data_callback-log :
      (rtp : Rtp) (bytes : Option (List ℕ)) (s : Capture lib) (log : Log)
      → log_of (data_callback lib rtp bytes (s, log))
        ≡ (frame_ready (bytes_to_opus lib bytes s) >>= hand_over rtp log)
  unfolding data_callback
  data_callback-log rtp bytes s log = by_result (bytes_to_opus lib bytes s)
    where
      by_result :
          (r : Result (Thrown lib) (Capture lib))
          → log_of (
              r >>= λ s'. ok (
                s',
                if s'.opus_enc_outbuf_size == 0
                    then log
                    else write_frames rtp (take s'.opus_enc_outbuf_size s'.opus_enc_outbuf) log,
              ))
            ≡ (frame_ready r >>= hand_over rtp log)
      by_result (err e) = refl
      by_result (ok s') = refl

  nonzero : (n : ℕ) → (suc n == 0) ≡ false
  nonzero n = ground arith

  hand_over-sends :
      (rtp : Rtp) (session stream : ℕ) (res : ℤ) (out : List ℕ) (log : Log)
      → IsOpen rtp session stream
      → (frame_of res out >>= hand_over rtp log) ≡ sends stream res out log
  hand_over-sends rtp session stream (negsuc n) out log o = refl
  hand_over-sends rtp session stream (pos zero) out log o = refl
  hand_over-sends rtp session stream (pos (suc n)) out log o =
      rw (nonzero n) (ap ok (write_frames_open rtp log session stream (take (suc n) out) o))

  -- A fragment that holds a whole frame, while the `Rtp` is open and the stereo buffer has its 1920
  -- places: the encoder is called once, on a cleared output buffer and on the first 960 samples of a
  -- mono capture, each doubled, or else on the first 1920 samples; what it gives is sent, and an error
  -- of it is thrown.
  full_fragment :
      (rtp : Rtp) (session stream : ℕ) (bytes : List ℕ) (s : Capture lib) (log : Log)
      → IsOpen rtp session stream
      → length s.pcm_stereo_buf ≡ 1920
      → frame_bytes lib s ≤ length bytes
      → let (enc, res, out) =
          lib.encode s.opusenc
            (stereo_of s (samples bytes))
            (replicate (length s.opus_enc_outbuf) 0)
            opus_frame_size in
        log_of (data_callback lib rtp (some bytes) (s, log)) ≡ sends stream res out log
  full_fragment rtp session stream bytes s log o size h =
      data_callback-log rtp (some bytes) s log
      ∙ ap (λ r. r >>= hand_over rtp log) (bytes_to_opus-frame bytes s size h)
      ∙ hand_over-sends rtp session stream
          (lib.encode s.opusenc (stereo_of s (samples bytes))
            (replicate (length s.opus_enc_outbuf) 0) opus_frame_size).1
          (lib.encode s.opusenc (stereo_of s (samples bytes))
            (replicate (length s.opus_enc_outbuf) 0) opus_frame_size).2
          log o
