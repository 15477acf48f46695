-- ===== src/Server/Encode/Packets.antt =====
-- The packets that a server makes of whole fragments, one after the other (src/server.cpp).
use audpipe_cpp.Prelude.{
  subst, ℕ, zero, suc, ◌*◌, ◌≤◌, ◌≡◌, refl, sym, ap, ◌∙◌, false, Bool-cases, inl, inr, some, List,
  [], ◌∷◌, length, take, if◌then◌else◌, ltb, ◌==◌, replicate, ℤ, pos, negsuc, Result, ok, err,
  ◌>>=◌, arith,
}
use audpipe_cpp.Audio.{AudioDevice}
use audpipe_cpp.Rtp.{Rtp, write_frames}
use audpipe_cpp.Rtp.Library.{Log, frame_pushed}
use audpipe_cpp.Rtp.Lifecycle.{IsOpen, write_frames_open}
use audpipe_cpp.Server.Encode.{
  Opus, Capture, check_length, Thrown, encode_failed, samples, read_samples, opus_frame_size,
  encode_samples, encode_capture, bytes_to_opus, data_callback, upmix,
}
use audpipe_cpp.Server.Encode.Upmix.{doubled, length-upmix, upmix-doubled}
use audpipe_cpp.Server.Encode.Fragments.{length-samples}
use audpipe_cpp.Server.Encode.Frame.{length-read_samples}

-- The bytes and the stereo samples of a frame of a device.
abbrev pub device_samples : AudioDevice → ℕ
device_samples device = if device.channels == 1 then 960 else 1920

abbrev pub frame_input : AudioDevice → List ℕ → List ℕ
frame_input device input =
    if device.channels == 1 then doubled (read_samples 960 input) else read_samples 1920 input

module _ (lib : Opus) where
  -- What the encoder's result adds: an error ends the recording, a length of 0 adds nothing.
  abbrev pub add_packet : ℤ → List ℕ → (later : List (List ℕ)) → List (List ℕ)
  add_packet (negsuc n) out later = []
  add_packet (pos zero) out later = later
  add_packet (pos (suc n)) out later = take (suc n) out ∷ later

  -- One call of the encoder for each fragment, on a cleared buffer of the size of the last one.
  unfoldable pub packets : AudioDevice → lib.Encoder → (size : ℕ) → List (List ℕ) → List (List ℕ)
  packets device enc size [] = []
  packets device enc size (bytes ∷ rest) =
      let (enc', res, out) =
        lib.encode enc (frame_input device (samples bytes)) (replicate size 0) opus_frame_size in
      add_packet res out (packets device enc' (length out) rest)

  -- The members that the next call works on.
  abbrev pub IsReady : AudioDevice → lib.Encoder → ℕ → Capture lib → Type 0
  IsReady device enc size s =
      (s.device ≡ device)
      × (s.opusenc ≡ enc)
      × (length s.opus_enc_outbuf ≡ size)
      × (length s.pcm_stereo_buf ≡ 1920)

  enough : (n k : ℕ) → k ≤ n → ltb n k ≡ false
  enough n k h = ground arith

  -- The stereo buffer of a mono capture is filled, that of any other stays.
  encode_capture_whole :
      (input : List ℕ) (s : Capture lib)
      → length s.pcm_stereo_buf ≡ 1920
      → device_samples s.device ≤ length input
      → (buf : List ℕ) × (length buf ≡ 1920)
        × (encode_capture lib input s
            ≡ encode_samples lib (frame_input s.device input) (record s { pcm_stereo_buf = buf }))
  unfolding encode_capture
  encode_capture_whole input s size h = elim (Bool-cases (s.device.channels == 1)) [
    | inl mono ↦
        let few : 960 ≤ length input = ground arith in
        let stereo = upmix (read_samples 960 input) 0 s.pcm_stereo_buf in
        let same : stereo ≡ doubled (read_samples 960 input) =
          upmix-doubled (read_samples 960 input) s.pcm_stereo_buf
            (omega (arith, length-read_samples 960 input few)) in
        (
          stereo,
          length-upmix (read_samples 960 input) 0 s.pcm_stereo_buf ∙ size,
          rw (mono, enough (length input) 960 few)
              (ap (λ samples. encode_samples lib samples (record s { pcm_stereo_buf = stereo }))
                same),
        )
    | inr other ↦
        let few : 1920 ≤ length input = ground arith in
        (s.pcm_stereo_buf, size, rw (other, enough (length input) 1920 few) refl)
  ]

  -- What the data callback comes to: an exception, or a packet for an `Rtp` that is open, and members
  -- that are ready for the next call.
  abbrev pub Stepped :
      AudioDevice
      → lib.Encoder × ℤ × List ℕ
      → ℕ
      → Log
      → Result (Thrown lib) (Capture lib × Log)
      → Type 0
  Stepped device (enc, negsuc n, out) stream log r =
      (c : Capture lib) × (r ≡ err (encode_failed, c))
  Stepped device (enc, pos zero, out) stream log r =
      (s : Capture lib) × (r ≡ ok (s, log)) × IsReady device enc (length out) s
  Stepped device (enc, pos (suc n), out) stream log r =
      (s : Capture lib) × (r ≡ ok (s, frame_pushed stream (take (suc n) out) ∷ log))
      × IsReady device enc (length out) s

  hand_over : Rtp → Log → Capture lib → Result (Thrown lib) (Capture lib × Log)
  hand_over rtp log s = ok (
    s,
    if s.opus_enc_outbuf_size == 0
        then log
        else write_frames rtp (take s.opus_enc_outbuf_size s.opus_enc_outbuf) log,
  )

  nonzero : (n : ℕ) → (suc n == 0) ≡ false
  nonzero n = ground arith

  check_length-Stepped :
      (rtp : Rtp) (session stream : ℕ) (log : Log) (s : Capture lib) (res : ℤ)
      → IsOpen rtp session stream
      → length s.pcm_stereo_buf ≡ 1920
      → Stepped s.device
          (s.opusenc, res, s.opus_enc_outbuf)
          stream
          log
          (check_length lib res s >>= hand_over rtp log)
  unfolding hand_over
  check_length-Stepped rtp session stream log s (negsuc n) o size = (s, refl)
  check_length-Stepped rtp session stream log s (pos zero) o size =
      (record s { opus_enc_outbuf_size = 0 }, refl, (refl, refl, refl, size))
  check_length-Stepped rtp session stream log s (pos (suc n)) o size = (
    record s { opus_enc_outbuf_size = suc n },
    rw (nonzero n, write_frames_open rtp log session stream (take (suc n) s.opus_enc_outbuf) o)
        refl,
    (refl, refl, refl, size),
  )

  encode_samples-Stepped :
      (rtp : Rtp) (session stream : ℕ) (log : Log) (s : Capture lib) (input : List ℕ)
      → IsOpen rtp session stream
      → length s.pcm_stereo_buf ≡ 1920
      → Stepped s.device
          (lib.encode s.opusenc input s.opus_enc_outbuf opus_frame_size)
          stream
          log
          (encode_samples lib input s >>= hand_over rtp log)
  unfolding encode_samples
  encode_samples-Stepped rtp session stream log s input o size =
      let (enc, res, out) = lib.encode s.opusenc input s.opus_enc_outbuf opus_frame_size in
      check_length-Stepped rtp session stream log
        (record s { opusenc = enc; opus_enc_outbuf = out }) res o size

  at_least_two : (n k : ℕ) → 960 ≤ k → 2 * k ≤ n → ltb n 2 ≡ false
  at_least_two n k h m = ground arith

  device_samples-ge : (device : AudioDevice) → 960 ≤ device_samples device
  device_samples-ge device = elim (Bool-cases (device.channels == 1)) [
    | inl mono ↦ rw mono (omega arith)
    | inr other ↦ rw other (omega arith)
  ]

  cleared_lem :
      (bytes : List ℕ) (s : Capture lib)
      → 2 * device_samples s.device ≤ length bytes
      → bytes_to_opus lib (some bytes) s
        ≡ encode_capture lib (samples bytes) (record s {
          opus_enc_outbuf_size = 0;
          opus_enc_outbuf = replicate (length s.opus_enc_outbuf) 0;
        })
  unfolding bytes_to_opus
  cleared_lem bytes s h =
      rw (at_least_two (length bytes) (device_samples s.device) (device_samples-ge s.device) h) refl

  -- A whole fragment, the `Rtp` being open.
  pub data_callback-Stepped :
      (rtp : Rtp) (session stream : ℕ) (log : Log) (s : Capture lib) (bytes : List ℕ)
      → IsOpen rtp session stream
      → length s.pcm_stereo_buf ≡ 1920
      → 2 * device_samples s.device ≤ length bytes
      → Stepped s.device
          (lib.encode s.opusenc
            (frame_input s.device (samples bytes))
            (replicate (length s.opus_enc_outbuf) 0)
            opus_frame_size)
          stream
          log
          (data_callback lib rtp (some bytes) (s, log))
  unfolding data_callback hand_over
  data_callback-Stepped rtp session stream log s bytes o size h =
      let cleared : Capture lib = record s {
        opus_enc_outbuf_size = 0;
        opus_enc_outbuf = replicate (length s.opus_enc_outbuf) 0;
      } in
      let (buf, full, whole) =
        encode_capture_whole (samples bytes) cleared size (omega (arith, length-samples bytes)) in
      let same = cleared_lem bytes s h ∙ whole in
      subst
        (λ (r : Result (Thrown lib) (Capture lib)).
          Stepped s.device
            (lib.encode s.opusenc (frame_input s.device (samples bytes))
              (replicate (length s.opus_enc_outbuf) 0) opus_frame_size)
            stream log (r >>= hand_over rtp log))
        (sym same)
        (encode_samples-Stepped rtp session stream log (record cleared { pcm_stereo_buf = buf })
          (frame_input s.device (samples bytes)) o full)
