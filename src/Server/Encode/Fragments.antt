-- ===== src/Server/Encode/Fragments.antt =====
-- What one fragment of captured audio makes the server send (src/server.cpp).
use audpipe_cpp.Prelude.{
  ℕ, zero, suc, ◌+◌, ◌*◌, ◌≤◌, ◌<◌, ◌≡◌, refl, ap, false, some, List, [], ◌∷◌, ◌++◌, length,
  length-append, if_both, if◌then◌else◌, ltb, ◌==◌, replicate, ok, arith,
}
use audpipe_cpp.Rtp.{Rtp}
use audpipe_cpp.Rtp.Library.{Log}
use audpipe_cpp.Server.Encode.{
  Opus, Capture, samples, read_samples, encode_capture, bytes_to_opus, data_callback,
}

pub length-samples :
    (bytes : List ℕ)
    → (2 * length (samples bytes) ≤ length bytes) × (length bytes ≤ 2 * length (samples bytes) + 1)
length-samples [] = omega arith
length-samples (b ∷ []) = omega arith
length-samples (a ∷ b ∷ bytes) = omega (arith, length-samples bytes)

read_samples-append :
    (n : ℕ) (bytes extra : List ℕ)
    → 2 * n ≤ length bytes
    → read_samples n (samples (bytes ++ extra)) ≡ read_samples n (samples bytes)
unfolding read_samples
read_samples-append zero bytes extra h = refl
read_samples-append (suc n) [] extra h = absurd (omega arith)
read_samples-append (suc n) (b ∷ []) extra h = absurd (omega arith)
read_samples-append (suc n) (a ∷ b ∷ bytes) extra h =
    ap (λ r. (a + 256 * b) ∷ r) (read_samples-append n bytes extra (omega arith))

module _ (lib : Opus) where
  -- The samples and the bytes of a frame, in the channels that the device has.
  abbrev pub frame_samples : Capture lib → ℕ
  frame_samples s = if s.device.channels == 1 then 960 else 1920

  abbrev pub frame_bytes : Capture lib → ℕ
  frame_bytes s = 2 * frame_samples s

  encode_capture_short :
      (input : List ℕ) (s : Capture lib)
      → length input < frame_samples s
      → encode_capture lib input s ≡ ok s
  unfolding encode_capture
  encode_capture_short input s h = ground arith

  encode_capture_long :
      (input longer : List ℕ) (s : Capture lib)
      → frame_samples s ≤ length input
      → frame_samples s ≤ length longer
      → read_samples (frame_samples s) longer ≡ read_samples (frame_samples s) input
      → encode_capture lib longer s ≡ encode_capture lib input s
  unfolding encode_capture
  encode_capture_long input longer s h k e = ground arith

  bytes_to_opus_short :
      (bytes : List ℕ) (s : Capture lib)
      → length bytes < frame_bytes s
      → (s' : Capture lib) × (bytes_to_opus lib (some bytes) s ≡ ok s')
        × (s'.opus_enc_outbuf_size ≡ 0)
  unfolding bytes_to_opus
  bytes_to_opus_short bytes s h =
      if_both (λ r. (s' : Capture lib) × (r ≡ ok s') × (s'.opus_enc_outbuf_size ≡ 0))
        (ltb (length bytes) 2) (record s { opus_enc_outbuf_size = 0 }, refl, refl)
        (
          cleared,
          encode_capture_short (samples bytes) cleared (omega (arith, length-samples bytes)),
          refl,
        )
    where
      cleared : Capture lib
      cleared = record s {
        opus_enc_outbuf_size = 0;
        opus_enc_outbuf = replicate (length s.opus_enc_outbuf) 0;
      }

  -- A fragment that holds less than a frame sends nothing, and leaves no old frame to be sent.
  short_fragment :
      (rtp : Rtp) (bytes : List ℕ) (s : Capture lib) (log : Log)
      → length bytes < frame_bytes s
      → (s' : Capture lib) × (data_callback lib rtp (some bytes) (s, log) ≡ ok (s', log))
        × (s'.opus_enc_outbuf_size ≡ 0)
  unfolding data_callback
  short_fragment rtp bytes s log h =
      let (s', encoded, none_left) = bytes_to_opus_short bytes s h in (s', ground arith, none_left)

  pub frame_bytes-pos : (s : Capture lib) → 2 ≤ frame_bytes s
  frame_bytes-pos s = ground arith

  pub not_tiny : (n : ℕ) → 2 ≤ n → ltb n 2 ≡ false
  not_tiny n h = ground arith

  bytes_to_opus_long :
      (bytes extra : List ℕ) (s : Capture lib)
      → frame_bytes s ≤ length bytes
      → bytes_to_opus lib (some (bytes ++ extra)) s ≡ bytes_to_opus lib (some bytes) s
  unfolding bytes_to_opus
  bytes_to_opus_long bytes extra s h =
      let enough = frame_bytes-pos s in
      rw
        (
          not_tiny (length bytes) (omega arith),
          not_tiny (length (bytes ++ extra)) (omega (arith, length-append bytes extra)),
        )
        (encode_capture_long (samples bytes) (samples (bytes ++ extra)) cleared few many same)
    where
      cleared : Capture lib
      cleared = record s {
        opus_enc_outbuf_size = 0;
        opus_enc_outbuf = replicate (length s.opus_enc_outbuf) 0;
      }

      few : frame_samples s ≤ length (samples bytes)
      few = omega (arith, length-samples bytes)

      many : frame_samples s ≤ length (samples (bytes ++ extra))
      many = omega (arith, length-samples (bytes ++ extra), length-append bytes extra)

      same :
          read_samples (frame_samples s) (samples (bytes ++ extra))
          ≡ read_samples (frame_samples s) (samples bytes)
      same = read_samples-append (frame_samples s) bytes extra h

  -- What lies behind the first frame of a fragment is dropped: a longer fragment is treated exactly
  -- like its first frame.
  pub long_fragment :
      (rtp : Rtp) (bytes extra : List ℕ) (s : Capture lib) (log : Log)
      → frame_bytes s ≤ length bytes
      → data_callback lib rtp (some (bytes ++ extra)) (s, log)
        ≡ data_callback lib rtp (some bytes) (s, log)
  unfolding data_callback
  long_fragment rtp bytes extra s log h = rw (bytes_to_opus_long bytes extra s h)
