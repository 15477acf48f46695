-- ===== src/Server/Encode/Memory.antt =====
-- The buffers of a server while it encodes (src/server.cpp).
use audpipe_cpp.Prelude.{
  IsAtMost, ℕ, ◌*◌, ◌≤◌, ◌<◌, ◌≡◌, ◌∙◌, false, ltb, ◌==◌, if◌then◌else◌, if_both, if_split, Option,
  none, some, List, length, take, replicate, length-take, length-replicate, ℤ, pos, negsuc, Result,
  ok, err, arith, ◌>>=◌,
}
use audpipe_cpp.Rtp.{Rtp, write_frames}
use audpipe_cpp.Rtp.Library.{Log}
use audpipe_cpp.Rtp.Frames.{AllFit, write_frames-AllFit}
use audpipe_cpp.Server.Encode.{
  Opus, Capture, Thrown, opus_frame_size, samples, read_samples, upmix, check_length,
  encode_samples, encode_capture, bytes_to_opus, data_callback,
}
use audpipe_cpp.Server.Encode.Upmix.{length-upmix}
use audpipe_cpp.Server.Encode.Frame.{length-read_samples}

-- The documented behaviour of `opus_encode`, where its arguments are as it asks: the samples of 960
-- times two channels, and an output buffer that has the bytes that it may write.
pub record EncodesInPlace (lib : Opus) : Type 0 where
  pub size :
      (enc : lib.Encoder) (input out : List ℕ)
      → length input ≡ 960 * 2
      → length out ≡ opus_frame_size
      → IsAtMost opus_frame_size (lib.encode enc input out opus_frame_size).1
  pub same_length :
      (enc : lib.Encoder) (input out : List ℕ)
      → length input ≡ 960 * 2
      → length out ≡ opus_frame_size
      → length (lib.encode enc input out opus_frame_size).2 ≡ opus_frame_size

module _ (lib : Opus) where
  -- The buffers keep their sizes, and the frame that is ready is inside the output buffer.
  pub record IsWithin (s : Capture lib) : Type 0 where
    pub outbuf : length s.opus_enc_outbuf ≡ opus_frame_size
    pub ready : s.opus_enc_outbuf_size ≤ opus_frame_size
    pub stereo : length s.pcm_stereo_buf ≡ 960 * 2

  abbrev AllWithin : Result (Thrown lib) (Capture lib) → Type 0
  AllWithin (err (e, s)) = IsWithin s
  AllWithin (ok s) = IsWithin s

  check_length-AllWithin :
      (res : ℤ) (s : Capture lib)
      → IsAtMost opus_frame_size res
      → IsWithin s
      → AllWithin (check_length lib res s)
  check_length-AllWithin (negsuc n) s size v = record {
    outbuf = v.outbuf;
    ready = v.ready;
    stereo = v.stereo;
  }
  check_length-AllWithin (pos n) s size v = record {
    outbuf = v.outbuf;
    ready = size;
    stereo = v.stereo;
  }

  module _ (encodes : EncodesInPlace lib) where
    encode_samples-AllWithin :
        (input : List ℕ) (s : Capture lib)
        → length input ≡ 960 * 2
        → IsWithin s
        → AllWithin (encode_samples lib input s)
    unfolding encode_samples
    encode_samples-AllWithin input s full v =
        let (enc, res, out) = lib.encode s.opusenc input s.opus_enc_outbuf opus_frame_size in
        check_length-AllWithin res (record s { opusenc = enc; opus_enc_outbuf = out })
          (encodes.size s.opusenc input s.opus_enc_outbuf full v.outbuf)
          (record {
            outbuf = encodes.same_length s.opusenc input s.opus_enc_outbuf full v.outbuf;
            ready = v.ready;
            stereo = v.stereo;
          })

    at_least : (n k : ℕ) → ltb n k ≡ false → k ≤ n
    at_least n k h = ground arith

    encode_capture-AllWithin :
        (input : List ℕ) (s : Capture lib) → IsWithin s → AllWithin (encode_capture lib input s)
    unfolding encode_capture
    encode_capture-AllWithin input s v =
        let stereo = upmix (read_samples 960 input) 0 s.pcm_stereo_buf in
        let kept = length-upmix (read_samples 960 input) 0 s.pcm_stereo_buf ∙ v.stereo in
        if_both AllWithin (s.device.channels == 1)
          (if_both AllWithin (ltb (length input) 960) v (
            encode_samples-AllWithin stereo (record s { pcm_stereo_buf = stereo }) kept
              (record { outbuf = v.outbuf; ready = v.ready; stereo = kept })))
          (if_split AllWithin (ltb (length input) 1920) (λ short. v)
            (λ long.
              encode_samples-AllWithin (read_samples 1920 input) s
                (length-read_samples 1920 input (at_least (length input) 1920 long)) v))

    bytes_to_opus-AllWithin :
        (bytes : Option (List ℕ)) (s : Capture lib)
        → IsWithin s
        → AllWithin (bytes_to_opus lib bytes s)
    unfolding bytes_to_opus
    bytes_to_opus-AllWithin none s v = record {
      outbuf = v.outbuf;
      ready = omega arith;
      stereo = v.stereo;
    }
    bytes_to_opus-AllWithin (some bytes) s v =
        if_both AllWithin (ltb (length bytes) 2)
          (record { outbuf = v.outbuf; ready = omega arith; stereo = v.stereo })
          (encode_capture-AllWithin (samples bytes)
            (record s {
              opus_enc_outbuf_size = 0;
              opus_enc_outbuf = replicate (length s.opus_enc_outbuf) 0;
            })
            (record {
              outbuf = length-replicate (length s.opus_enc_outbuf) 0 ∙ v.outbuf;
              ready = omega arith;
              stereo = v.stereo;
            }))

    abbrev pub CallbackWithin : Result (Thrown lib) (Capture lib × Log) → Type 0
    CallbackWithin (err (e, s)) = IsWithin s
    CallbackWithin (ok (s, log)) = IsWithin s × AllFit opus_frame_size log

    pub data_callback-Within :
        (rtp : Rtp) (bytes : Option (List ℕ)) (s : Capture lib) (log : Log)
        → IsWithin s
        → AllFit opus_frame_size log
        → CallbackWithin (data_callback lib rtp bytes (s, log))
    unfolding data_callback
    data_callback-Within rtp bytes s log v all =
        by_result (bytes_to_opus lib bytes s) (bytes_to_opus-AllWithin bytes s v)
      where
        by_result :
            (r : Result (Thrown lib) (Capture lib))
            → AllWithin r
            → CallbackWithin (
                r >>= λ s'. ok (
                  s',
                  if s'.opus_enc_outbuf_size == 0
                      then log
                      else write_frames rtp (take s'.opus_enc_outbuf_size s'.opus_enc_outbuf) log,
                ))
        by_result (err (e, s')) w = w
        by_result (ok s') w = (
          w,
          if_split (AllFit opus_frame_size) (s'.opus_enc_outbuf_size == 0) (λ nothing. all)
              (λ ready.
                write_frames-AllFit opus_frame_size rtp
                  (take s'.opus_enc_outbuf_size s'.opus_enc_outbuf) log
                  (some_byte s'.opus_enc_outbuf_size s'.opus_enc_outbuf ready w.ready w.outbuf)
                  (no_more s'.opus_enc_outbuf_size s'.opus_enc_outbuf w.ready) all),
        )
          where
            some_byte :
                (n : ℕ) (out : List ℕ)
                → (n == 0) ≡ false
                → n ≤ opus_frame_size
                → length out ≡ opus_frame_size
                → 0 < length (take n out)
            some_byte n out h k size = ground (arith, length-take n out)

            no_more :
                (n : ℕ) (out : List ℕ) → n ≤ opus_frame_size → length (take n out) ≤ opus_frame_size
            no_more n out k = omega (arith, length-take n out)
