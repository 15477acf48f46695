-- ===== src/Server/Object/Memory.antt =====
-- The buffers of a server while it captures (src/server.cpp).
use audpipe_cpp.Prelude.{ℕ, refl, Option, List, [], ◌∷◌, Result, ok, err, arith}
use audpipe_cpp.Audio.{AudioDevice}
use audpipe_cpp.Rtp.{Rtp}
use audpipe_cpp.Rtp.Library.{Log}
use audpipe_cpp.Rtp.Frames.{AllFit}
use audpipe_cpp.Server.Encode.{Opus, Capture, Thrown, opus_frame_size, data_callback}
use audpipe_cpp.Server.Encode.Memory.{
  EncodesInPlace, IsWithin, CallbackWithin, data_callback-Within,
}
use audpipe_cpp.Server.Object.{Server, Captured, fresh, carry_on, capture_all}

module _ (lib : Opus) (encodes : EncodesInPlace lib) where
  abbrev ServerWithin : Captured lib → Type 0
  ServerWithin (fault, s, log) = IsWithin lib s.capture × AllFit opus_frame_size log

  capture_all-Within :
      (fragments : List (Option (List ℕ))) (s : Server lib) (log : Log)
      → IsWithin lib s.capture
      → AllFit opus_frame_size log
      → ServerWithin (capture_all lib (s, log) fragments)
  unfolding capture_all
  capture_all-Within [] s log v all = (v, all)
  capture_all-Within (bytes ∷ rest) s log v all =
      carried (data_callback lib s.rtp bytes (s.capture, log))
        (data_callback-Within lib encodes s.rtp bytes s.capture log v all)
        (λ capture log' w later.
          capture_all-Within rest (record s { capture = capture }) log' w later)
    where
      carried :
          (r : Result (Thrown lib) (Capture lib × Log))
          → CallbackWithin lib encodes r
          → ((capture : Capture lib) (log' : Log)
              → IsWithin lib capture
              → AllFit opus_frame_size log'
              → ServerWithin (capture_all lib (record s { capture = capture }, log') rest))
          → ServerWithin (carry_on lib (λ state. capture_all lib state rest) s log r)
      carried (err (e, capture)) w later = (w, all)
      carried (ok (capture, log')) w later = later capture log' w.0 w.1

  -- A server whose encoder does as libopus documents, from the buffers of its constructor on, whatever
  -- fragments come, none, short or long, of any device, and also when the encoder fails: both buffers
  -- keep the sizes that the constructor gave them, the frame that is ready is inside the output buffer,
  -- and, if it was so before, every frame that was pushed has 1 to 3840 bytes.
  pub captured-IsWithin :
      (device : AudioDevice) (enc : lib.Encoder) (rtp : Rtp) (log : Log)
      (fragments : List (Option (List ℕ)))
      → AllFit opus_frame_size log
      → let (fault, s, log') = capture_all lib (fresh lib device enc rtp, log) fragments in
        IsWithin lib s.capture × AllFit opus_frame_size log'
  captured-IsWithin device enc rtp log fragments all =
      capture_all-Within fragments (fresh lib device enc rtp) log
        (record { outbuf = refl; ready = omega arith; stereo = refl }) all
