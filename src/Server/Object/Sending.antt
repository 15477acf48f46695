-- ===== src/Server/Object/Sending.antt =====
-- What a server sends of whole fragments (src/server.cpp).
use audpipe_cpp.Prelude.{
  take, ℕ, zero, suc, ◌*◌, ◌≤◌, ◌≡◌, refl, sym, ap, ◌∙◌, subst, some, List, [], ◌∷◌, map, length,
  replicate, ℤ, pos, negsuc, Result,
}
use audpipe_cpp.Audio.{AudioDevice}
use audpipe_cpp.Rtp.Library.{Log, frame_pushed}
use audpipe_cpp.Rtp.Lifecycle.{IsOpen}
use audpipe_cpp.Server.Encode.{Opus, Capture, Thrown, samples, opus_frame_size, data_callback}
use audpipe_cpp.Server.Encode.Packets.{
  device_samples, frame_input, add_packet, packets, IsReady, Stepped, data_callback-Stepped,
}
use audpipe_cpp.Server.Object.{Server, carry_on, capture_all}

-- Every fragment holds a whole frame.
abbrev pub AreWhole : AudioDevice → List (List ℕ) → Type 0
AreWhole device [] = Unit
AreWhole device (bytes ∷ rest) = (2 * device_samples device ≤ length bytes) × AreWhole device rest

-- The packets in the order in which they are pushed, on a log that has the newest event first.
abbrev pub pushed : ℕ → List (List ℕ) → Log → Log
pushed stream [] log = log
pushed stream (p ∷ ps) log = pushed stream ps (frame_pushed stream p ∷ log)

module _ (lib : Opus) where
  -- What the members of a server make of fragments.
  abbrev pub packets_of : Capture lib → List (List ℕ) → List (List ℕ)
  packets_of c fragments = packets lib c.device c.opusenc (length c.opus_enc_outbuf) fragments

  packets_of-IsReady :
      (device : AudioDevice) (enc : lib.Encoder) (size : ℕ) (c : Capture lib) (rest : List (List ℕ))
      → IsReady lib device enc size c
      → packets_of c rest ≡ packets lib device enc size rest
  packets_of-IsReady device enc size c rest (d, e, l, full) =
      ap (λ x. packets lib x c.opusenc (length c.opus_enc_outbuf) rest) d
      ∙ ap (λ x. packets lib device x (length c.opus_enc_outbuf) rest) e
      ∙ ap (λ x. packets lib device enc x rest) l

  module _ (session stream : ℕ) where
    abbrev Sends : List (List ℕ) → Server lib → Log → Type 0
    Sends rest s log =
        (capture_all lib (s, log) (map some rest)).2 ≡ pushed stream (packets_of s.capture rest) log

    abbrev SendsLater : List (List ℕ) → Server lib → AudioDevice → Type 0
    SendsLater rest s device =
        (c : Capture lib) (log : Log)
        → length c.pcm_stereo_buf ≡ 1920
        → c.device ≡ device
        → Sends rest (record s { capture = c }) log

    carry_on-Sends :
        (rest : List (List ℕ)) (s : Server lib) (log : Log) (device : AudioDevice)
        (enc : lib.Encoder) (res : ℤ) (out : List ℕ) (r : Result (Thrown lib) (Capture lib × Log))
        → Stepped lib device (enc, res, out) stream log r
        → SendsLater rest s device
        → (carry_on lib (λ state. capture_all lib state (map some rest)) s log r).2
          ≡ pushed stream (add_packet lib res out (packets lib device enc (length out) rest)) log
    carry_on-Sends rest s log device enc (negsuc n) out r failed later =
        ap (λ x. (carry_on lib (λ state. capture_all lib state (map some rest)) s log x).2) failed.1
    carry_on-Sends rest s log device enc (pos zero) out r (c, same, ready) later =
        ap (λ x. (carry_on lib (λ state. capture_all lib state (map some rest)) s log x).2) same
        ∙ later c log ready.3 ready.0
        ∙ ap (λ ps. pushed stream ps log) (packets_of-IsReady device enc (length out) c rest ready)
    carry_on-Sends rest s log device enc (pos (suc n)) out r (c, same, ready) later =
        ap (λ x. (carry_on lib (λ state. capture_all lib state (map some rest)) s log x).2) same
        ∙ later c (frame_pushed stream (take (suc n) out) ∷ log) ready.3 ready.0
        ∙ ap (λ ps. pushed stream ps (frame_pushed stream (take (suc n) out) ∷ log))
            (packets_of-IsReady device enc (length out) c rest ready)

    -- A server whose `Rtp` is open sends of whole fragments one packet each, in order: what the encoder
    -- gives, called once for each of them; nothing for a length of 0, and nothing more after an error.
    pub capture_all-packets :
        (fragments : List (List ℕ)) (s : Server lib) (log : Log)
        → IsOpen s.rtp session stream
        → length s.capture.pcm_stereo_buf ≡ 1920
        → AreWhole s.capture.device fragments
        → (capture_all lib (s, log) (map some fragments)).2
          ≡ pushed stream (packets_of s.capture fragments) log
    unfolding capture_all packets
    capture_all-packets [] s log o full whole = refl
    capture_all-packets (bytes ∷ rest) s log o full (enough, whole) =
        let (enc, res, out) =
          lib.encode s.capture.opusenc (frame_input s.capture.device (samples bytes))
            (replicate (length s.capture.opus_enc_outbuf) 0) opus_frame_size in
        carry_on-Sends rest s log s.capture.device enc res out
          (data_callback lib s.rtp (some bytes) (s.capture, log))
          (data_callback-Stepped lib s.rtp session stream log s.capture bytes o full enough)
          (λ c log' full' same.
            capture_all-packets rest (record s { capture = c }) log' o full'
              (subst (λ device. AreWhole device rest) (sym same) whole))
