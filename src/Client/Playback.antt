-- ===== src/Client/Playback.antt =====
-- The write callback that the constructor of `Client` installs (src/client.cpp): it fills a buffer
-- of the virtual input from the decoded bytes, and decodes queued frames as it needs them.
-- The RTP thread may queue frames each time the callback has let go of the mutex: `arrivals` lists
-- what it queues before each round takes a frame, and nothing behind the end of that list.
-- The counter `frames_received`, which that thread raises with each of them, is left out here.
pub mod Buffer
pub mod Delivery
pub mod Decoding
pub mod Arrivals
pub mod Starvation
pub mod Callback
pub mod Bounded
pub mod Untouched
pub mod Padding
pub mod Memory
mod Tests
use audpipe_cpp.Prelude.{
  ℕ, suc, ◌+◌, ◌*◌, Bool, true, false, not, ◌||◌, ◌==◌, ltb, if◌then◌else◌, Option, none, some,
  List, [], ◌∷◌, ◌++◌, set, take, replicate, ℤ, pos, negsuc, Result,
}
use audpipe_cpp.Client.State.{Client}
use audpipe_cpp.Client.Receive.{push}

-- libopus: `opus_decode` with a frame size of 960 and no error correction. It takes the payload and
-- the output buffer, and gives the decoder's new state, the samples per channel or a negative error,
-- and the buffer. The buffer is seen as bytes, as the code reads it.
pub record Opus : Type 1 where
  pub Decoder : Type 0
  pub decode : Decoder → List ℕ → List ℕ → Decoder × ℤ × List ℕ

-- `PCM_DECBUF_SIZE`, in samples.
abbrev pub pcm_decbuf_size : ℕ
pcm_decbuf_size = 960 * 2

-- The output buffer as the constructor makes it, two bytes for a sample.
abbrev pub fresh_decbuf : List ℕ
fresh_decbuf = replicate (pcm_decbuf_size * 2) 0

-- `dst`, and how many bytes of it are written.
pub record Output : Type 0 where
  pub dst : List ℕ
  pub written : ℕ

-- `while (written < max_len && !playback_queue.empty())`
unfoldable pub drain : ℕ → Output → List ℕ → Output × List ℕ
drain max_len o [] = (o, [])
drain max_len o (b ∷ queue) =
    let o' : Output = record { dst = set o.dst o.written b; written = o.written + 1 } in
    let rest = drain max_len o' queue in if ltb o.written max_len then rest else (o, b ∷ queue)

module _ (lib : Opus) where
  open lib use {Decoder, decode}

  -- What a round works on, next to the queue of compressed frames.
  pub record Playing : Type 0 where
    pub output : Output
    pub playback_queue : List ℕ
    pub opusdec : Decoder
    pub pcm_decbuf : List ℕ

  -- The bytes that a decoded frame adds: two channels of two bytes per sample; none on an error.
  abbrev pub pcm_bytes : ℤ → List ℕ → List ℕ
  pcm_bytes (negsuc n) buf = []
  pcm_bytes (pos n) buf = take (n * 2 * 2) buf

  pub decode_frame : List ℕ → Playing → Playing
  decode_frame frame s =
      let (opusdec, samples, buf) = decode s.opusdec frame s.pcm_decbuf in
      record s {
        opusdec = opusdec;
        pcm_decbuf = buf;
        playback_queue = s.playback_queue ++ pcm_bytes samples buf;
      }

  unfoldable pub drain_queue : ℕ → Playing → Playing
  drain_queue max_len s =
      let (output, queue) = drain max_len s.output s.playback_queue in
      record s { output = output; playback_queue = queue }

  abbrev pub push_all : List (List ℕ) → List (List ℕ) → List (List ℕ)
  push_all q [] = q
  push_all q (f ∷ fs) = push_all (push q f) fs

  -- `while (written < max_len)`, with its two breaks. A frame that does not decode is skipped.
  pub fill :
      ℕ → (arrivals : List (List (List ℕ))) → List (List ℕ) → Playing → Playing × List (List ℕ)
  fill max_len [] [] s =
      if ltb s.output.written max_len then (drain_queue max_len s, []) else (s, [])
  fill max_len [] (frame ∷ queue) s =
      let d = drain_queue max_len s in
      let rest = fill max_len [] queue (decode_frame frame d) in
      if ltb s.output.written max_len
      then (if d.output.written == max_len then (d, frame ∷ queue) else rest)
      else (s, frame ∷ queue)
  fill max_len (new ∷ arrivals) queue s =
      let d = drain_queue max_len s in
      let rest = elim (push_all queue new) as (λ _. Playing × List (List ℕ)) [
        | [] ↦ (d, [])
        | frame ∷ queue' ↦ fill max_len arrivals queue' (decode_frame frame d)
      ] in
      if ltb s.output.written max_len
      then (if d.output.written == max_len then (d, queue) else rest)
      else (s, queue)

  -- The callback: what it returns is `output.written`. `dst` is `none` where it is null.
  unfoldable pub write_callback :
      ℕ
      → (arrivals : List (List (List ℕ))) → Option (List ℕ)
      → (opusdec : Decoder) → (pcm_decbuf : List ℕ) → Client
      → Option (Playing × Client)
  write_callback max_len arrivals none opusdec pcm_decbuf c = none
  write_callback max_len arrivals (some dst) opusdec pcm_decbuf c =
      if max_len == 0 || c.should_stop || not c.healthy
      then none
      else let start : Playing = record {
        output = record { dst = dst; written = 0 };
        playback_queue = c.playback_queue;
        opusdec = opusdec;
        pcm_decbuf = pcm_decbuf;
      } in
        let (end, queue) = fill max_len arrivals c.compressed_queue start in
        some (end, record c { playback_queue = end.playback_queue; compressed_queue = queue })
