-- ===== src/Client/Playback/Memory.antt =====
-- The memory of the write callback: the output buffer of the decoder and the queue of decoded bytes
-- (src/client.cpp).
use audpipe_cpp.Prelude.{
  IsAtMost, ℕ, ◌+◌, ◌*◌, ◌≤◌, ◌≡◌, refl, ◌∙◌, ◌⊎◌, inl, inr, ltb, ◌==◌, if◌then◌else◌, if_both,
  List, [], ◌∷◌, length, set, ℤ, pos, negsuc, arith, length-take, ◌≢◌,
}
use audpipe_cpp.Client.Playback.{
  Opus, Output, Playing, pcm_decbuf_size, drain, drain_queue, pcm_bytes, decode_frame, push_all,
  fill,
}

-- The documented behaviour of `opus_decode` on a buffer that has the places of a frame.
pub record DecodesInPlace (lib : Opus) : Type 0 where
  pub samples :
      (dec : lib.Decoder) (frame buf : List ℕ)
      → length buf ≡ pcm_decbuf_size * 2
      → IsAtMost 960 (lib.decode dec frame buf).1
  pub same_length :
      (dec : lib.Decoder) (frame buf : List ℕ) → length (lib.decode dec frame buf).2 ≡ length buf

-- The inner loop only shortens the queue, and stops at the end of the output or of the queue.
pub record Stops (max_len : ℕ) (queue : List ℕ) (out : Output × List ℕ) : Type 0 where
  pub written : out.0.written ≤ max_len
  pub stopped : (out.0.written ≡ max_len) ⊎ (out.1 ≡ [])
  pub shorter : length out.1 ≤ length queue

drain-Stops :
    (max_len : ℕ) (o : Output) (queue : List ℕ)
    → o.written ≤ max_len
    → Stops max_len queue (drain max_len o queue)
unfolding drain
drain-Stops max_len o [] h = record { written = h; stopped = inr refl; shorter = omega arith }
drain-Stops max_len o (b ∷ queue) h =
    let o' : Output = record { dst = set o.dst o.written b; written = o.written + 1 } in
    ground (arith, drain-Stops max_len o' queue)

module _ (lib : Opus) where
  -- All the bytes that the code reads from the buffer are there.
  abbrev pub ReadsInside : ℤ → List ℕ → Type 0
  ReadsInside (negsuc n) buf = Unit
  ReadsInside (pos n) buf = length (pcm_bytes lib (pos n) buf) ≡ n * 2 * 2

  -- So it is for each frame of a run.
  abbrev pub AllInside : List (List ℕ) → lib.Decoder → List ℕ → Type 0
  AllInside [] dec buf = Unit
  AllInside (f ∷ fs) dec buf =
      let (dec', samples, buf') = lib.decode dec f buf in
      ReadsInside samples buf' × AllInside fs dec' buf'

  -- The buffer keeps its size, and the queue holds no more than one decoded frame.
  pub record IsWithin (buf queue : List ℕ) : Type 0 where
    pub buffer : length buf ≡ pcm_decbuf_size * 2
    pub queued : length queue ≤ pcm_decbuf_size * 2

  module _ (decodes : DecodesInPlace lib) where
    pub all_inside :
        (fs : List (List ℕ)) (dec : lib.Decoder) (buf : List ℕ)
        → length buf ≡ pcm_decbuf_size * 2
        → AllInside fs dec buf
    all_inside [] dec buf h = tt
    all_inside (f ∷ fs) dec buf h =
        let (dec', samples, buf') = lib.decode dec f buf in
        let size = decodes.same_length dec f buf ∙ h in
        (inside samples buf' (decodes.samples dec f buf h) size, all_inside fs dec' buf' size)
      where
        inside :
            (samples : ℤ) (buf' : List ℕ)
            → IsAtMost 960 samples
            → length buf' ≡ pcm_decbuf_size * 2
            → ReadsInside samples buf'
        inside (negsuc n) buf' k size = tt
        inside (pos n) buf' k size = omega (arith, length-take (n * 2 * 2) buf')

    abbrev Within : ℕ → Playing lib → Type 0
    Within max_len s = IsWithin s.pcm_decbuf s.playback_queue × (s.output.written ≤ max_len)

    abbrev EndsWithin : Playing lib × List (List ℕ) → Type 0
    EndsWithin (s, queue) = IsWithin s.pcm_decbuf s.playback_queue

    pcm-bounded :
        (samples : ℤ) (buf : List ℕ)
        → IsAtMost 960 samples
        → length (pcm_bytes lib samples buf) ≤ pcm_decbuf_size * 2
    pcm-bounded (negsuc n) buf k = omega arith
    pcm-bounded (pos n) buf k = omega (arith, length-take (n * 2 * 2) buf)

    drained-Within :
        (max_len : ℕ) (s : Playing lib)
        → Within max_len s
        → Within max_len (drain_queue lib max_len s)
    unfolding drain_queue
    drained-Within max_len s v =
        let stops = drain-Stops max_len s.output s.playback_queue v.1 in
        (
          record { buffer = v.0.buffer; queued = omega (arith, stops.shorter, v.0.queued) },
          stops.written,
        )

    -- A frame is decoded only behind an empty queue.
    decoded-Within :
        (max_len : ℕ) (frame : List ℕ) (s : Playing lib)
        → Within max_len s
        → (drain_queue lib max_len s).output.written ≢ max_len
        → Within max_len (decode_frame lib frame (drain_queue lib max_len s))
    unfolding drain_queue decode_frame
    decoded-Within max_len frame s v short =
        let stops = drain-Stops max_len s.output s.playback_queue v.1 in
        let (dec, samples, buf) = lib.decode s.opusdec frame s.pcm_decbuf in
        elim stops.stopped [
          | inl full ↦ absurd (short full)
          | inr empty ↦ (
            record {
              buffer = decodes.same_length s.opusdec frame s.pcm_decbuf ∙ v.0.buffer;
              queued = rw empty (
                  pcm-bounded samples buf
                    (decodes.samples s.opusdec frame s.pcm_decbuf v.0.buffer));
            },
            stops.written,
          )
        ]

    round :
        (max_len : ℕ) (s : Playing lib) (queue : List (List ℕ)) (next : Playing lib × List (List ℕ))
        → Within max_len s
        → ((drain_queue lib max_len s).output.written ≢ max_len → EndsWithin next)
        → EndsWithin (
            if ltb s.output.written max_len
            then (if (drain_queue lib max_len s).output.written == max_len
                then (drain_queue lib max_len s, queue)
                else next)
            else (s, queue))
    round max_len s queue next v later =
        let d = drained-Within max_len s v in ground (arith, d, later)

    arrived :
        (pushed : List (List ℕ)) (d : Playing lib)
        (next : List ℕ → List (List ℕ) → Playing lib × List (List ℕ))
        → EndsWithin (d, [])
        → ((f : List ℕ) (queue : List (List ℕ)) → EndsWithin (next f queue))
        → EndsWithin (elim pushed as (λ _. Playing lib × List (List ℕ)) [
          | [] ↦ (d, [])
          | f ∷ queue ↦ next f queue
        ])
    arrived [] d next v later = v
    arrived (f ∷ queue) d next v later = later f queue

    pub fill-Within :
        (max_len : ℕ) (arrivals : List (List (List ℕ))) (queue : List (List ℕ)) (s : Playing lib)
        → Within max_len s
        → EndsWithin (fill lib max_len arrivals queue s)
    unfolding fill
    fill-Within max_len [] [] s v =
        if_both EndsWithin (ltb s.output.written max_len) (drained-Within max_len s v).0 v.0
    fill-Within max_len [] (f ∷ queue) s v = round max_len s (f ∷ queue) _ v (λ short.
        fill-Within max_len [] queue (decode_frame lib f (drain_queue lib max_len s))
          (decoded-Within max_len f s v short))
    fill-Within max_len (new ∷ arrivals) queue s v = round max_len s queue _ v (λ short.
        arrived (push_all lib queue new) (drain_queue lib max_len s)
          (λ f queue'.
            fill lib max_len arrivals queue' (decode_frame lib f (drain_queue lib max_len s)))
          (drained-Within max_len s v).0
          (λ f queue'.
            fill-Within max_len arrivals queue' (decode_frame lib f (drain_queue lib max_len s))
              (decoded-Within max_len f s v short)))
