-- ===== src/Client/Playback/Delivery.antt =====
-- The write callback loses, repeats and reorders no byte of audio (src/client.cpp).
use audpipe_cpp.Prelude.{
  ℕ, zero, suc, ◌≤◌, ◌≡◌, refl, sym, ap, ◌∙◌, if_both, ltb, ◌==◌, List, [], ◌∷◌, ◌++◌, append_assoc,
  append-nil, length, arith,
}
use audpipe_cpp.Client.Playback.{
  Opus, Playing, drain_queue, decode_frame, pcm_bytes, push_all, fill,
}
use audpipe_cpp.Client.Playback.Buffer.{delivered, drain-Drained}

module _ (lib : Opus) where
  open lib use {Decoder, decode}

  -- The bytes of a run of frames, decoded in order by one decoder.
  abbrev pub decoded : List (List ℕ) → Decoder → List ℕ → List ℕ
  decoded [] dec buf = []
  decoded (f ∷ fs) dec buf =
      let (dec', samples, buf') = decode dec f buf in
      pcm_bytes lib samples buf' ++ decoded fs dec' buf'

  -- The decoder and its buffer behind such a run.
  abbrev pub decoder_after : List (List ℕ) → Decoder → List ℕ → Decoder × List ℕ
  decoder_after [] dec buf = (dec, buf)
  decoder_after (f ∷ fs) dec buf =
      let (dec', samples, buf') = decode dec f buf in decoder_after fs dec' buf'

  -- `n` rounds of the queue alone: before each the frames that arrive are queued, and the oldest
  -- frame is taken. The result is the frames taken and the queue left.
  abbrev pub rounds :
      ℕ → (arrivals : List (List (List ℕ))) → List (List ℕ) → List (List ℕ) × List (List ℕ)
  rounds zero arrivals queue = ([], queue)
  rounds (suc n) [] [] = ([], [])
  rounds (suc n) [] (f ∷ queue) = let (fs, q) = rounds n [] queue in (f ∷ fs, q)
  rounds (suc n) (new ∷ arrivals) queue =
      elim (push_all lib queue new) as (λ _. List (List ℕ) × List (List ℕ)) [
        | [] ↦ ([], [])
        | f ∷ queue' ↦ let (fs, q) = rounds n arrivals queue' in (f ∷ fs, q)
      ]

  -- The output and what waits behind it.
  abbrev pub audio : Playing lib → List ℕ
  audio s = delivered s.output ++ s.playback_queue

  pub record Delivers (s : Playing lib) (taken : List (List ℕ) × List (List ℕ))
      (out : Playing lib × List (List ℕ)) : Type 0 where
    pub left : out.1 ≡ taken.1
    pub bytes : audio out.0 ≡ audio s ++ decoded taken.0 s.opusdec s.pcm_decbuf
    pub decoder : (out.0.opusdec, out.0.pcm_decbuf) ≡ decoder_after taken.0 s.opusdec s.pcm_decbuf

  drain_queue-audio :
      (max_len : ℕ) (s : Playing lib)
      → s.output.written ≤ max_len
      → max_len ≤ length s.output.dst
      → audio (drain_queue lib max_len s) ≡ audio s
  unfolding drain_queue
  drain_queue-audio max_len s h k = (drain-Drained max_len s.output s.playback_queue h k).moved

  pub Delivers-none :
      (max_len : ℕ) (s : Playing lib) (queue : List (List ℕ))
      → s.output.written ≤ max_len
      → max_len ≤ length s.output.dst
      → Delivers s ([], queue) (drain_queue lib max_len s, queue)
  unfolding drain_queue
  Delivers-none max_len s queue h k = record {
    left = refl;
    bytes = drain_queue-audio max_len s h k ∙ sym (append-nil (audio s));
    decoder = refl;
  }

  pub Delivers-frame :
      (max_len : ℕ) (s : Playing lib) (f : List ℕ) (taken : List (List ℕ) × List (List ℕ))
      (out : Playing lib × List (List ℕ))
      → s.output.written ≤ max_len
      → max_len ≤ length s.output.dst
      → Delivers (decode_frame lib f (drain_queue lib max_len s)) taken out
      → Delivers s (f ∷ taken.0, taken.1) out
  unfolding decode_frame drain_queue
  Delivers-frame max_len s f taken out h k v = record {
    left = v.left;
    bytes = v.bytes ∙ ap (λ heard. heard ++ rest) after_frame ∙ append_assoc (audio s) pcm rest;
    decoder = v.decoder;
  }
    where
      d : Playing lib
      d = drain_queue lib max_len s

      s' : Playing lib
      s' = decode_frame lib f d

      pcm : List ℕ
      pcm = let (dec, samples, buf) = decode s.opusdec f s.pcm_decbuf in pcm_bytes lib samples buf

      rest : List ℕ
      rest = decoded taken.0 s'.opusdec s'.pcm_decbuf

      after_frame : audio s' ≡ audio s ++ pcm
      after_frame =
          sym (append_assoc (delivered d.output) d.playback_queue pcm)
          ∙ ap (λ heard. heard ++ pcm) (drain_queue-audio max_len s h k)

  -- The bounds that a round keeps.
  abbrev pub Fits : ℕ → Playing lib → Type 0
  Fits max_len s = (s.output.written ≤ max_len) × (max_len ≤ length s.output.dst)

  pub drain_queue-Fits :
      (max_len : ℕ) (s : Playing lib) → Fits max_len s → Fits max_len (drain_queue lib max_len s)
  unfolding drain_queue
  drain_queue-Fits max_len s (h, k) =
      let v = drain-Drained max_len s.output s.playback_queue h k in
      (v.bounded, omega (arith, v.same_length))

  pub decode_frame-Fits :
      (max_len : ℕ) (f : List ℕ) (s : Playing lib)
      → Fits max_len s
      → Fits max_len (decode_frame lib f (drain_queue lib max_len s))
  unfolding decode_frame
  decode_frame-Fits max_len f s v = drain_queue-Fits max_len s v

  abbrev pub Served :
      Playing lib
      → (arrivals : List (List (List ℕ))) → (queue : List (List ℕ)) → Playing lib × List (List ℕ)
      → Type 0
  Served s arrivals queue out = (n : ℕ) × Delivers s (rounds n arrivals queue) out

  Served-self :
      (s : Playing lib) (arrivals : List (List (List ℕ))) (queue : List (List ℕ))
      → Served s arrivals queue (s, queue)
  Served-self s arrivals queue =
      (0, record { left = refl; bytes = sym (append-nil (audio s)); decoder = refl })

  -- The round of a frame that arrives, or is queued already.
  Served-arrived :
      (max_len : ℕ) (arrivals : List (List (List ℕ))) (new queue p : List (List ℕ))
      (s : Playing lib)
      → Fits max_len s
      → push_all lib queue new ≡ p
      → ((f : List ℕ) (queue' : List (List ℕ))
          → let s' = decode_frame lib f (drain_queue lib max_len s) in
            Served s' arrivals queue' (fill lib max_len arrivals queue' s'))
      → Served s (new ∷ arrivals) queue (elim p as (λ _. Playing lib × List (List ℕ)) [
        | [] ↦ (drain_queue lib max_len s, [])
        | frame ∷ queue' ↦
            fill lib max_len arrivals queue' (decode_frame lib frame (drain_queue lib max_len s))
      ])
  Served-arrived max_len arrivals new queue [] s (h, k) e ih =
      (1, rw (rounds, e) (Delivers-none max_len s [] h k))
  Served-arrived max_len arrivals new queue (f ∷ queue') s (h, k) e ih =
      let (n, v) = ih f queue' in (suc n, rw (rounds, e) (Delivers-frame max_len s f _ _ h k v))

  -- Every byte is accounted for, whatever arrives meanwhile: for some number of rounds, what `fill`
  -- wrote followed by what it left in the playback queue is what it started from followed by the
  -- decoded bytes of exactly the frames that these rounds took, in order; and it leaves the queue of
  -- compressed frames that these rounds leave.
  pub fill-Delivers :
      (max_len : ℕ) (arrivals : List (List (List ℕ))) (queue : List (List ℕ)) (s : Playing lib)
      → Fits max_len s
      → let out = fill lib max_len arrivals queue s in Served s arrivals queue out
  unfolding fill
  fill-Delivers max_len [] [] s (h, k) =
      if_both (Served s [] []) (ltb s.output.written max_len) (0, Delivers-none max_len s [] h k)
        (Served-self s [] [])
  fill-Delivers max_len [] (f ∷ queue) s (h, k) =
      let s' = decode_frame lib f (drain_queue lib max_len s) in
      let (n, v) = fill-Delivers max_len [] queue s' (decode_frame-Fits max_len f s (h, k)) in
      if_both (Served s [] (f ∷ queue)) (ltb s.output.written max_len)
        (if_both (Served s [] (f ∷ queue)) ((drain_queue lib max_len s).output.written == max_len)
          (0, Delivers-none max_len s (f ∷ queue) h k)
          (suc n, Delivers-frame max_len s f _ _ h k v))
        (Served-self s [] (f ∷ queue))
  fill-Delivers max_len (new ∷ arrivals) queue s (h, k) =
      if_both (Served s (new ∷ arrivals) queue) (ltb s.output.written max_len)
        (if_both (Served s (new ∷ arrivals) queue)
          ((drain_queue lib max_len s).output.written == max_len)
          (0, Delivers-none max_len s queue h k)
          (Served-arrived max_len arrivals new queue (push_all lib queue new) s (h, k) refl
            (λ f queue'.
              fill-Delivers max_len arrivals queue' (decode_frame lib f (drain_queue lib max_len s))
                (decode_frame-Fits max_len f s (h, k)))))
        (Served-self s (new ∷ arrivals) queue)
