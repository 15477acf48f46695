-- ===== src/Client/Playback/Starvation.antt =====
-- The write callback stays within the buffer, and comes back short only when there is no audio left
-- (src/client.cpp).
use audpipe_cpp.Prelude.{ℕ, ◌≡◌, ◌⊎◌, ltb, ◌==◌, List, [], ◌∷◌, arith, if◌then◌else◌}
use audpipe_cpp.Client.Playback.{Opus, Playing, drain_queue, decode_frame, push_all, fill}
use audpipe_cpp.Client.Playback.Buffer.{drain-Drained}
use audpipe_cpp.Client.Playback.Delivery.{Fits, decode_frame-Fits, drain_queue-Fits}

module _ (lib : Opus) where
  abbrev Out : Type 0
  Out = Playing lib × List (List ℕ)

  -- The buffer is full to the byte that was asked for, or both queues are empty.
  pub record IsFilled (max_len : ℕ) (out : Playing lib × List (List ℕ)) : Type 0 where
    pub fits : Fits lib max_len out.0
    pub full_or_empty :
        (out.0.output.written ≡ max_len) ⊎ ((out.0.playback_queue ≡ []) × (out.1 ≡ []))

  drained_empty :
      (max_len : ℕ) (s : Playing lib)
      → Fits lib max_len s
      → IsFilled max_len (drain_queue lib max_len s, [])
  unfolding drain_queue
  drained_empty max_len s v = ground (
    arith,
    drain-Drained max_len s.output s.playback_queue v.0 v.1,
    drain_queue-Fits lib max_len s v,
  )

  -- A round: it ends full, or goes on as `next` does.
  round :
      (max_len : ℕ) (s : Playing lib) (queue : List (List ℕ)) (next : Out)
      → Fits lib max_len s
      → IsFilled max_len next
      → IsFilled max_len (
          if ltb s.output.written max_len
          then (if (drain_queue lib max_len s).output.written == max_len
              then (drain_queue lib max_len s, queue)
              else next)
          else (s, queue))
  round max_len s queue next v w = ground (arith, drain_queue-Fits lib max_len s v)

  arrived :
      (max_len : ℕ) (p : List (List ℕ)) (s : Playing lib) (next : List ℕ → List (List ℕ) → Out)
      → Fits lib max_len s
      → ((f : List ℕ) (queue' : List (List ℕ)) → IsFilled max_len (next f queue'))
      → IsFilled max_len (elim p as (λ _. Out) [
        | [] ↦ (drain_queue lib max_len s, [])
        | frame ∷ queue' ↦ next frame queue'
      ])
  arrived max_len [] s next v ih = drained_empty max_len s v
  arrived max_len (f ∷ queue') s next v ih = ih f queue'

  -- Whatever arrives meanwhile: `fill` writes no more than `max_len` bytes, inside the buffer, and if it
  -- writes fewer then it leaves no decoded byte and no compressed frame behind.
  pub fill-IsFilled :
      (max_len : ℕ) (arrivals : List (List (List ℕ))) (queue : List (List ℕ)) (s : Playing lib)
      → Fits lib max_len s
      → IsFilled max_len (fill lib max_len arrivals queue s)
  unfolding fill
  fill-IsFilled max_len [] [] s v = ground (arith, drained_empty max_len s v)
  fill-IsFilled max_len [] (f ∷ queue) s v = round max_len s (f ∷ queue) _ v (
      fill-IsFilled max_len [] queue (decode_frame lib f (drain_queue lib max_len s))
        (decode_frame-Fits lib max_len f s v))
  fill-IsFilled max_len (new ∷ arrivals) queue s v = round max_len s queue _ v (
      arrived max_len (push_all lib queue new) s
        (λ f queue'.
          fill lib max_len arrivals queue' (decode_frame lib f (drain_queue lib max_len s)))
        v
        (λ f queue'.
          fill-IsFilled max_len arrivals queue' (decode_frame lib f (drain_queue lib max_len s))
            (decode_frame-Fits lib max_len f s v)))
