-- ===== src/Client/Playback/Bounded.antt =====
-- The queue of compressed frames stays within its bound while the write callback runs (src/client.cpp).
use audpipe_cpp.Prelude.{ℕ, ◌≤◌, ltb, ◌==◌, if_both, List, [], ◌∷◌, length, arith}
use audpipe_cpp.Client.Receive.{push}
use audpipe_cpp.Client.Receive.Queue.{push-bounded}
use audpipe_cpp.Client.Playback.{Opus, Playing, drain_queue, decode_frame, push_all, fill}

module _ (lib : Opus) where
  push_all-bounded : (q new : List (List ℕ)) → length q ≤ 256 → length (push_all lib q new) ≤ 256
  push_all-bounded q [] h = h
  push_all-bounded q (f ∷ fs) h = push_all-bounded (push q f) fs (push-bounded q f h)

  abbrev pub HasRoom : Playing lib × List (List ℕ) → Type 0
  HasRoom (s, queue) = length queue ≤ 256

  pub fill-HasRoom :
      (max_len : ℕ) (arrivals : List (List (List ℕ))) (queue : List (List ℕ)) (s : Playing lib)
      → length queue ≤ 256
      → HasRoom (fill lib max_len arrivals queue s)
  unfolding fill
  fill-HasRoom max_len [] [] s h =
      if_both HasRoom (ltb s.output.written max_len) (omega arith) (omega arith)
  fill-HasRoom max_len [] (frame ∷ queue) s h =
      let d = drain_queue lib max_len s in
      if_both HasRoom (ltb s.output.written max_len)
        (if_both HasRoom (d.output.written == max_len) h
          (fill-HasRoom max_len [] queue (decode_frame lib frame d) (omega arith)))
        h
  fill-HasRoom max_len (new ∷ arrivals) queue s h =
      let d = drain_queue lib max_len s in
      if_both HasRoom (ltb s.output.written max_len)
        (if_both HasRoom (d.output.written == max_len) h (
          after_push (push_all lib queue new) d (push_all-bounded queue new h)
            (λ frame queue' k. fill-HasRoom max_len arrivals queue' (decode_frame lib frame d) k)))
        h
    where
      after_push :
          (pushed : List (List ℕ)) (d : Playing lib)
          → length pushed ≤ 256
          → ((frame : List ℕ) (queue' : List (List ℕ))
              → length queue' ≤ 256
              → HasRoom (fill lib max_len arrivals queue' (decode_frame lib frame d)))
          → HasRoom (elim pushed as (λ _. Playing lib × List (List ℕ)) [
            | [] ↦ (d, [])
            | frame ∷ queue' ↦ fill lib max_len arrivals queue' (decode_frame lib frame d)
          ])
      after_push [] d k later = omega arith
      after_push (frame ∷ queue') d k later = later frame queue' (omega arith)
