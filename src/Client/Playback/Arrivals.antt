-- ===== src/Client/Playback/Arrivals.antt =====
-- The frames that come while a call of the write callback runs (src/client.cpp).
pub mod Callback
use audpipe_cpp.Prelude.{
  ℕ, ◌+◌, ◌≤◌, ◌≡◌, ◌≢◌, refl, sym, ap, ◌∙◌, Bool, true, false, ◌==◌, ltb, if◌then◌else◌, if_both,
  if_split, some, List, [], ◌∷◌, ◌++◌, append_assoc, append-nil, length, length-append, arith,
}
use audpipe_cpp.Client.State.{Client}
use audpipe_cpp.Client.Receive.{push}
use audpipe_cpp.Client.Receive.Queue.{push_room}
use audpipe_cpp.Client.Playback.{
  Opus, Playing, drain_queue, decode_frame, push_all, fill, write_callback,
}
use audpipe_cpp.Client.Playback.Buffer.{delivered}
use audpipe_cpp.Client.Playback.Delivery.{
  decoded, decoder_after, audio, Delivers, Delivers-none, Delivers-frame, Fits, decode_frame-Fits,
}
use audpipe_cpp.Client.Playback.Starvation.{IsFilled, fill-IsFilled}

-- All that may come.
abbrev pub all_of : List (List (List ℕ)) → List (List ℕ)
all_of [] = []
all_of (new ∷ arrivals) = new ++ all_of arrivals

module _ (lib : Opus) where
  -- With room for all, queueing appends.
  push_all_room :
      (queue new : List (List ℕ))
      → length (queue ++ new) ≤ 256
      → push_all lib queue new ≡ queue ++ new
  push_all_room queue [] room = sym (append-nil queue)
  push_all_room queue (f ∷ fs) room =
      let one = push_room queue f (omega (arith, length-append queue (f ∷ fs))) in
      ap (λ q. push_all lib q fs) one
      ∙ push_all_room (queue ++ f ∷ []) fs
          (omega (arith, ap length (append_assoc queue (f ∷ []) fs)))
      ∙ append_assoc queue (f ∷ []) fs

  -- The frames that have come by the time the call ends: those that are queued before the rounds that it
  -- makes.
  unfoldable pub came :
      ℕ → (arrivals : List (List (List ℕ))) → List (List ℕ) → Playing lib → List (List ℕ)
  came max_len [] queue s = []
  came max_len (new ∷ arrivals) queue s =
      let d = drain_queue lib max_len s in
      let rest = elim (push_all lib queue new) as (λ _. List (List ℕ)) [
        | [] ↦ []
        | frame ∷ queue' ↦ new ++ came max_len arrivals queue' (decode_frame lib frame d)
      ] in
      if ltb s.output.written max_len
      then (if d.output.written == max_len then [] else rest)
      else []

  -- No more come than may come.
  pub came-short :
      (max_len : ℕ) (arrivals : List (List (List ℕ))) (queue : List (List ℕ)) (s : Playing lib)
      → length (came max_len arrivals queue s) ≤ length (all_of arrivals)
  unfolding came
  came-short max_len [] queue s = omega arith
  came-short max_len (new ∷ arrivals) queue s =
      let d = drain_queue lib max_len s in
      if_both IsShort (ltb s.output.written max_len)
        (if_both IsShort (d.output.written == max_len) (omega arith)
          (by_pushed (push_all lib queue new) (λ queue' s'. came-short max_len arrivals queue' s')))
        (omega arith)
    where
      IsShort : List (List ℕ) → Type 0
      IsShort come = length come ≤ length (new ++ all_of arrivals)

      by_pushed :
          (p : List (List ℕ))
          → ((queue' : List (List ℕ)) (s' : Playing lib)
              → length (came max_len arrivals queue' s') ≤ length (all_of arrivals))
          → IsShort (elim p as (λ _. List (List ℕ)) [
            | [] ↦ []
            | frame ∷ queue' ↦
                new
                ++ came max_len arrivals queue' (decode_frame lib frame (drain_queue lib max_len s))
          ])
      by_pushed [] later = omega arith
      by_pushed (frame ∷ queue') later =
          let s' = decode_frame lib frame (drain_queue lib max_len s) in
          omega (
            arith,
            later queue' s',
            length-append new (came max_len arrivals queue' s'),
            length-append new (all_of arrivals),
          )

  -- A run of `fill`: of the frames that were queued and that came, in order, it takes some first ones.
  abbrev pub Takes :
      Playing lib → (queue come : List (List ℕ)) → Playing lib × List (List ℕ) → Type 0
  Takes s queue come out =
      (taken : List (List ℕ)) × Delivers lib s (taken, out.1) out × (taken ++ out.1 ≡ queue ++ come)

  Takes-self : (s : Playing lib) (queue : List (List ℕ)) → Takes s queue [] (s, queue)
  Takes-self s queue = (
    [],
    record { left = refl; bytes = sym (append-nil (audio lib s)); decoder = refl },
    sym (append-nil queue),
  )

  Takes-drained :
      (max_len : ℕ) (s : Playing lib) (queue : List (List ℕ))
      → Fits lib max_len s
      → Takes s queue [] (drain_queue lib max_len s, queue)
  Takes-drained max_len s queue (h, k) =
      ([], Delivers-none lib max_len s queue h k, sym (append-nil queue))

  Takes-round :
      (max_len : ℕ) (s : Playing lib) (frame : List ℕ) (queue queue' new come : List (List ℕ))
      (out : Playing lib × List (List ℕ))
      → Fits lib max_len s
      → frame ∷ queue' ≡ queue ++ new
      → Takes (decode_frame lib frame (drain_queue lib max_len s)) queue' come out
      → Takes s queue (new ++ come) out
  Takes-round max_len s frame queue queue' new come out (h, k) same (taken, delivers, in_order) = (
    frame ∷ taken,
    Delivers-frame lib max_len s frame (taken, out.1) out h k delivers,
    ap (λ q. frame ∷ q) in_order ∙ ap (λ q. q ++ come) same ∙ append_assoc queue new come,
  )

  -- The two breaks of the loop.
  by_tests :
      (full stopped : Bool) (max_len : ℕ) (s : Playing lib) (queue come : List (List ℕ))
      (out : Playing lib × List (List ℕ))
      → Fits lib max_len s
      → Takes s queue come out
      → Takes s queue (if full then (if stopped then [] else come) else []) (
          if full
          then (if stopped then (drain_queue lib max_len s, queue) else out)
          else (s, queue))
  by_tests true true max_len s queue come out v later = Takes-drained max_len s queue v
  by_tests true false max_len s queue come out v later = later
  by_tests false stopped max_len s queue come out v later = Takes-self s queue

  -- The round of a frame that comes, or is queued already.
  by_queue :
      (max_len : ℕ) (arrivals : List (List (List ℕ))) (new queue p : List (List ℕ))
      (s : Playing lib)
      → Fits lib max_len s
      → p ≡ queue ++ new
      → ((f : List ℕ) (queue' : List (List ℕ))
          → f ∷ queue' ≡ queue ++ new
          → let s' = decode_frame lib f (drain_queue lib max_len s) in
            Takes s' queue' (came max_len arrivals queue' s') (fill lib max_len arrivals queue' s'))
      → Takes s queue
          (elim p as (λ _. List (List ℕ)) [
            | [] ↦ []
            | frame ∷ queue' ↦
                new
                ++ came max_len arrivals queue' (decode_frame lib frame (drain_queue lib max_len s))
          ])
          (elim p as (λ _. Playing lib × List (List ℕ)) [
            | [] ↦ (drain_queue lib max_len s, [])
            | frame ∷ queue' ↦
                fill lib max_len arrivals queue'
                  (decode_frame lib frame (drain_queue lib max_len s))
          ])
  by_queue max_len arrivals new [] [] s (h, k) same later =
      ([], Delivers-none lib max_len s [] h k, refl)
  by_queue max_len arrivals new (f ∷ queue) [] s v same later = cc
  by_queue max_len arrivals new queue (f ∷ queue') s v same later =
      let s' = decode_frame lib f (drain_queue lib max_len s) in
      Takes-round max_len s f queue queue' new (came max_len arrivals queue' s')
        (fill lib max_len arrivals queue' s') v same (later f queue' same)

  -- Whatever comes meanwhile, while the queue has room for all that may come: what was written and what
  -- waits is what there was and then the decoded bytes of some first ones of the frames that were
  -- queued and that came, in order, and the others wait.
  pub fill-Takes :
      (max_len : ℕ) (arrivals : List (List (List ℕ))) (queue : List (List ℕ)) (s : Playing lib)
      → Fits lib max_len s
      → length (queue ++ all_of arrivals) ≤ 256
      → Takes s queue (came max_len arrivals queue s) (fill lib max_len arrivals queue s)
  unfolding came fill
  fill-Takes max_len [] [] s v room =
      if_both (Takes s [] []) (ltb s.output.written max_len) (Takes-drained max_len s [] v)
        (Takes-self s [])
  fill-Takes max_len [] (f ∷ queue) s v room =
      let d = drain_queue lib max_len s in
      let s' = decode_frame lib f d in
      if_both (Takes s (f ∷ queue) []) (ltb s.output.written max_len)
        (if_both (Takes s (f ∷ queue) []) (d.output.written == max_len)
          (Takes-drained max_len s (f ∷ queue) v)
          (Takes-round max_len s f (f ∷ queue) queue [] [] (fill lib max_len [] queue s') v
            (sym (append-nil (f ∷ queue)))
            (fill-Takes max_len [] queue s' (decode_frame-Fits lib max_len f s v)
              (omega (arith, length-append queue [], length-append (f ∷ queue) [])))))
        (Takes-self s (f ∷ queue))
  fill-Takes max_len (new ∷ arrivals) queue s v room =
      by_tests (ltb s.output.written max_len)
        ((drain_queue lib max_len s).output.written == max_len) max_len s queue _ _ v
        (by_queue max_len arrivals new queue (push_all lib queue new) s v
          (push_all_room queue new (
            omega (
              arith,
              length-append queue new,
              length-append new (all_of arrivals),
              length-append queue (new ++ all_of arrivals),
            )))
          (λ f queue' same.
            fill-Takes max_len arrivals queue' (decode_frame lib f (drain_queue lib max_len s))
              (decode_frame-Fits lib max_len f s v)
              (omega (
                arith,
                ap length same,
                length-append queue' (all_of arrivals),
                length-append queue new,
                length-append new (all_of arrivals),
                length-append queue (new ++ all_of arrivals),
              ))))
