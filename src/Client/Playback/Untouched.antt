-- ===== src/Client/Playback/Untouched.antt =====
-- The write callback leaves what stands behind the bytes that it writes (src/client.cpp).
use audpipe_cpp.Prelude.{
  subst, not, ◌||◌, ℕ, zero, suc, ◌+◌, ◌≤◌, ◌<◌, ◌≡◌, refl, sym, ap, ◌∙◌, ltb, ◌==◌, if_both,
  Option, none, some, List, [], ◌∷◌, drop, set, arith,
}
use audpipe_cpp.Client.State.{Client}
use audpipe_cpp.Client.Playback.{
  Opus, Output, Playing, drain, drain_queue, decode_frame, push_all, fill, write_callback,
}

drop-set {ℓ} :
    {A : Type ℓ} (xs : List A) (i n : ℕ) (x : A) → i < n → drop n (set xs i x) ≡ drop n xs
drop-set xs i zero x h = absurd (omega arith)
drop-set [] i (suc n) x h = refl
drop-set (y ∷ ys) zero (suc n) x h = refl
drop-set (y ∷ ys) (suc i) (suc n) x h = drop-set ys i n x (omega arith)

drop-nil {ℓ} : {A : Type ℓ} (n : ℕ) → drop {A = A} n [] ≡ []
drop-nil zero = refl
drop-nil (suc n) = refl

drop_more {ℓ} :
    {A : Type ℓ} (xs ys : List A) (m n : ℕ) → drop m xs ≡ drop m ys → m ≤ n → drop n xs ≡ drop n ys
drop_more xs ys zero n e h = ap (drop n) e
drop_more xs ys (suc m) zero e h = absurd (omega arith)
drop_more [] [] (suc m) (suc n) e h = refl
drop_more [] (y ∷ ys) (suc m) (suc n) e h =
    sym (drop-nil n) ∙ drop_more [] ys m n (drop-nil m ∙ e) (omega arith)
drop_more (x ∷ xs) [] (suc m) (suc n) e h =
    drop_more xs [] m n (e ∙ sym (drop-nil m)) (omega arith) ∙ drop-nil n
drop_more (x ∷ xs) (y ∷ ys) (suc m) (suc n) e h = drop_more xs ys m n e (omega arith)

abbrev pub IsBehind : Output → Output → Type 0
IsBehind o o' = (o.written ≤ o'.written) × (drop o'.written o'.dst ≡ drop o'.written o.dst)

IsBehind-trans : (o o' o'' : Output) → IsBehind o o' → IsBehind o' o'' → IsBehind o o''
IsBehind-trans o o' o'' (h, e) (k, f) =
    (omega arith, f ∙ drop_more o'.dst o.dst o'.written o''.written e k)

drain-IsBehind : (max_len : ℕ) (o : Output) (queue : List ℕ) → IsBehind o (drain max_len o queue).0
unfolding drain
drain-IsBehind max_len o [] = (omega arith, refl)
drain-IsBehind max_len o (b ∷ queue) =
    let o' : Output = record { dst = set o.dst o.written b; written = o.written + 1 } in
    if_both (λ (r : Output × List ℕ). IsBehind o r.0) (ltb o.written max_len)
      (IsBehind-trans o o' (drain max_len o' queue).0
        (omega arith, drop-set o.dst o.written (o.written + 1) b (omega arith))
        (drain-IsBehind max_len o' queue))
      (omega arith, refl)

module _ (lib : Opus) where
  abbrev pub Keeps : Playing lib → Playing lib × List (List ℕ) → Type 0
  Keeps s (s', queue) = IsBehind s.output s'.output

  drain_queue-IsBehind :
      (max_len : ℕ) (s : Playing lib) → IsBehind s.output (drain_queue lib max_len s).output
  unfolding drain_queue
  drain_queue-IsBehind max_len s = drain-IsBehind max_len s.output s.playback_queue

  -- A round, and then the rest.
  round-Keeps :
      (max_len : ℕ) (s : Playing lib) (frame : List ℕ) (out : Playing lib × List (List ℕ))
      → Keeps (decode_frame lib frame (drain_queue lib max_len s)) out
      → Keeps s out
  unfolding decode_frame
  round-Keeps max_len s frame (s', queue) later =
      IsBehind-trans s.output (drain_queue lib max_len s).output s'.output
        (drain_queue-IsBehind max_len s) later

  pub fill-Keeps :
      (max_len : ℕ) (arrivals : List (List (List ℕ))) (queue : List (List ℕ)) (s : Playing lib)
      → Keeps s (fill lib max_len arrivals queue s)
  unfolding fill
  fill-Keeps max_len [] [] s =
      if_both (Keeps s) (ltb s.output.written max_len) (drain_queue-IsBehind max_len s)
        (omega arith, refl)
  fill-Keeps max_len [] (frame ∷ queue) s =
      let d = drain_queue lib max_len s in
      if_both (Keeps s) (ltb s.output.written max_len)
        (if_both (Keeps s) (d.output.written == max_len) (drain_queue-IsBehind max_len s) (
          round-Keeps max_len s frame (fill lib max_len [] queue (decode_frame lib frame d))
            (fill-Keeps max_len [] queue (decode_frame lib frame d))))
        (omega arith, refl)
  fill-Keeps max_len (new ∷ arrivals) queue s =
      let d = drain_queue lib max_len s in
      if_both (Keeps s) (ltb s.output.written max_len)
        (if_both (Keeps s) (d.output.written == max_len) (drain_queue-IsBehind max_len s) (
          after_push (push_all lib queue new) (λ frame queue'.
            round-Keeps max_len s frame
              (fill lib max_len arrivals queue' (decode_frame lib frame d))
              (fill-Keeps max_len arrivals queue' (decode_frame lib frame d)))))
        (omega arith, refl)
    where
      after_push :
          (pushed : List (List ℕ))
          → ((frame : List ℕ) (queue' : List (List ℕ))
              → Keeps s (
                  fill lib max_len arrivals queue'
                    (decode_frame lib frame (drain_queue lib max_len s))))
          → Keeps s (elim pushed as (λ _. Playing lib × List (List ℕ)) [
            | [] ↦ (drain_queue lib max_len s, [])
            | frame ∷ queue' ↦
                fill lib max_len arrivals queue'
                  (decode_frame lib frame (drain_queue lib max_len s))
          ])
      after_push [] later = drain_queue-IsBehind max_len s
      after_push (frame ∷ queue') later = later frame queue'

  abbrev KeepsFrom : List ℕ → Option (Playing lib × Client) → Type 0
  KeepsFrom dst none = Unit
  KeepsFrom dst (some (end, c)) = IsBehind (record { dst = dst; written = 0 }) end.output

  -- What stands behind the bytes that a call wrote is what was there.
  pub write_callback-IsBehind :
      (max_len : ℕ) (arrivals : List (List (List ℕ))) (dst : List ℕ) (dec : lib.Decoder)
      (buf : List ℕ) (c c' : Client) (end : Playing lib)
      → write_callback lib max_len arrivals (some dst) dec buf c ≡ some (end, c')
      → IsBehind (record { dst = dst; written = 0 }) end.output
  unfolding write_callback
  write_callback-IsBehind max_len arrivals dst dec buf c c' end e =
      let start : Playing lib = record {
        output = record { dst = dst; written = 0 };
        playback_queue = c.playback_queue;
        opusdec = dec;
        pcm_decbuf = buf;
      } in
      subst (KeepsFrom dst) e (
        if_both (KeepsFrom dst) (max_len == 0 || c.should_stop || not c.healthy) tt
          (fill-Keeps max_len arrivals c.compressed_queue start))
