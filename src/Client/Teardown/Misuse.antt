-- ===== src/Client/Teardown/Misuse.antt =====
-- When the decoder is used after it was freed (src/client.cpp).
use audpipe_cpp.Prelude.{◌≡◌, ◌≢◌, refl, ◌⊎◌, inl, Bool, true, false, arith}
use audpipe_cpp.Client.Teardown.{
  MainAt, serving, stopping, silenced, freed, joined, decoding, Threads, started, Step, stop,
  silence, free, join, enter, decode, leave, finish, Reach, here, next,
}

abbrev has_stopped : MainAt → Bool
has_stopped serving = false
has_stopped stopping = true
has_stopped silenced = true
has_stopped freed = true
has_stopped joined = true

abbrev has_decoder : MainAt → Bool
has_decoder serving = true
has_decoder stopping = true
has_decoder silenced = true
has_decoder freed = false
has_decoder joined = false

-- What the main thread has done; a misuse needs a decoder that was freed.
abbrev IsOrdered : Threads → Type 0
IsOrdered s =
    (s.should_stop ≡ has_stopped s.main_at)
    × (s.decoder_alive ≡ has_decoder s.main_at)
    × ((s.misused ≡ false) ⊎ (s.decoder_alive ≡ false))

Step-IsOrdered : {s t : Threads} → Step s t → IsOrdered s → IsOrdered t
Step-IsOrdered (stop at) v = ground arith
Step-IsOrdered (silence at) v = ground arith
Step-IsOrdered (free at) v = ground arith
Step-IsOrdered (join at done) v = ground arith
Step-IsOrdered (enter at going) v = ground arith
Step-IsOrdered (decode at) v = ground arith
Step-IsOrdered (leave at) v = ground arith
Step-IsOrdered (finish at) v = ground arith

Reach-IsOrdered : {s t : Threads} → IsOrdered s → Reach s t → IsOrdered t
Reach-IsOrdered v here = v
Reach-IsOrdered v (next r step) = Step-IsOrdered step (Reach-IsOrdered v r)

-- No callback decodes, and none can start to.
abbrev IsQuiet : Threads → Type 0
IsQuiet s = (s.should_stop ≡ true) × (s.writer_at ≢ decoding) × (s.misused ≡ false)

Step-IsQuiet : {s t : Threads} → Step s t → IsQuiet s → IsQuiet t
Step-IsQuiet (stop at) (stopped, idle, well) = (refl, idle, well)
Step-IsQuiet (silence at) v = v
Step-IsQuiet (free at) v = v
Step-IsQuiet (join at done) v = v
Step-IsQuiet (enter at going) (stopped, idle, well) = cc
Step-IsQuiet (decode at) (stopped, idle, well) = absurd (idle at)
Step-IsQuiet (leave at) (stopped, idle, well) = absurd (idle at)
Step-IsQuiet (finish at) (stopped, idle, well) = (stopped, λ h. cc, well)

Reach-IsQuiet : {s t : Threads} → IsQuiet s → Reach s t → IsQuiet t
Reach-IsQuiet v here = v
Reach-IsQuiet v (next r step) = Step-IsQuiet step (Reach-IsQuiet v r)

-- However the two threads have come to the destructor, the decoder has not been misused before. If a
-- write callback is in flight then, it can be: the decoder is freed and the callback goes on to decode
-- with it. If none is, it never is, whatever the threads do.
pub decoder_misused :
    (s : Threads)
    → Reach started s
    → s.main_at ≡ silenced
    → (s.misused ≡ false)
      × (s.writer_at ≡ decoding → (t : Threads) × Reach s t × (t.misused ≡ true))
      × (s.writer_at ≢ decoding → (t : Threads) → Reach s t → t.misused ≡ false)
decoder_misused s reached at =
    let (stopped, alive, well) = Reach-IsOrdered (refl, refl, inl refl) reached in
    let well : s.misused ≡ false = ground arith in
    (
      well,
      λ busy. (_, next (next here (free at)) (decode busy), ground arith),
      λ idle t r. (Reach-IsQuiet (ground arith, idle, well) r).2,
    )
