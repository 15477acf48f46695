-- ===== src/Backend/WriteLoop/Chunks.antt =====
-- Which of the bytes of the write callback reach the FIFO (src/audio/pulseaudio_backend.cpp).
use audpipe_cpp.Prelude.{
  ℕ, zero, suc, ◌≡◌, refl, sym, ap, ◌∙◌, Bool, true, false, Option, none, some, List, [], ◌∷◌, ◌++◌,
  length, take, drop, take-append-drop, take_all, ◌<◌, append_assoc, append-nil, if_both, arith,
  map,
}
use audpipe_cpp.Backend.{Backend, is_virtual_input_ready}
use audpipe_cpp.Backend.VirtualInput.{Ending}
use audpipe_cpp.Backend.WriteLoop.{
  Write, wrote, interrupted, broken, write_error, would_block, Stop, finished, gave_up, shut_down,
  unfinished, died, write_chunk, Production, produced, callback_failed, Turn, State, after_chunk,
  chunk, write_production, take_turn, take_turns, run_virtual_input,
}

-- What a chunk loses: `written` went into the FIFO and `left` did not.
write_chunk_lem :
    (writes : List Write) (bytes pipe : List ℕ)
    → let (stop, left, pipe') = write_chunk writes bytes pipe in
      (written : List ℕ) × (written ++ left ≡ bytes) × (pipe' ≡ pipe ++ written)
unfolding write_chunk
write_chunk_lem writes [] pipe = ([], refl, sym (append-nil pipe))
write_chunk_lem [] (b ∷ left) pipe = ([], refl, sym (append-nil pipe))
write_chunk_lem (wrote zero ∷ writes) (b ∷ left) pipe = ([], refl, sym (append-nil pipe))
write_chunk_lem (wrote (suc n) ∷ writes) (b ∷ left) pipe =
    let (written, all, sent) = write_chunk_lem writes (drop n left) (pipe ++ b ∷ take n left) in
    let step = b ∷ take n left in
    (
      step ++ written,
      ap (λ r. b ∷ r)
          (append_assoc (take n left) written (write_chunk writes (drop n left) (pipe ++ step)).1
            ∙ ap (λ r. take n left ++ r) all
            ∙ take-append-drop n left),
      sent ∙ append_assoc pipe step written,
    )
write_chunk_lem (interrupted ∷ writes) (b ∷ left) pipe = write_chunk_lem writes (b ∷ left) pipe
write_chunk_lem (would_block true ∷ writes) (b ∷ left) pipe = ([], refl, sym (append-nil pipe))
write_chunk_lem (would_block false ∷ writes) (b ∷ left) pipe = ([], refl, sym (append-nil pipe))
write_chunk_lem (broken ∷ writes) (b ∷ left) pipe = ([], refl, sym (append-nil pipe))
write_chunk_lem (write_error ∷ writes) (b ∷ left) pipe = ([], refl, sym (append-nil pipe))

-- Bytes that are a beginning of each chunk, one behind the other.
abbrev pub AreBeginnings : List (List ℕ) → List ℕ → Type 0
AreBeginnings [] sent = sent ≡ []
AreBeginnings (bytes ∷ rest) sent =
    (written left later : List ℕ) × (written ++ left ≡ bytes)
    × (sent ≡ written ++ later)
    × AreBeginnings rest later

abbrev pub chunk_of : Turn → List ℕ
chunk_of t = elim t.production [ callback_failed ↦ [] | produced bytes ↦ chunk bytes ]

AreBeginnings-nil : (chunks : List (List ℕ)) → AreBeginnings chunks []
AreBeginnings-nil [] = refl
AreBeginnings-nil (bytes ∷ rest) = ([], bytes, [], refl, refl, AreBeginnings-nil rest)

-- What a turn sends.
abbrev IsSent : List ℕ → List ℕ → List ℕ → Type 0
IsSent bytes pipe pipe' =
    (written : List ℕ) × (left : List ℕ) × (written ++ left ≡ bytes) × (pipe' ≡ pipe ++ written)

IsSent-nothing : (bytes pipe : List ℕ) → IsSent bytes pipe pipe
IsSent-nothing bytes pipe = ([], bytes, refl, sym (append-nil pipe))

after_chunk-pipe :
    (stop : Stop) (b : Backend) (pipe : List ℕ) → (after_chunk stop (b, pipe)).1.1 ≡ pipe
unfolding after_chunk
after_chunk-pipe finished b pipe = refl
after_chunk-pipe gave_up b pipe = refl
after_chunk-pipe shut_down b pipe = refl
after_chunk-pipe unfinished b pipe = refl
after_chunk-pipe (died reason) b pipe = refl

write_production-IsSent :
    (bytes : List ℕ) (writes : List Write) (b : Backend) (pipe : List ℕ)
    → IsSent (chunk bytes) pipe (write_production (produced bytes) writes (b, pipe)).1.1
unfolding write_production
write_production-IsSent bytes writes b pipe =
    let (stop, left, pipe') = write_chunk writes (chunk bytes) pipe in
    let (written, all, sent) = write_chunk_lem writes (chunk bytes) pipe in
    (written, left, all, after_chunk-pipe stop b pipe' ∙ sent)

production-IsSent :
    (production : Production) (stopped shutdown : Bool) (writes : List Write) (b : Backend)
    (pipe : List ℕ)
    → let t : Turn = record {
      stopped = stopped;
      shutdown = shutdown;
      production = production;
      writes = writes;
    } in
      IsSent (chunk_of t) pipe (take_turn t (b, pipe)).1.1
unfolding take_turn write_production
production-IsSent production true shutdown writes b pipe = IsSent-nothing _ pipe
production-IsSent production false true writes b pipe = IsSent-nothing _ pipe
production-IsSent callback_failed false false writes b pipe = IsSent-nothing [] pipe
production-IsSent (produced bytes) false false writes b pipe =
    write_production-IsSent bytes writes b pipe

take_turns-AreBeginnings :
    (turns : List Turn) (b : Backend) (pipe : List ℕ)
    → (sent : List ℕ) × ((take_turns turns (b, pipe)).1.1 ≡ pipe ++ sent)
      × AreBeginnings (map chunk_of turns) sent
unfolding take_turns
take_turns-AreBeginnings [] b pipe = ([], sym (append-nil pipe), refl)
take_turns-AreBeginnings (t ∷ rest) b pipe =
    after (take_turn t (b, pipe))
      (production-IsSent t.production t.stopped t.shutdown t.writes b pipe)
      (λ b' pipe'. take_turns-AreBeginnings rest b' pipe')
  where
    after :
        (turn : Option Ending × State)
        → IsSent (chunk_of t) pipe turn.1.1
        → ((b' : Backend) (pipe' : List ℕ)
            → (sent : List ℕ) × ((take_turns rest (b', pipe')).1.1 ≡ pipe' ++ sent)
              × AreBeginnings (map chunk_of rest) sent)
        → (sent : List ℕ) × ((elim turn.0 as (λ o. Ending × State) [
          | some e ↦ (e, turn.1)
          | none ↦ take_turns rest turn.1
        ]).1.1
            ≡ pipe ++ sent)
          × AreBeginnings (map chunk_of (t ∷ rest)) sent
    after (some e, (b', pipe')) (written, left, all, same) later = (
      written,
      same,
      (written, left, [], all, sym (append-nil written), AreBeginnings-nil (map chunk_of rest)),
    )
    after (none, (b', pipe')) (written, left, all, same) later =
        let (sent, same', begin) = later b' pipe' in
        (
          written ++ sent,
          same' ∙ ap (λ r. r ++ sent) same ∙ append_assoc pipe written sent,
          (written, left, sent, all, refl, begin),
        )

-- Whatever the loop meets, what it adds to the FIFO is a beginning of each chunk that the callback
-- gives, in order: no byte is repeated, made up or moved.
pub run-AreBeginnings :
    (turns : List Turn) (b : Backend) (pipe : List ℕ)
    → (sent : List ℕ) × ((run_virtual_input turns (b, pipe)).1.1 ≡ pipe ++ sent)
      × AreBeginnings (map chunk_of turns) sent
unfolding run_virtual_input
run-AreBeginnings turns b pipe =
    if_both
      (λ (r : Ending × State).
        (sent : List ℕ) × (r.1.1 ≡ pipe ++ sent) × AreBeginnings (map chunk_of turns) sent)
      (is_virtual_input_ready b)
      (take_turns-AreBeginnings turns (record b { playback = true }) pipe)
      ([], sym (append-nil pipe), AreBeginnings-nil (map chunk_of turns))

take-append : (xs ys : List ℕ) → take (length xs) (xs ++ ys) ≡ xs
take-append [] ys = refl
take-append (x ∷ xs) ys = ap (λ r. x ∷ r) (take-append xs ys)

drop-append_self : (xs ys : List ℕ) → drop (length xs) (xs ++ ys) ≡ ys
drop-append_self [] ys = refl
drop-append_self (x ∷ xs) ys = drop-append_self xs ys

write_chunk_full :
    (first next : ℕ) (part left : List ℕ) (writes : List Write) (pipe : List ℕ)
    → write_chunk
        (wrote (length (first ∷ part)) ∷ would_block false ∷ writes)
        (first ∷ (part ++ next ∷ left))
        pipe
      ≡ (gave_up, next ∷ left, pipe ++ first ∷ part)
unfolding write_chunk
write_chunk_full first next part left writes pipe =
    ap
      (λ rest.
        write_chunk (would_block false ∷ writes) rest
          (pipe ++ first ∷ take (length part) (part ++ next ∷ left)))
      (drop-append_self part (next ∷ left))
    ∙ ap (λ sent. (gave_up, next ∷ left, pipe ++ first ∷ sent)) (take-append part (next ∷ left))

-- When the FIFO is full after a part of a chunk, and no shutdown is requested, the loop goes on to the
-- next chunk: the rest of this one never reaches the FIFO.
full_pipe_drops :
    (first next : ℕ) (part left : List ℕ) (writes : List Write) (b : Backend) (pipe : List ℕ)
    → length (part ++ next ∷ left) < 3840
    → take_turn
        (record {
          stopped = false;
          shutdown = false;
          production = produced (first ∷ part ++ next ∷ left);
          writes = wrote (length (first ∷ part)) ∷ would_block false ∷ writes;
        })
        (b, pipe)
      ≡ (none, (b, pipe ++ first ∷ part))
unfolding take_turn write_production after_chunk
full_pipe_drops first next part left writes b pipe h =
    rw
      (
        take_all 3839 (part ++ next ∷ left) (omega arith),
        write_chunk_full first next part left writes pipe,
      )
      refl
