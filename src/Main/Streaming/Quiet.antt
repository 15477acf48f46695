-- ===== src/Main/Streaming/Quiet.antt =====
-- When no more packets come, all that waits is given (src/client.cpp).
use audpipe_cpp.Prelude.{
  ℕ, ◌*◌, ◌≤◌, ◌<◌, ◌≡◌, refl, sym, ap, ◌∙◌, ◌⊎◌, inl, inr, List, [], ◌∷◌, ◌++◌, append_assoc,
  append-nil, length, length-append, subst, arith,
}
use audpipe_cpp.Client.Receive.Queue.{payloads}
use audpipe_cpp.Client.Playback.{Opus}
use audpipe_cpp.Client.Playback.Delivery.{decoded, decoder_after}
use audpipe_cpp.Client.Playback.Decoding.{decoded-append}
use audpipe_cpp.Main.Streaming.{Round, Listener, next_turn, chunk_given, after_rounds}
use audpipe_cpp.Client.Playback.Arrivals.{came}
use audpipe_cpp.Client.Playback.Arrivals.Callback.{came_during}
use audpipe_cpp.Main.Streaming.Heard.{
  packets_of_turn, packets_in, given_in, HasRoom, IsListening, IsSilent, Heard, next-Turned,
  rounds-Heard,
}

-- Rounds in which no packet comes.
abbrev pub AreQuiet : List Round → Type 0
AreQuiet [] = Unit
AreQuiet (r ∷ rest) = (payloads r.frames ≡ []) × (r.arrivals ≡ []) × AreQuiet rest

nil-append {ℓ} : {A : Type ℓ} (xs ys : List A) → xs ++ ys ≡ [] → (xs ≡ []) × (ys ≡ [])
nil-append [] ys e = (refl, e)
nil-append (x ∷ xs) ys e = cc

module _ (lib : Opus) where
  nothing_comes :
      (r : Round) (l : Listener lib)
      → payloads r.frames ≡ []
      → r.arrivals ≡ []
      → packets_of_turn lib r l ≡ []
  unfolding packets_of_turn came_during came
  nothing_comes r l no_frame no_arrival = rw (no_frame, no_arrival) refl

  packets_in-AreQuiet :
      (rs : List Round) (l : Listener lib) → AreQuiet rs → packets_in lib rs l ≡ []
  unfolding packets_in
  packets_in-AreQuiet [] l quiet = refl
  packets_in-AreQuiet (r ∷ rest) l (no_frame, no_arrival, quiet) =
      ap (λ ps. ps ++ packets_in lib rest (next_turn lib r l))
        (nothing_comes r l no_frame no_arrival)
      ∙ packets_in-AreQuiet rest (next_turn lib r l) quiet

  packets_in-append :
      (xs ys : List Round) (l : Listener lib)
      → packets_in lib (xs ++ ys) l
        ≡ packets_in lib xs l ++ packets_in lib ys (after_rounds lib xs l)
  unfolding packets_in after_rounds
  packets_in-append [] ys l = refl
  packets_in-append (r ∷ xs) ys l =
      let now = packets_of_turn lib r l in
      let l' = next_turn lib r l in
      ap (λ ps. now ++ ps) (packets_in-append xs ys l')
      ∙ sym (append_assoc now (packets_in lib xs l') (packets_in lib ys (after_rounds lib xs l')))

  after_rounds-append :
      (xs ys : List Round) (l : Listener lib)
      → after_rounds lib (xs ++ ys) l ≡ after_rounds lib ys (after_rounds lib xs l)
  unfolding after_rounds
  after_rounds-append [] ys l = refl
  after_rounds-append (r ∷ xs) ys l = after_rounds-append xs ys (next_turn lib r l)

  given_in-append :
      (xs ys : List Round) (l : Listener lib)
      → given_in lib (xs ++ ys) l ≡ given_in lib xs l ++ given_in lib ys (after_rounds lib xs l)
  unfolding after_rounds given_in
  given_in-append [] ys l = refl
  given_in-append (r ∷ xs) ys l =
      let bytes = chunk_given lib r l in
      let l' = next_turn lib r l in
      ap (λ rest. bytes ++ rest) (given_in-append xs ys l')
      ∙ sym (append_assoc bytes (given_in lib xs l') (given_in lib ys (after_rounds lib xs l')))

  HasRoom-front :
      (xs ys : List Round) (l : Listener lib) → HasRoom lib (xs ++ ys) l → HasRoom lib xs l
  HasRoom-front [] ys l room = tt
  HasRoom-front (r ∷ xs) ys l (room, later) = (room, HasRoom-front xs ys (next_turn lib r l) later)

  HasRoom-back :
      (xs ys : List Round) (l : Listener lib)
      → HasRoom lib (xs ++ ys) l
      → HasRoom lib ys (after_rounds lib xs l)
  unfolding after_rounds
  HasRoom-back [] ys l room = room
  HasRoom-back (r ∷ xs) ys l (room, later) = HasRoom-back xs ys (next_turn lib r l) later

  -- Nothing that waits, and nothing that comes: nothing waits then.
  after_rounds-IsSilent :
      (rs : List Round) (l : Listener lib)
      → IsListening lib l
      → HasRoom lib rs l
      → AreQuiet rs
      → IsSilent lib l
      → IsSilent lib (after_rounds lib rs l)
  after_rounds-IsSilent rs l v room quiet (no_bytes, no_packets) =
      let (heard, v') = rounds-Heard lib rs l v room in
      let end = after_rounds lib rs l in
      let (none_taken, none_left) = nil-append heard.taken end.client.compressed_queue (
        heard.in_order
        ∙ ap (λ q. q ++ packets_in lib rs l) no_packets
        ∙ packets_in-AreQuiet rs l quiet) in
      let (none_given, silent) = nil-append (given_in lib rs l) end.client.playback_queue (
        heard.heard
        ∙ ap (λ q. q ++ decoded lib heard.taken l.opusdec l.pcm_decbuf) no_bytes
        ∙ ap (λ fs. decoded lib fs l.opusdec l.pcm_decbuf) none_taken) in
      (silent, none_left)

  -- Each quiet turn gives a whole buffer, or else nothing waits behind the last.
  quiet_lem :
      (rs : List Round) (l : Listener lib)
      → IsListening lib l
      → HasRoom lib rs l
      → AreQuiet rs
      → (length (given_in lib rs l) ≡ 3840 * length rs) ⊎ IsSilent lib (after_rounds lib rs l)
  unfolding given_in after_rounds
  quiet_lem [] l v room quiet = inl refl
  quiet_lem (r ∷ rest) l v (room, later) (no_frame, no_arrival, quiet) =
      let l' = next_turn lib r l in
      let (heard, v', bounded, full) = next-Turned lib r l v room in
      elim full [
        | inr silent ↦ inr (after_rounds-IsSilent rest l' v' later quiet silent)
        | inl whole ↦ elim (quiet_lem rest l' v' later quiet) [
          | inr silent ↦ inr silent
          | inl all ↦
              inl (omega (arith, length-append (chunk_given lib r l) (given_in lib rest l')))
        ]
      ]

  -- What a listener holds and what comes to it, decoded.
  abbrev pub audio_of : Listener lib → List (List ℕ) → List ℕ
  audio_of l came =
      l.client.playback_queue
      ++ decoded lib (l.client.compressed_queue ++ came) l.opusdec l.pcm_decbuf

  -- With nothing left to wait, all has been given.
  all_given :
      (came : List (List ℕ)) (l l' : Listener lib) (bytes : List ℕ)
      → Heard lib came l l' bytes
      → IsSilent lib l'
      → bytes ≡ audio_of l came
  all_given came l l' bytes heard (no_bytes, no_packets) =
      sym (append-nil bytes)
      ∙ ap (λ q. bytes ++ q) (sym no_bytes)
      ∙ heard.heard
      ∙ ap (λ fs. l.client.playback_queue ++ decoded lib fs l.opusdec l.pcm_decbuf)
          (sym (append-nil heard.taken)
            ∙ ap (λ q. heard.taken ++ q) (sym no_packets)
            ∙ heard.in_order)

  -- What was given is no more than there was.
  given_short :
      (came : List (List ℕ)) (l l' : Listener lib) (bytes : List ℕ)
      → Heard lib came l l' bytes
      → length bytes ≤ length (audio_of l came)
  given_short came l l' bytes heard =
      let (dec, buf) = decoder_after lib heard.taken l.opusdec l.pcm_decbuf in
      let waiting = l'.client.compressed_queue in
      let first = decoded lib heard.taken l.opusdec l.pcm_decbuf in
      let whole : decoded lib (l.client.compressed_queue ++ came) l.opusdec l.pcm_decbuf
          ≡ first ++ decoded lib waiting dec buf =
        ap (λ fs. decoded lib fs l.opusdec l.pcm_decbuf) (sym heard.in_order)
        ∙ decoded-append lib heard.taken waiting l.opusdec l.pcm_decbuf in
      omega (
        arith,
        length-append bytes l'.client.playback_queue,
        ap length heard.heard,
        length-append l.client.playback_queue first,
        length-append l.client.playback_queue
            (decoded lib (l.client.compressed_queue ++ came) l.opusdec l.pcm_decbuf),
        ap length whole,
        length-append first (decoded lib waiting dec buf),
      )

  -- When enough quiet turns follow, all that waited and all that came is given.
  pub quiet-given :
      (rs quiet : List Round) (l : Listener lib)
      → IsListening lib l
      → HasRoom lib (rs ++ quiet) l
      → AreQuiet quiet
      → length (audio_of l (packets_in lib rs l)) < 3840 * length quiet
      → given_in lib (rs ++ quiet) l ≡ audio_of l (packets_in lib rs l)
  quiet-given rs quiet l v room silent enough =
      let l1 = after_rounds lib rs l in
      let (before, v1) = rounds-Heard lib rs l v (HasRoom-front rs quiet l room) in
      let (heard, v') = rounds-Heard lib (rs ++ quiet) l v room in
      let all_come =
        packets_in-append rs quiet l
        ∙ ap (λ ps. packets_in lib rs l ++ ps) (packets_in-AreQuiet quiet l1 silent)
        ∙ append-nil (packets_in lib rs l) in
      elim (quiet_lem quiet l1 v1 (HasRoom-back rs quiet l room) silent) [
        | inr none_left ↦
            all_given (packets_in lib (rs ++ quiet) l) l (after_rounds lib (rs ++ quiet) l)
              (given_in lib (rs ++ quiet) l) heard
              (subst (IsSilent lib) (sym (after_rounds-append rs quiet l)) none_left)
            ∙ ap (audio_of l) all_come
        | inl whole ↦ absurd (
            omega (
              arith,
              given_short (packets_in lib (rs ++ quiet) l) l (after_rounds lib (rs ++ quiet) l)
                  (given_in lib (rs ++ quiet) l) heard,
              ap (λ ps. length (audio_of l ps)) all_come,
              ap length (given_in-append rs quiet l),
              length-append (given_in lib rs l) (given_in lib quiet l1),
            ))
      ]
