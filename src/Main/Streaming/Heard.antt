-- ===== src/Main/Streaming/Heard.antt =====
-- Which bytes a client gives to the loop of the virtual input, over many turns (src/client.cpp).
use audpipe_cpp.Prelude.{
  ℕ, ◌+◌, ◌≤◌, ◌≡◌, refl, sym, ap, ◌∙◌, subst, ◌⊎◌, inl, inr, some, List, [], ◌∷◌, ◌++◌,
  append_assoc, append-nil, length, length-append, length-take, keep_last_all, arith,
}
use audpipe_cpp.Client.State.{Client}
use audpipe_cpp.Client.Receive.{receive}
use audpipe_cpp.Client.Receive.Queue.{payloads, IsRunning, Received, receive-Received}
use audpipe_cpp.Client.Playback.{Opus, Playing}
use audpipe_cpp.Client.Playback.Buffer.{delivered}
use audpipe_cpp.Client.Playback.Delivery.{decoded, decoder_after}
use audpipe_cpp.Client.Playback.Decoding.{decoded-append, decoder_after-append}
use audpipe_cpp.Backend.WriteLoop.{pcm_write_buf_size}
use audpipe_cpp.Client.Playback.Arrivals.{all_of}
use audpipe_cpp.Client.Playback.Arrivals.Callback.{
  came_during, came_during-short, Hears, write_callback-Hears,
}
use audpipe_cpp.Main.Forwarding.{receive-playback}
use audpipe_cpp.Main.Streaming.{
  Round, Listener, handed, after_asking, receive_all, next_turn, chunk_given, after_rounds,
}

module _ (lib : Opus) where
  -- The packets that come in a turn: before the write callback is called, and while it runs.
  unfoldable pub packets_of_turn : Round → Listener lib → List (List ℕ)
  packets_of_turn r l =
      let c = (receive l.client r.frames).0 in
      payloads r.frames
      ++ came_during lib pcm_write_buf_size r.arrivals l.write_buf l.opusdec l.pcm_decbuf c

  -- Those of all turns.
  unfoldable pub packets_in : List Round → Listener lib → List (List ℕ)
  packets_in [] l = []
  packets_in (r ∷ rest) l = packets_of_turn r l ++ packets_in rest (next_turn lib r l)

  -- The bytes of all turns, one behind the other.
  unfoldable pub given_in : List Round → Listener lib → List ℕ
  given_in [] l = []
  given_in (r ∷ rest) l = chunk_given lib r l ++ given_in rest (next_turn lib r l)

  -- The queue of packets has room in each turn for all that may come in it.
  abbrev pub HasRoom : List Round → Listener lib → Type 0
  HasRoom [] l = Unit
  HasRoom (r ∷ rest) l =
      (length ((l.client.compressed_queue ++ payloads r.frames) ++ all_of r.arrivals) ≤ 256)
      × HasRoom rest (next_turn lib r l)

  -- A client that runs, before a loop whose buffer has its size.
  pub record IsListening (l : Listener lib) : Type 0 where
    pub running : IsRunning l.client
    pub sized : 3840 ≤ length l.write_buf

  -- What turns do: of the packets that waited and that came, in order, some first ones are taken, and the
  -- others wait; and of the bytes that waited and of the taken packets, decoded, some first ones are
  -- given, and the others wait.
  pub record Heard (came : List (List ℕ)) (l l' : Listener lib) (bytes : List ℕ) : Type 0 where
    pub taken : List (List ℕ)
    pub in_order : taken ++ l'.client.compressed_queue ≡ l.client.compressed_queue ++ came
    pub heard :
        bytes ++ l'.client.playback_queue
        ≡ l.client.playback_queue ++ decoded lib taken l.opusdec l.pcm_decbuf
    pub decoder : (l'.opusdec, l'.pcm_decbuf) ≡ decoder_after lib taken l.opusdec l.pcm_decbuf

  Heard-none : (l : Listener lib) → Heard [] l l []
  Heard-none l = record {
    taken = [];
    in_order = sym (append-nil l.client.compressed_queue);
    heard = sym (append-nil l.client.playback_queue);
    decoder = refl;
  }

  -- Turns, and then others.
  Heard-trans :
      (came came' : List (List ℕ)) (l l' l'' : Listener lib) (bytes bytes' : List ℕ)
      → Heard came l l' bytes
      → Heard came' l' l'' bytes'
      → Heard (came ++ came') l l'' (bytes ++ bytes')
  Heard-trans came came' l l' l'' bytes bytes' first later = record {
    taken = first.taken ++ later.taken;
    in_order =
        append_assoc first.taken later.taken l''.client.compressed_queue
        ∙ ap (λ q. first.taken ++ q) later.in_order
        ∙ sym (append_assoc first.taken l'.client.compressed_queue came')
        ∙ ap (λ q. q ++ came') first.in_order
        ∙ append_assoc l.client.compressed_queue came came';
    heard =
        append_assoc bytes bytes' l''.client.playback_queue
        ∙ ap (λ q. bytes ++ q) later.heard
        ∙ sym (append_assoc bytes l'.client.playback_queue second)
        ∙ ap (λ q. q ++ second) first.heard
        ∙ append_assoc l.client.playback_queue start second
        ∙ ap (λ q. l.client.playback_queue ++ q)
            (ap (λ (d : lib.Decoder × List ℕ). start ++ decoded lib later.taken d.0 d.1)
                first.decoder
              ∙ sym (decoded-append lib first.taken later.taken l.opusdec l.pcm_decbuf));
    decoder =
        later.decoder
        ∙ ap (λ (d : lib.Decoder × List ℕ). decoder_after lib later.taken d.0 d.1) first.decoder
        ∙ sym (decoder_after-append lib first.taken later.taken l.opusdec l.pcm_decbuf);
  }
    where
      start : List ℕ
      start = decoded lib first.taken l.opusdec l.pcm_decbuf

      second : List ℕ
      second = decoded lib later.taken l'.opusdec l'.pcm_decbuf

  -- Nothing waits.
  abbrev pub IsSilent : Listener lib → Type 0
  IsSilent l = (l.client.playback_queue ≡ []) × (l.client.compressed_queue ≡ [])

  -- What a turn does to a client that listens.
  abbrev pub Turned : Round → Listener lib → Listener lib → List ℕ → Type 0
  Turned r l l' bytes =
      Heard (packets_of_turn r l) l l' bytes
      × IsListening l'
      × (length bytes ≤ 3840)
      × ((length bytes ≡ 3840) ⊎ IsSilent l')

  called-Turned :
      (r : Round) (l : Listener lib) (end : Playing lib) (c' : Client)
      → IsListening l
      → length ((l.client.compressed_queue ++ payloads r.frames) ++ all_of r.arrivals) ≤ 256
      → Hears lib 3840 r.arrivals l.write_buf l.opusdec l.pcm_decbuf
          (receive l.client r.frames).0
          end
          c'
      → Turned r l
          (after_asking lib (receive_all lib r.frames l) (some (end, c')))
          (delivered end.output)
  unfolding packets_of_turn
  called-Turned r l end c' v room played = (heard, listening, bounded, full_or_silent)
    where
      c : Client
      c = (receive l.client r.frames).0

      come : List (List ℕ)
      come = came_during lib 3840 r.arrivals l.write_buf l.opusdec l.pcm_decbuf c

      few : length come ≤ length (all_of r.arrivals)
      few = came_during-short lib 3840 r.arrivals l.write_buf l.opusdec l.pcm_decbuf c

      received : Received l.client r.frames (receive l.client r.frames)
      received = receive-Received l.client r.frames v.running

      lengths :
          length ((l.client.compressed_queue ++ payloads r.frames) ++ all_of r.arrivals)
          ≡ length (l.client.compressed_queue ++ payloads r.frames) + length (all_of r.arrivals)
      lengths = length-append (l.client.compressed_queue ++ payloads r.frames) (all_of r.arrivals)

      queued : c.compressed_queue ≡ l.client.compressed_queue ++ payloads r.frames
      queued =
          received.queued
          ∙ keep_last_all 256 (l.client.compressed_queue ++ payloads r.frames)
              (omega (arith, lengths))

      heard :
          Heard
            (packets_of_turn r l)
            l
            (after_asking lib (receive_all lib r.frames l) (some (end, c')))
            (delivered end.output)
      heard = record {
        taken = played.taken;
        in_order =
            played.in_order
            ∙ ap (λ q. q ++ come) queued
            ∙ append_assoc l.client.compressed_queue (payloads r.frames) come;
        heard =
            played.heard
            ∙ ap (λ q. q ++ decoded lib played.taken l.opusdec l.pcm_decbuf)
                (receive-playback l.client r.frames);
        decoder = played.decoder;
      }

      listening : IsListening (after_asking lib (receive_all lib r.frames l) (some (end, c')))
      listening = record {
        running = record {
          going = ap (λ client. client.should_stop) played.others ∙ received.running.going;
          healthy = ap (λ client. client.healthy) played.others ∙ received.running.healthy;
          bounded = omega (
            arith,
            length-append played.taken c'.compressed_queue,
            ap length played.in_order,
            length-append c.compressed_queue come,
            ap length queued,
            few,
            lengths,
          );
        };
        sized = played.filled.fits.1;
      }

      full_or_silent :
          (length (delivered end.output) ≡ 3840)
          ⊎ ((c'.playback_queue ≡ []) × (c'.compressed_queue ≡ []))
      full_or_silent = elim played.filled.full_or_empty [
        | inl full ↦
            inl (omega (arith, length-take end.output.written end.output.dst, played.filled.fits.1))
        | inr (empty, none_left) ↦ inr (sym played.kept ∙ empty, none_left)
      ]

      bounded : length (delivered end.output) ≤ 3840
      bounded = omega (arith, length-take end.output.written end.output.dst, played.filled.fits.0)

  pub next-Turned :
      (r : Round) (l : Listener lib)
      → IsListening l
      → length ((l.client.compressed_queue ++ payloads r.frames) ++ all_of r.arrivals) ≤ 256
      → Turned r l (next_turn lib r l) (chunk_given lib r l)
  unfolding next_turn chunk_given
  next-Turned r l v room =
      let asked = receive_all lib r.frames l in
      let received = receive-Received l.client r.frames v.running in
      let queued =
        received.queued
        ∙ keep_last_all 256 (l.client.compressed_queue ++ payloads r.frames) (
            omega (
              arith,
              length-append (l.client.compressed_queue ++ payloads r.frames) (all_of r.arrivals),
            )) in
      let (end, c', returned, played) =
        write_callback-Hears lib 3840 r.arrivals l.write_buf l.opusdec l.pcm_decbuf asked.client
          received.running.going received.running.healthy (λ h. cc) v.sized
          (subst (λ (q : List (List ℕ)). length (q ++ all_of r.arrivals) ≤ 256) (sym queued)
            room) in
      subst (λ called. Turned r l (after_asking lib asked called) (handed lib called))
        (sym returned) (called-Turned r l end c' v room played)

  -- Any number of turns in which the queue does not overflow.
  pub rounds-Heard :
      (rs : List Round) (l : Listener lib)
      → IsListening l
      → HasRoom rs l
      → Heard (packets_in rs l) l (after_rounds lib rs l) (given_in rs l)
        × IsListening (after_rounds lib rs l)
  unfolding given_in packets_in after_rounds
  rounds-Heard [] l v room = (Heard-none l, v)
  rounds-Heard (r ∷ rest) l v (room, later) =
      let l' = next_turn lib r l in
      let (heard, v', bounded, full) = next-Turned r l v room in
      let (later_heard, end) = rounds-Heard rest l' v' later in
      (
        Heard-trans (packets_of_turn r l) (packets_in rest l') l l' (after_rounds lib rest l')
            (chunk_given lib r l) (given_in rest l') heard later_heard,
        end,
      )
