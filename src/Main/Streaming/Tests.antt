-- ===== src/Main/Streaming/Tests.antt =====
-- Two fragments on their way into the FIFO (src/server.cpp, src/client.cpp and
-- src/audio/pulseaudio_backend.cpp).
use audpipe_cpp.Prelude.{
  ℕ, ◌≤◌, ◌<◌, ◌≡◌, refl, sym, ◌∙◌, subst, true, some, List, [], ◌∷◌, ◌++◌, map, length, replicate,
  length-replicate, length-append, arith,
}
use audpipe_cpp.Backend
use audpipe_cpp.Backend.{Backend, is_virtual_input_ready}
use audpipe_cpp.Backend.VirtualInput.{waiting}
use audpipe_cpp.Backend.WriteLoop.{wrote, run_virtual_input}
use audpipe_cpp.Backend.WriteLoop.Whole.{exact-IsWhole}
use audpipe_cpp.Server.Object.{capture_all}
use audpipe_cpp.Server.Object.Sending.{AreWhole, pushed, packets_of}
use audpipe_cpp.Client.Receive.{Frame}
use audpipe_cpp.Client.Playback.Delivery.{decoded}
use audpipe_cpp.Main.Sample.{encoder, decoder, server, fragment, client, sent}
use audpipe_cpp.Client.Receive.{push, receive, recv_callback}
use audpipe_cpp.Client.Playback.{drain, drain_queue}
use audpipe_cpp.Client.Playback.Arrivals.{came}
use audpipe_cpp.Client.Playback.Arrivals.Callback.{came_during}
use audpipe_cpp.Main.Streaming.{Round, Listener, next_turn, chunk_given, turns_of, after_rounds}
use audpipe_cpp.Main.Streaming.Heard.{packets_of_turn, packets_in, IsListening, next-Turned}
use audpipe_cpp.Main.Streaming.Pipe.{streamed, streamed_all}

abbrev listener : Listener decoder
listener = record { client = client; opusdec = 0; pcm_decbuf = []; write_buf = replicate 3840 0 }

listening : IsListening decoder listener
listening = record {
  running = record { going = refl; healthy = refl; bounded = omega arith };
  sized = omega (arith, length-replicate {A = ℕ} 3840 0);
}

-- A turn in which frames come, and one call of `write` takes all that is given.
abbrev turn : List Frame → (arrivals : List (List (List ℕ))) → Listener decoder → Round
turn fs arrivals l = record {
  frames = fs;
  arrivals = arrivals;
  writes =
      wrote
        (length (chunk_given decoder (record { frames = fs; arrivals = arrivals; writes = [] }) l))
      ∷ [];
}

-- One packet comes before the write callback is called, and the other one while it runs.
abbrev first : Round
first =
    turn (record { address = 10; payload = some (8 ∷ 0 ∷ []); payload_len = 2 } ∷ [])
      (((8 ∷ 1 ∷ []) ∷ []) ∷ []) listener

abbrev second : Round
second = turn [] [] (next_turn decoder first listener)

come : packets_in decoder (first ∷ []) listener ≡ (8 ∷ 0 ∷ []) ∷ (8 ∷ 1 ∷ []) ∷ []
unfolding packets_in packets_of_turn came_during came drain_queue drain push receive recv_callback
come = refl

abbrev backend : Backend
backend = record Backend.initial { virtual_source_loaded = true; virtual_source_fd = some 7 }

ready : is_virtual_input_ready backend ≡ true
unfolding is_virtual_input_ready
ready = refl

whole : AreWhole server.capture.device (fragment ∷ fragment ∷ [])
whole = (
  omega (arith, length-replicate {A = ℕ} 1920 3),
  (omega (arith, length-replicate {A = ℕ} 1920 3), tt),
)

-- What waits behind the first turn fits the queue.
room : length (((next_turn decoder first listener).client.compressed_queue ++ []) ++ []) ≤ 256
room =
    let (heard, after, bounded, full) =
      next-Turned decoder first listener listening (omega arith) in
    omega (
      arith,
      length-append (next_turn decoder first listener).client.compressed_queue [],
      length-append ((next_turn decoder first listener).client.compressed_queue ++ []) [],
      after.running.bounded,
    )

-- One turn.
streamed_example :
    let packets = packets_of encoder server.capture (fragment ∷ fragment ∷ []) in
    let end = after_rounds decoder (first ∷ []) listener in
    ((capture_all encoder (server, []) (map some (fragment ∷ fragment ∷ []))).2
      ≡ pushed 6 packets [])
    × (taken : List (List ℕ)) × (bytes : List ℕ) × (taken ++ end.client.compressed_queue ≡ packets)
    × (run_virtual_input (turns_of decoder (first ∷ []) listener) (backend, 9 ∷ [])
        ≡ (waiting, (record backend { playback = true }, (9 ∷ []) ++ bytes)))
    × (bytes ++ end.client.playback_queue ≡ decoded decoder taken 0 [])
unfolding chunk_given
streamed_example =
    streamed encoder decoder server 5 6 [] (fragment ∷ fragment ∷ []) (first ∷ []) listener backend
      (9 ∷ []) (refl, refl, refl) (length-replicate {A = ℕ} 1920 0) whole listening (refl, refl)
      ready (come ∙ sym sent) (omega arith, tt)
      (exact-IsWhole (chunk_given decoder first listener), tt)

-- And a second one, in which nothing comes.
streamed_all_example :
    let packets = packets_of encoder server.capture (fragment ∷ fragment ∷ []) in
    ((capture_all encoder (server, []) (map some (fragment ∷ fragment ∷ []))).2
      ≡ pushed 6 packets [])
    × (run_virtual_input (turns_of decoder (first ∷ second ∷ []) listener) (backend, 9 ∷ [])
        ≡ (waiting, (record backend { playback = true }, (9 ∷ []) ++ decoded decoder packets 0 [])))
unfolding chunk_given
streamed_all_example =
    streamed_all encoder decoder server 5 6 [] (fragment ∷ fragment ∷ []) (first ∷ []) listener
      backend (9 ∷ []) (refl, refl, refl) (length-replicate {A = ℕ} 1920 0) whole listening
      (refl, refl) ready (second ∷ []) (refl, refl, tt) (come ∙ sym sent) (omega arith, (room, tt))
      (
        exact-IsWhole (chunk_given decoder first listener),
        (exact-IsWhole (chunk_given decoder second (next_turn decoder first listener)), tt),
      )
      (subst (λ ps. length (decoded decoder ps 0 []) < 3840) (sym sent) (omega arith))
