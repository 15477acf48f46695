-- ===== src/Main/Streaming/Pipe.antt =====
-- From the microphone to the FIFO, over many turns of the virtual input (src/server.cpp, src/client.cpp and
-- src/audio/pulseaudio_backend.cpp).
use audpipe_cpp.Prelude.{
  ℕ, ◌*◌, ◌<◌, ◌≡◌, arith, sym, ap, ◌∙◌, true, some, List, [], ◌∷◌, ◌++◌, append_assoc, append-nil,
  map, length, Option, none,
}
use audpipe_cpp.Rtp.Library.{Log}
use audpipe_cpp.Rtp.Lifecycle.{IsOpen}
use audpipe_cpp.Server.Encode
use audpipe_cpp.Server.Object.{Server, capture_all}
use audpipe_cpp.Server.Object.Sending.{AreWhole, pushed, packets_of, capture_all-packets}
use audpipe_cpp.Backend.{Backend, is_virtual_input_ready}
use audpipe_cpp.Backend.VirtualInput.{Ending, waiting}
use audpipe_cpp.Backend.WriteLoop.{State, take_turns, run_virtual_input}
use audpipe_cpp.Backend.WriteLoop.Whole.{IsWhole, take_turn_whole}
use audpipe_cpp.Client.Playback
use audpipe_cpp.Client.Playback.Delivery.{decoded}
use audpipe_cpp.Main.Streaming.{Round, Listener, next_turn, chunk_given, turns_of, after_rounds}
use audpipe_cpp.Main.Streaming.Heard.{
  packets_in, given_in, HasRoom, IsListening, IsSilent, next-Turned, rounds-Heard,
}
use audpipe_cpp.Main.Streaming.Quiet.{AreQuiet, audio_of, quiet-given}

module _ (lib : Playback.Opus) where
  -- What the client gives is written to its end in every turn.
  abbrev pub AreWritten : List Round → Listener lib → Type 0
  AreWritten [] l = Unit
  AreWritten (r ∷ rest) l =
      IsWhole r.writes (chunk_given lib r l) × AreWritten rest (next_turn lib r l)

  -- Then the FIFO gets what the client gives, and nothing else.
  take_turns_whole :
      (rs : List Round) (l : Listener lib) (b : Backend) (pipe : List ℕ)
      → IsListening lib l
      → HasRoom lib rs l
      → AreWritten rs l
      → take_turns (turns_of lib rs l) (b, pipe) ≡ (waiting, (b, pipe ++ given_in lib rs l))
  unfolding take_turns turns_of given_in
  take_turns_whole [] l b pipe v room whole = ap (λ p. (waiting, (b, p))) (sym (append-nil pipe))
  take_turns_whole (r ∷ rest) l b pipe v (room, more) (whole, later) =
      let bytes = chunk_given lib r l in
      let l' = next_turn lib r l in
      let (heard, v', bounded, full) = next-Turned lib r l v room in
      ap
        (λ (turned : Option Ending × State). elim turned.0 as (λ o. Ending × State) [
          | some e ↦ (e, turned.1)
          | none ↦ take_turns (turns_of lib rest l') turned.1
        ])
        (take_turn_whole r.writes bytes b pipe bounded whole)
      ∙ take_turns_whole rest l' b (pipe ++ bytes) v' more later
      ∙ ap (λ p. (waiting, (b, p))) (append_assoc pipe bytes (given_in lib rest l'))

module _ (encoder : Encode.Opus) (decoder : Playback.Opus) (s : Server encoder) (session stream : ℕ)
    (log : Log) (fragments : List (List ℕ)) (rs : List Round) (l : Listener decoder) (b : Backend)
    (pipe : List ℕ) (o : IsOpen s.rtp session stream)
    (full : length s.capture.pcm_stereo_buf ≡ 1920) (whole : AreWhole s.capture.device fragments)
    (v : IsListening decoder l) (silent : IsSilent decoder l)
    (ready : is_virtual_input_ready b ≡ true) where
  -- From the microphone to the FIFO. A server whose `Rtp` is open takes whole fragments. A running client
  -- with empty queues gets, between the calls of its write callback and during them, the packets that
  -- are sent, each once and in order, and its queue has room in each turn for all that may come in
  -- it. The virtual input is ready, nothing stops its loop, and the writes take each chunk to its
  -- end. Then the server has sent what its encoder gives for the fragments, one after the other, and
  -- after any number of turns the FIFO has got, behind what was in it, a beginning of the decoded
  -- bytes of some first ones of these packets: the rest of these bytes waits in the client, and so do
  -- the other packets.
  pub streamed :
      packets_in decoder rs l ≡ packets_of encoder s.capture fragments
      → HasRoom decoder rs l
      → AreWritten decoder rs l
      → let end = after_rounds decoder rs l in
        ((capture_all encoder (s, log) (map some fragments)).2
          ≡ pushed stream (packets_of encoder s.capture fragments) log)
        × (taken : List (List ℕ)) × (sent : List ℕ) × (taken ++ end.client.compressed_queue
            ≡ packets_of encoder s.capture fragments)
        × (run_virtual_input (turns_of decoder rs l) (b, pipe)
            ≡ (waiting, (record b { playback = true }, pipe ++ sent)))
        × (sent ++ end.client.playback_queue ≡ decoded decoder taken l.opusdec l.pcm_decbuf)
  unfolding run_virtual_input
  streamed carried room written =
      let (heard, end) = rounds-Heard decoder rs l v room in
      (
        capture_all-packets encoder session stream fragments s log o full whole,
        heard.taken,
        given_in decoder rs l,
        heard.in_order ∙ ap (λ q. q ++ packets_in decoder rs l) silent.1 ∙ carried,
        rw ready (take_turns_whole decoder rs l (record b { playback = true }) pipe v room written),
        heard.heard ∙ ap (λ q. q ++ decoded decoder heard.taken l.opusdec l.pcm_decbuf) silent.0,
      )

  -- Under the same conditions, when after the last packet so many turns follow that they could take more
  -- bytes than all packets decode to: the FIFO has got exactly the decoded bytes of all the
  -- packets that the server has sent, in order.
  pub streamed_all :
      (quiet : List Round)
      → AreQuiet quiet
      → packets_in decoder rs l ≡ packets_of encoder s.capture fragments
      → HasRoom decoder (rs ++ quiet) l
      → AreWritten decoder (rs ++ quiet) l
      → length (decoded decoder (packets_of encoder s.capture fragments) l.opusdec l.pcm_decbuf)
        < 3840 * length quiet
      → let sent = packets_of encoder s.capture fragments in
        ((capture_all encoder (s, log) (map some fragments)).2 ≡ pushed stream sent log)
        × (run_virtual_input (turns_of decoder (rs ++ quiet) l) (b, pipe) ≡ (
          waiting,
          (record b { playback = true }, pipe ++ decoded decoder sent l.opusdec l.pcm_decbuf),
        ))
  unfolding run_virtual_input
  streamed_all quiet no_more carried room written enough =
      let all : audio_of decoder l (packets_in decoder rs l)
          ≡ decoded decoder (packets_of encoder s.capture fragments) l.opusdec l.pcm_decbuf =
        ap
          (λ q.
            q
            ++ decoded decoder (l.client.compressed_queue ++ packets_in decoder rs l) l.opusdec
                l.pcm_decbuf)
          silent.0
        ∙ ap (λ q. decoded decoder (q ++ packets_in decoder rs l) l.opusdec l.pcm_decbuf) silent.1
        ∙ ap (λ ps. decoded decoder ps l.opusdec l.pcm_decbuf) carried in
      let given = quiet-given decoder rs quiet l v room no_more (omega (arith, ap length all)) in
      (
        capture_all-packets encoder session stream fragments s log o full whole,
        rw ready (
            take_turns_whole decoder (rs ++ quiet) l (record b { playback = true }) pipe v room
              written
            ∙ ap (λ bytes. (waiting, (record b { playback = true }, pipe ++ bytes))) (given ∙ all)),
      )
