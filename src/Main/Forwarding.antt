-- ===== src/Main/Forwarding.antt =====
-- The way of the audio from the server to the client (src/server.cpp and src/client.cpp), over a network
-- that delivers what is sent.
use audpipe_cpp.Prelude.{
  ℕ, zero, suc, ◌≤◌, ◌≡◌, ◌≢◌, refl, sym, ap, ◌∙◌, ◌⊎◌, inl, inr, Option, some, none, List, [], ◌∷◌,
  ◌++◌, map, length, arith, keep_last, keep_last_all,
}
use audpipe_cpp.Rtp.Library.{Log}
use audpipe_cpp.Rtp.Lifecycle.{IsOpen}
use audpipe_cpp.Server.Encode
use audpipe_cpp.Server.Object.{Server, capture_all}
use audpipe_cpp.Server.Object.Sending.{AreWhole, pushed, packets_of, capture_all-packets}
use audpipe_cpp.Client.State.{Client}
use audpipe_cpp.Client.Receive.{Frame, queue_payload, recv_callback, receive, or_else}
use audpipe_cpp.Client.Receive.Queue.{payloads, IsRunning, receive-Received}
use audpipe_cpp.Client.Playback
use audpipe_cpp.Client.Playback.{Playing, write_callback}
use audpipe_cpp.Client.Playback.Buffer.{delivered}
use audpipe_cpp.Client.Playback.Delivery.{decoded, rounds}
use audpipe_cpp.Client.Playback.Callback.{write_callback-Played}

queue_payload-playback :
    (payload : Option (List ℕ)) (n : ℕ) (c : Client)
    → (queue_payload payload n c).playback_queue ≡ c.playback_queue
queue_payload-playback none n c = refl
queue_payload-playback (some bytes) zero c = refl
queue_payload-playback (some bytes) (suc n) c = refl

recv_callback-playback :
    (c : Client) (f : Frame)
    → (or_else (recv_callback (some c) (some f)).0 c).playback_queue ≡ c.playback_queue
unfolding recv_callback
recv_callback-playback c f = ground (arith, queue_payload-playback f.payload f.payload_len c)

pub receive-playback :
    (c : Client) (fs : List Frame) → (receive c fs).0.playback_queue ≡ c.playback_queue
unfolding receive
receive-playback c [] = refl
receive-playback c (f ∷ fs) =
    receive-playback (or_else (recv_callback (some c) (some f)).0 c) fs ∙ recv_callback-playback c f

module _ (lib : Playback.Opus) where
  pub rounds-append :
      (n : ℕ) (queue : List (List ℕ))
      → (rounds lib n [] queue).0 ++ (rounds lib n [] queue).1 ≡ queue
  rounds-append zero queue = refl
  rounds-append (suc n) [] = refl
  rounds-append (suc n) (f ∷ queue) = ap (λ rest. f ∷ rest) (rounds-append n queue)

  -- What a call of the write callback does with packets that wait: some of the first of them are decoded,
  -- in order, and their bytes are written, and what does not fit waits; the other packets wait too. It
  -- fills what it was asked for or leaves nothing.
  pub record Plays (max_len : ℕ) (dst : List ℕ) (dec : lib.Decoder) (buf : List ℕ) (c : Client)
      (sent : List (List ℕ)) : Type 0 where
    pub end : Playing lib
    pub after : Client
    pub taken : List (List ℕ)
    pub returned : write_callback lib max_len [] (some dst) dec buf c ≡ some (end, after)
    pub in_order : taken ++ after.compressed_queue ≡ sent
    pub heard : delivered end.output ++ after.playback_queue ≡ decoded lib taken dec buf
    pub enough :
        (end.output.written ≡ max_len)
        ⊎ ((after.playback_queue ≡ []) × (after.compressed_queue ≡ []))

  waiting-Plays :
      (max_len : ℕ) (dst : List ℕ) (dec : lib.Decoder) (buf : List ℕ) (c : Client)
      (sent : List (List ℕ))
      → IsRunning c
      → c.playback_queue ≡ []
      → c.compressed_queue ≡ sent
      → max_len ≢ 0
      → max_len ≤ length dst
      → Plays max_len dst dec buf c sent
  waiting-Plays max_len dst dec buf c sent v nothing queued positive room =
      let (end, after, returned, played) =
        write_callback-Played lib max_len [] dst dec buf c v.going v.healthy positive room in
      let taken = (rounds lib played.count [] c.compressed_queue).0 in
      record {
        end = end;
        after = after;
        taken = taken;
        returned = returned;
        in_order =
            ap (λ rest. taken ++ rest) played.left
            ∙ rounds-append played.count c.compressed_queue
            ∙ queued;
        heard = played.heard ∙ ap (λ q. q ++ decoded lib taken dec buf) nothing;
        enough = elim played.filled.full_or_empty [
          | inl full ↦ inl full
          | inr (empty, none_left) ↦ inr (sym played.kept ∙ empty, none_left)
        ];
      }

module _ (encoder : Encode.Opus) (decoder : Playback.Opus) where
  -- From the microphone to the virtual input. A server whose `Rtp` is open takes whole fragments, and a
  -- running client with empty queues gets each packet that was sent, in order, at most 256 of them.
  -- Then the server has sent what its encoder gives for the fragments, one after the other; and the
  -- next call of the write callback writes the decoded bytes of the first of these packets, in order,
  -- with none lost, repeated or moved: it is full, or has written all that was sent.
  forwarded :
      (s : Server encoder) (session stream : ℕ) (log : Log) (fragments : List (List ℕ))
      (frames : List Frame) (c : Client) (max_len : ℕ) (dst : List ℕ) (dec : decoder.Decoder)
      (buf : List ℕ)
      → IsOpen s.rtp session stream
      → length s.capture.pcm_stereo_buf ≡ 1920
      → AreWhole s.capture.device fragments
      → IsRunning c
      → c.playback_queue ≡ []
      → c.compressed_queue ≡ []
      → payloads frames ≡ packets_of encoder s.capture fragments
      → length (packets_of encoder s.capture fragments) ≤ 256
      → max_len ≢ 0
      → max_len ≤ length dst
      → ((capture_all encoder (s, log) (map some fragments)).2
          ≡ pushed stream (packets_of encoder s.capture fragments) log)
        × Plays decoder max_len dst dec buf
            (receive c frames).0
            (packets_of encoder s.capture fragments)
  forwarded s session stream log fragments frames c max_len dst dec buf o full whole v silent empty
        carried few positive room =
      let sent = packets_of encoder s.capture fragments in
      let received = receive-Received c frames v in
      let queued =
        received.queued
        ∙ ap (λ q. keep_last 256 (q ++ payloads frames)) empty
        ∙ ap (keep_last 256) carried
        ∙ keep_last_all 256 sent few in
      (
        capture_all-packets encoder session stream fragments s log o full whole,
        waiting-Plays decoder max_len dst dec buf (receive c frames).0 sent received.running
            (receive-playback c frames ∙ silent) queued positive room,
      )
