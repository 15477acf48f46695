-- ===== src/Client/Life/Memory.antt =====
-- The memory of the decoder of a client, all its life (src/client.cpp).
use audpipe_cpp.Prelude.{
  ℕ, zero, suc, String, ◌≡◌, refl, sym, subst, Bool, not, ◌||◌, ◌==◌, if_both, Option, none, some,
  List, [], ◌∷◌, arith,
}
use audpipe_cpp.Rtp.{Callback}
use audpipe_cpp.Rtp.Library.{Uvg}
use audpipe_cpp.Config.{ConnectionPolicy}
use audpipe_cpp.Client.State.{Client, set_error, call_virtual_input_setup}
use audpipe_cpp.Client.Receive.{recv_callback, queue_payload}
use audpipe_cpp.Client.Playback.{Opus, Playing, fresh_decbuf, write_callback}
use audpipe_cpp.Client.Playback.Memory.{
  DecodesInPlace, AllInside, IsWithin, all_inside, fill-Within,
}
use audpipe_cpp.Client.Connect
use audpipe_cpp.Client.Connect.{World}
use audpipe_cpp.Client.Connect.Fresh.{create-fresh}
use audpipe_cpp.Client.Life
use audpipe_cpp.Client.Life.{
  Living, Happening, frame_came, virtual_input_threw, bytes_asked, happen, happen_all,
}

queue_payload-playback :
    (payload : Option (List ℕ)) (n : ℕ) (c : Client)
    → (queue_payload payload n c).playback_queue ≡ c.playback_queue
queue_payload-playback none n c = refl
queue_payload-playback (some bytes) zero c = refl
queue_payload-playback (some bytes) (suc n) c = refl

module _ (lib : Opus) (decodes : DecodesInPlace lib) where
  abbrev Within : Living lib → Type 0
  Within l = IsWithin lib l.pcm_decbuf l.client.playback_queue

  happen-Within : (e : Happening lib) (l : Living lib) → Within l → Within (happen lib e l)
  unfolding happen recv_callback call_virtual_input_setup set_error write_callback
  happen-Within (frame_came f) l v =
      ground (arith, queue_payload-playback f.payload f.payload_len l.client)
  happen-Within virtual_input_threw l v = ground arith
  happen-Within (bytes_asked max_len arrivals none) l v = v
  happen-Within (bytes_asked max_len arrivals (some dst)) l v =
      let start : Playing lib = record {
        output = record { dst = dst; written = 0 };
        playback_queue = l.client.playback_queue;
        opusdec = l.opusdec;
        pcm_decbuf = l.pcm_decbuf;
      } in
      if_both (λ (r : Option (Playing lib × Client)). Within (Life.after_call lib r l))
        (max_len == 0 || l.client.should_stop || not l.client.healthy) v
        (fill-Within lib decodes max_len arrivals l.client.compressed_queue start (v, omega arith))

  happen_all-Within :
      (es : List (Happening lib)) (l : Living lib) → Within l → Within (happen_all lib es l)
  unfolding happen_all
  happen_all-Within [] l v = v
  happen_all-Within (e ∷ rest) l v = happen_all-Within rest (happen lib e l) (happen-Within e l v)

  -- A client that was constructed, with a decoder that does as libopus documents, whatever happens to it
  -- after that: the output buffer of the decoder keeps its 3840 bytes; the queue of decoded bytes holds
  -- no more than the 3840 bytes of one frame; and whatever frames are decoded next, each time all the
  -- bytes that are read from the buffer are inside it.
  pub living-IsWithin :
      (shutdown : ℕ → Bool) (u : Uvg) (local remote : String × ℕ) (cb : Callback) (decoder : Bool)
      (pol : ConnectionPolicy) (w w' : World) (c : Client) (dec : lib.Decoder)
      (es : List (Happening lib)) (fs : List (List ℕ))
      → Connect.create shutdown u local remote cb decoder pol w ≡ Connect.constructed c w'
      → let start : Living lib = record {
        client = c;
        backend = w'.backend;
        opusdec = dec;
        pcm_decbuf = fresh_decbuf;
      } in
        let l = happen_all lib es start in
        IsWithin lib l.pcm_decbuf l.client.playback_queue × AllInside lib fs l.opusdec l.pcm_decbuf
  living-IsWithin shutdown u local remote cb decoder pol w w' c dec es fs made =
      let start : Living lib = record {
        client = c;
        backend = w'.backend;
        opusdec = dec;
        pcm_decbuf = fresh_decbuf;
      } in
      let l = happen_all lib es start in
      let within = happen_all-Within es start (
        subst (λ (c' : Client). IsWithin lib fresh_decbuf c'.playback_queue)
          (sym (create-fresh shutdown u local remote cb decoder pol w w' made))
          (record { buffer = refl; queued = omega arith })) in
      (within, all_inside lib decodes fs l.opusdec l.pcm_decbuf within.buffer)
