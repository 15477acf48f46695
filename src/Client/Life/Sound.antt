-- ===== src/Client/Life/Sound.antt =====
-- What holds of a client all its life (src/client.cpp).
use audpipe_cpp.Prelude.{
  ℕ, zero, suc, String, ◌^◌, ◌≤◌, ◌<◌, ◌≡◌, refl, sym, take, inl, Bool, not, ◌||◌, ◌==◌, if_both,
  Option, none, some, List, [], ◌∷◌, length, subst, arith,
}
use audpipe_cpp.Rtp.{Rtp, Callback}
use audpipe_cpp.Rtp.Library.{Uvg}
use audpipe_cpp.Config.{ConnectionPolicy}
use audpipe_cpp.Client.State.{
  Client, Failure, IsConsistent, fresh, set_error, call_virtual_input_setup, virtual_input_failed,
}
use audpipe_cpp.Client.State.Errors.{set_error-IsConsistent}
use audpipe_cpp.Client.Receive.{Frame, queue_payload, recv_callback, or_else}
use audpipe_cpp.Client.Receive.Queue.{push-bounded}
use audpipe_cpp.Backend.{Backend}
use audpipe_cpp.Client.Playback.{Opus, Playing, write_callback}
use audpipe_cpp.Client.Connect
use audpipe_cpp.Client.Connect.{World}
use audpipe_cpp.Client.Connect.Fresh.{create-fresh}
use audpipe_cpp.Client.Life
use audpipe_cpp.Client.Playback.Bounded.{fill-HasRoom}
use audpipe_cpp.Client.Life.{
  Living, Happening, frame_came, virtual_input_threw, bytes_asked, happen, happen_all,
}

-- Its errors are consistent, its queue of frames is bounded, and its counter fits 64 bits.
pub record IsSound (c : Client) : Type 0 where
  pub consistent : IsConsistent c
  pub bounded : length c.compressed_queue ≤ 256
  pub counted : c.frames_received < 2 ^ 64

queue_payload-IsSound :
    (payload : Option (List ℕ)) (n : ℕ) (c : Client)
    → IsSound c
    → IsSound (queue_payload payload n c)
queue_payload-IsSound none n c v = v
queue_payload-IsSound (some bytes) zero c v = v
queue_payload-IsSound (some bytes) (suc n) c v = record {
  consistent = record { error = v.consistent.error };
  bounded = push-bounded c.compressed_queue (take (suc n) bytes) v.bounded;
  counted = omega arith;
}

recv_callback-IsSound :
    (c : Client) (f : Frame) → IsSound c → IsSound (or_else (recv_callback (some c) (some f)).0 c)
unfolding recv_callback
recv_callback-IsSound c f v =
    if_both (λ (r : Option Client × List ℕ). IsSound (or_else r.0 c))
      (c.should_stop || not c.healthy) v (queue_payload-IsSound f.payload f.payload_len c v)

set_error-IsSound :
    (failure : Failure) (l : Client × Backend) → IsSound l.0 → IsSound (set_error failure l).0
unfolding set_error
set_error-IsSound failure (c, b) v = record {
  consistent = set_error-IsConsistent failure c b v.consistent;
  bounded =
      if_both (λ (s : Client × Backend). length s.0.compressed_queue ≤ 256) (not c.healthy)
        v.bounded v.bounded;
  counted =
      if_both (λ (s : Client × Backend). s.0.frames_received < 2 ^ 64) (not c.healthy) v.counted
        v.counted;
}

module _ (lib : Opus) where
  after_write-IsSound :
      (max_len : ℕ) (arrivals : List (List (List ℕ))) (dst : Option (List ℕ)) (l : Living lib)
      → IsSound l.client
      → IsSound (happen lib (bytes_asked max_len arrivals dst) l).client
  unfolding happen write_callback
  after_write-IsSound max_len arrivals none l v = v
  after_write-IsSound max_len arrivals (some dst) l v =
      let start : Playing lib = record {
        output = record { dst = dst; written = 0 };
        playback_queue = l.client.playback_queue;
        opusdec = l.opusdec;
        pcm_decbuf = l.pcm_decbuf;
      } in
      if_both (λ (r : Option (Playing lib × Client)). IsSound (Life.after_call lib r l).client)
        (max_len == 0 || l.client.should_stop || not l.client.healthy) v
        (record {
          consistent = record { error = v.consistent.error };
          bounded = fill-HasRoom lib max_len arrivals l.client.compressed_queue start v.bounded;
          counted = v.counted;
        })

  happen-IsSound :
      (e : Happening lib) (l : Living lib) → IsSound l.client → IsSound (happen lib e l).client
  unfolding happen call_virtual_input_setup
  happen-IsSound (frame_came f) l v = recv_callback-IsSound l.client f v
  happen-IsSound virtual_input_threw l v =
      set_error-IsSound virtual_input_failed (l.client, l.backend) v
  happen-IsSound (bytes_asked max_len arrivals dst) l v =
      after_write-IsSound max_len arrivals dst l v

  happen_all-IsSound :
      (es : List (Happening lib)) (l : Living lib)
      → IsSound l.client
      → IsSound (happen_all lib es l).client
  unfolding happen_all
  happen_all-IsSound [] l v = v
  happen_all-IsSound (e ∷ rest) l v =
      happen_all-IsSound rest (happen lib e l) (happen-IsSound e l v)

  fresh-IsSound :
      (pol : ConnectionPolicy) (rtp : Option Rtp) → IsSound (record (fresh pol) { rtp = rtp })
  fresh-IsSound pol rtp = record {
    consistent = record { error = inl (refl, refl) };
    bounded = omega arith;
    counted = omega arith;
  }

  -- A client that was constructed, whatever happens to it after that: it is healthy with no error, or
  -- unhealthy and stopping with one; its queue holds at most 256 frames; and its counter fits 64 bits.
  pub living-IsSound :
      (shutdown : ℕ → Bool) (u : Uvg) (local remote : String × ℕ) (cb : Callback) (decoder : Bool)
      (pol : ConnectionPolicy) (w w' : World) (es : List (Happening lib)) (l : Living lib)
      → Connect.create shutdown u local remote cb decoder pol w ≡ Connect.constructed l.client w'
      → IsSound (happen_all lib es l).client
  living-IsSound shutdown u local remote cb decoder pol w w' es l made = happen_all-IsSound es l (
      subst IsSound (sym (create-fresh shutdown u local remote cb decoder pol w w' made))
        (fresh-IsSound pol l.client.rtp))
