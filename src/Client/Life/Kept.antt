-- ===== src/Client/Life/Kept.antt =====
-- What a living client keeps (src/client.cpp).
use audpipe_cpp.Prelude.{ℕ, zero, suc, ◌≡◌, refl, ◌∙◌, Option, none, some, List, [], ◌∷◌, arith}
use audpipe_cpp.Client.State.{Client, set_error, call_virtual_input_setup}
use audpipe_cpp.Client.Receive.{recv_callback, queue_payload}
use audpipe_cpp.Client.Playback.{Opus, write_callback}
use audpipe_cpp.Client.Life.{
  Living, Happening, frame_came, virtual_input_threw, bytes_asked, happen, happen_all,
}

module _ (lib : Opus) where
  queue_payload-rtp :
      (payload : Option (List ℕ)) (n : ℕ) (c : Client) → (queue_payload payload n c).rtp ≡ c.rtp
  queue_payload-rtp none n c = refl
  queue_payload-rtp (some bytes) zero c = refl
  queue_payload-rtp (some bytes) (suc n) c = refl

  happen-rtp : (e : Happening lib) (l : Living lib) → (happen lib e l).client.rtp ≡ l.client.rtp
  unfolding happen recv_callback call_virtual_input_setup set_error write_callback
  happen-rtp (frame_came f) l = ground (arith, queue_payload-rtp f.payload f.payload_len l.client)
  happen-rtp virtual_input_threw l = ground arith
  happen-rtp (bytes_asked max_len arrivals none) l = refl
  happen-rtp (bytes_asked max_len arrivals (some dst)) l = ground arith

  -- Nothing that happens touches the `Rtp` member.
  pub happen_all-rtp :
      (es : List (Happening lib)) (l : Living lib) → (happen_all lib es l).client.rtp ≡ l.client.rtp
  unfolding happen_all
  happen_all-rtp [] l = refl
  happen_all-rtp (e ∷ rest) l = happen_all-rtp rest (happen lib e l) ∙ happen-rtp e l
