-- ===== src/Client/Receive.antt =====
-- `Client::recv_callback` (src/client.cpp): uvgRTP hands over a frame, which is queued and freed.
pub mod Queue
mod Tests
use audpipe_cpp.Prelude.{
  ℕ, zero, suc, ◌+◌, ◌%◌, ◌^◌, Bool, not, ◌||◌, ltb, leb, if◌then◌else◌, Option, none, some, List,
  [], ◌∷◌, ◌++◌, length, take,
}
use audpipe_cpp.Client.State.{Client}

-- `uvgrtp::frame::rtp_frame`: a pointer, with the bytes that it points at (`none` for null) and the
-- length that the frame states.
pub record Frame : Type 0 where
  pub address : ℕ
  pub payload : Option (List ℕ)
  pub payload_len : ℕ

abbrev pub max_compressed_queue_frames : ℕ
max_compressed_queue_frames = 256

abbrev pub pop_front {ℓ} : {A : Type ℓ} → List A → List A
pop_front [] = []
pop_front (x ∷ xs) = xs

-- The oldest frame makes room for the new one.
unfoldable pub push : List (List ℕ) → List ℕ → List (List ℕ)
push q bytes = (if leb max_compressed_queue_frames (length q) then pop_front q else q) ++ bytes ∷ []

abbrev pub queue_payload : Option (List ℕ) → ℕ → Client → Client
queue_payload none n c = c
queue_payload (some bytes) zero c = c
queue_payload (some bytes) (suc n) c = record c {
  compressed_queue = push c.compressed_queue (take (suc n) bytes);
  frames_received = (c.frames_received + 1) % 2 ^ 64;
}

-- The second part of the result lists the frames that were handed to `dealloc_frame`.
unfoldable pub recv_callback : Option Client → Option Frame → Option Client × List ℕ
recv_callback none frame = (none, [])
recv_callback (some c) none = (some c, [])
recv_callback (some c) (some frame) =
    if c.should_stop || not c.healthy
    then (some c, frame.address ∷ [])
    else (some (queue_payload frame.payload frame.payload_len c), frame.address ∷ [])

abbrev pub or_else {ℓ} : {A : Type ℓ} → Option A → A → A
or_else none a = a
or_else (some b) a = b

-- The frames of a session in the order of their arrival: the client, and the frames freed.
unfoldable pub receive : Client → List Frame → Client × List ℕ
receive c [] = (c, [])
receive c (f ∷ fs) =
    let (c', freed) = recv_callback (some c) (some f) in
    let (c'', later) = receive (or_else c' c) fs in (c'', freed ++ later)
