-- ===== src/Client/Receive/Queue.antt =====
-- The bounded queue of compressed frames that `Client::recv_callback` (src/client.cpp) keeps.
use audpipe_cpp.Prelude.{
  subst, ℕ, zero, suc, ◌+◌, ◌-◌, ◌≤◌, ◌<◌, ◌≡◌, refl, true, false, Option, none, some, List, [],
  ◌∷◌, ◌++◌, append_assoc, append-nil, map, length, ap, ◌∙◌, ◌⊎◌, ◌%◌, ◌^◌, dec_lt, sym, take,
  arith, keep_last, keep_last-append, keep_last_all, length-append, length-keep_last-le,
}
use audpipe_cpp.Client.State.{Client}
use audpipe_cpp.Client.Receive.{Frame, pop_front, push, queue_payload, recv_callback, receive}

pub push_room :
    (q : List (List ℕ)) (bytes : List ℕ) → length q < 256 → push q bytes ≡ q ++ bytes ∷ []
unfolding push
push_room q bytes h = ground arith

push_full :
    (q : List (List ℕ)) (bytes : List ℕ) → 256 ≤ length q → push q bytes ≡ pop_front q ++ bytes ∷ []
unfolding push
push_full q bytes h = ground arith

-- `push` keeps the last 256 of the frames, the new one included.
push-keep_last :
    (q : List (List ℕ)) (bytes : List ℕ)
    → length q ≤ 256
    → push q bytes ≡ keep_last 256 (q ++ bytes ∷ [])
push-keep_last [] bytes h = rw (push_room [] bytes (omega arith))
push-keep_last (x ∷ q) bytes h = elim (dec_lt (length q) 255) [
  | yes room ↦ rw (push_room (x ∷ q) bytes (omega arith)) (
      sym (keep_last_all 256 ((x ∷ q) ++ bytes ∷ []) (omega (arith, length-append q (bytes ∷ [])))))
  | no full ↦
      let one : length ((x ∷ q) ++ bytes ∷ []) - 256 ≡ 1 =
        omega (arith, length-append q (bytes ∷ [])) in
      rw (push_full (x ∷ q) bytes (omega arith), one)
]

pub push-bounded :
    (q : List (List ℕ)) (bytes : List ℕ) → length q ≤ 256 → length (push q bytes) ≤ 256
push-bounded q bytes h =
    subst (λ (r : List (List ℕ)). length r ≤ 256) (sym (push-keep_last q bytes h))
      (length-keep_last-le 256 (q ++ bytes ∷ []))

-- The payload that a frame brings: none if the pointer is null or the length is 0.
abbrev pub payload_of : Option (List ℕ) → ℕ → List (List ℕ)
payload_of none n = []
payload_of (some bytes) zero = []
payload_of (some bytes) (suc n) = take (suc n) bytes ∷ []

abbrev pub payloads : List Frame → List (List ℕ)
payloads [] = []
payloads (f ∷ fs) = payload_of f.payload f.payload_len ++ payloads fs

-- A client that takes frames, its queue within the limit.
pub record IsRunning (c : Client) : Type 0 where
  pub going : c.should_stop ≡ false
  pub healthy : c.healthy ≡ true
  pub bounded : length c.compressed_queue ≤ 256

queue_payload_lem :
    (p : Option (List ℕ)) (n : ℕ) (c : Client)
    → IsRunning c
    → IsRunning (queue_payload p n c)
      × ((queue_payload p n c).compressed_queue
          ≡ keep_last 256 (c.compressed_queue ++ payload_of p n))
      × ((queue_payload p n c).frames_received % 2 ^ 64
          ≡ (c.frames_received + length (payload_of p n)) % 2 ^ 64)
queue_payload_lem none n c v =
    (v, rw append-nil (sym (keep_last_all 256 c.compressed_queue v.bounded)), omega arith)
queue_payload_lem (some bytes) zero c v =
    (v, rw append-nil (sym (keep_last_all 256 c.compressed_queue v.bounded)), omega arith)
queue_payload_lem (some bytes) (suc n) c v = (running, queued, omega arith)
  where
    queued :
        push c.compressed_queue (take (suc n) bytes)
        ≡ keep_last 256 (c.compressed_queue ++ take (suc n) bytes ∷ [])
    queued = push-keep_last c.compressed_queue (take (suc n) bytes) v.bounded

    running : IsRunning (queue_payload (some bytes) (suc n) c)
    running = record {
      going = v.going;
      healthy = v.healthy;
      bounded = rw queued (length-keep_last-le 256 (c.compressed_queue ++ take (suc n) bytes ∷ []));
    }

abbrev pub addresses : List Frame → List ℕ
addresses = map (λ f. f.address)

recv_callback_running :
    (c : Client) (f : Frame)
    → IsRunning c
    → recv_callback (some c) (some f)
      ≡ (some (queue_payload f.payload f.payload_len c), f.address ∷ [])
unfolding recv_callback
recv_callback_running c f v = ground arith

-- What a session of frames leaves behind, on a client that was running.
pub record Received (c : Client) (fs : List Frame) (out : Client × List ℕ) : Type 0 where
  pub running : IsRunning out.0
  pub queued : out.0.compressed_queue ≡ keep_last 256 (c.compressed_queue ++ payloads fs)
  pub counted : out.0.frames_received % 2 ^ 64 ≡ (c.frames_received + length (payloads fs)) % 2 ^ 64
  pub freed : out.1 ≡ addresses fs

Received-cons :
    (c : Client) (f : Frame) (fs : List Frame)
    → IsRunning c
    → let c' = queue_payload f.payload f.payload_len c in
      Received c' fs (receive c' fs) → Received c (f ∷ fs) (receive c (f ∷ fs))
unfolding receive
Received-cons c f fs v later =
    rw (receive, recv_callback_running c f v)
      (record {
        running = later.running;
        queued =
            later.queued
            ∙ rw now.1 (keep_last-append 256 (c.compressed_queue ++ bytes) (payloads fs))
            ∙ ap (keep_last 256) (append_assoc c.compressed_queue bytes (payloads fs));
        counted = omega (arith, now.2, later.counted, length-append bytes (payloads fs));
        freed = ap (λ rest. f.address ∷ rest) later.freed;
      })
  where
    bytes : List (List ℕ)
    bytes = payload_of f.payload f.payload_len

    c' : Client
    c' = queue_payload f.payload f.payload_len c

    now :
        IsRunning c'
        × (c'.compressed_queue ≡ keep_last 256 (c.compressed_queue ++ bytes))
        × (c'.frames_received % 2 ^ 64 ≡ (c.frames_received + length bytes) % 2 ^ 64)
    now = queue_payload_lem f.payload f.payload_len c v

-- While a client runs, any frames in any order leave in its queue the last 256 of what it held and of
-- the payloads that came, count every payload (modulo 2^64), and every frame is freed exactly once.
pub receive-Received : (c : Client) (fs : List Frame) → IsRunning c → Received c fs (receive c fs)
unfolding receive
receive-Received c [] v = record {
  running = v;
  queued = rw append-nil (sym (keep_last_all 256 c.compressed_queue v.bounded));
  counted = omega arith;
  freed = refl;
}
receive-Received c (f ∷ fs) v =
    let now = queue_payload_lem f.payload f.payload_len c v in
    Received-cons c f fs v (receive-Received (queue_payload f.payload f.payload_len c) fs now.0)

-- A client that is stopping or has failed queues nothing, and still frees every frame once.
receive_stopped :
    (c : Client) (fs : List Frame)
    → (c.should_stop ≡ true) ⊎ (c.healthy ≡ false)
    → receive c fs ≡ (c, addresses fs)
unfolding receive recv_callback
receive_stopped c [] h = refl
receive_stopped c (f ∷ fs) h = ground (arith, receive_stopped c fs h)
