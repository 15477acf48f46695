-- ===== src/Client/Life.antt =====
-- A client between its construction and its destruction (src/client.cpp): what the threads of uvgRTP and
-- of the virtual input bring to it, and the destructor.
pub mod Kept
pub mod Sound
pub mod Memory
mod Tests
use audpipe_cpp.Prelude.{ℕ, Bool, true, false, if◌then◌else◌, Option, none, some, List, [], ◌∷◌}
use audpipe_cpp.Rtp.Library.{Log}
use audpipe_cpp.Backend.{Backend}
use audpipe_cpp.Backend.VirtualInput
use audpipe_cpp.Client.State.{Client, call_virtual_input_setup, stop_rtp}
use audpipe_cpp.Client.Receive.{Frame, recv_callback, or_else}
use audpipe_cpp.Client.Playback.{Opus, Playing, write_callback}

module _ (lib : Opus) where
  -- The client with the members that only its write callback uses, and the audio backend.
  pub record Living : Type 0 where
    pub client : Client
    pub backend : Backend
    pub opusdec : lib.Decoder
    pub pcm_decbuf : List ℕ

  -- A frame comes; the virtual input throws; the virtual input asks for bytes, with the frames that come
  -- meanwhile.
  pub data Happening : Type 0 where
    frame_came : Frame → Happening
    virtual_input_threw : Happening
    bytes_asked :
        (max_len : ℕ) (arrivals : List (List (List ℕ))) (dst : Option (List ℕ)) → Happening

  abbrev pub after_call : Option (Playing lib × Client) → Living → Living
  after_call none l = l
  after_call (some (end, c)) l = record l {
    client = c;
    opusdec = end.opusdec;
    pcm_decbuf = end.pcm_decbuf;
  }

  unfoldable pub happen : Happening → Living → Living
  happen (frame_came f) l = record l {
    client = or_else (recv_callback (some l.client) (some f)).0 l.client;
  }
  happen virtual_input_threw l =
      let (c, b) = call_virtual_input_setup true (l.client, l.backend) in
      record l { client = c; backend = b }
  happen (bytes_asked max_len arrivals dst) l =
      after_call (write_callback lib max_len arrivals dst l.opusdec l.pcm_decbuf l.client) l

  unfoldable pub happen_all : List Happening → Living → Living
  happen_all [] l = l
  happen_all (e ∷ rest) l = happen_all rest (happen e l)

-- Whether the work of the thread of the virtual input is over, so that it can be joined.
abbrev pub is_over : VirtualInput.Ending → Bool
is_over VirtualInput.returned = true
is_over VirtualInput.waiting = false
is_over (VirtualInput.threw reason) = true

-- The destructor: the decoder is freed and the thread of the virtual input joined, which may wait on; then
-- the `Rtp` member is destroyed. It tells whether it returned.
unfoldable pub destroy : VirtualInput.Ending → Client → Log → Bool × Log
destroy input c log = if is_over input then (true, (stop_rtp c.rtp log).1) else (false, log)
