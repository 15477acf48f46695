-- ===== src/Rtp/Frames.antt =====
-- The sizes of the frames that are pushed (src/rtp.cpp).
use audpipe_cpp.Prelude.{ℕ, ◌≤◌, ◌<◌, if_both, Option, none, some, List, [], ◌∷◌, length}
use audpipe_cpp.Rtp.{Rtp, write_frames}
use audpipe_cpp.Rtp.Library.{
  Event, Log, session_created, stream_created, hook_installed, frame_pushed, stream_destroyed,
  session_destroyed,
}

-- A frame that is pushed is not empty, and has at most `size` bytes.
abbrev pub IsFitting : ℕ → Event → Type 0
IsFitting size (session_created local remote session) = Unit
IsFitting size (stream_created session local remote flags stream) = Unit
IsFitting size (hook_installed stream hook userdata) = Unit
IsFitting size (frame_pushed stream bytes) = (0 < length bytes) × (length bytes ≤ size)
IsFitting size (stream_destroyed session stream) = Unit
IsFitting size (session_destroyed session) = Unit

abbrev pub AllFit : ℕ → Log → Type 0
AllFit size [] = Unit
AllFit size (e ∷ log) = IsFitting size e × AllFit size log

pub write_frames-AllFit :
    (size : ℕ) (rtp : Rtp) (bytes : List ℕ) (log : Log)
    → 0 < length bytes
    → length bytes ≤ size
    → AllFit size log
    → AllFit size (write_frames rtp bytes log)
unfolding write_frames
write_frames-AllFit size rtp bytes log some_byte fits all =
    if_both (AllFit size) rtp.stopped all (by_stream rtp.stream)
  where
    by_stream :
        (stream : Option ℕ)
        → AllFit size (elim stream as (λ _. Log) [
          | none ↦ log
          | some stream ↦ frame_pushed stream bytes ∷ log
        ])
    by_stream none = all
    by_stream (some stream) = ((some_byte, fits), all)
