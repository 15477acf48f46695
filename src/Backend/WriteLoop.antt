-- ===== src/Backend/WriteLoop.antt =====
-- `PulseaudioBackend::run_virtual_input` (src/audio/pulseaudio_backend.cpp): the loop that moves the
-- bytes of the write callback into the FIFO.
-- What the loop meets, turn by turn and write by write, is a script: what the flags hold, what the
-- callback gives and what `write` returns.
pub mod Chunks
pub mod Ends
pub mod Whole
mod Tests
use audpipe_cpp.Prelude.{
  ℕ, zero, suc, Bool, true, false, not, if◌then◌else◌, Option, none, some, List, [], ◌∷◌, ◌++◌,
  length, take, drop,
}
use audpipe_cpp.Backend.{
  Backend, Reason, not_ready, callback_threw, reader_disconnected, write_failed,
  is_virtual_input_ready, set_virtual_input_error,
}
use audpipe_cpp.Backend.VirtualInput.{Ending, returned, waiting, threw}

-- `PCM_WRITE_BUF_SIZE`
abbrev pub pcm_write_buf_size : ℕ
pcm_write_buf_size = 3840

-- What `write` returns: a length, EINTR, EAGAIN (with the shutdown flag as it is read then), EPIPE, or
-- any other error.
pub data Write : Type 0 where
  wrote : ℕ → Write
  interrupted broken write_error : Write
  would_block : (shutdown : Bool) → Write

-- How the writing of a chunk stops: the chunk is written; the loop was left with a rest, or on a
-- shutdown; an exception; or the script ends first.
pub data Stop : Type 0 where
  finished gave_up shut_down unfinished : Stop
  died : Reason → Stop

-- The loop over a chunk: how it stops, what is not written, and the bytes in the FIFO, oldest first.
unfoldable pub write_chunk : List Write → (left : List ℕ) → (pipe : List ℕ) → Stop × List ℕ × List ℕ
write_chunk writes [] pipe = (finished, [], pipe)
write_chunk [] (b ∷ left) pipe = (unfinished, b ∷ left, pipe)
write_chunk (wrote zero ∷ writes) (b ∷ left) pipe = (gave_up, b ∷ left, pipe)
write_chunk (wrote (suc n) ∷ writes) (b ∷ left) pipe =
    write_chunk writes (drop n left) (pipe ++ b ∷ take n left)
write_chunk (interrupted ∷ writes) (b ∷ left) pipe = write_chunk writes (b ∷ left) pipe
write_chunk (would_block true ∷ writes) (b ∷ left) pipe = (shut_down, b ∷ left, pipe)
write_chunk (would_block false ∷ writes) (b ∷ left) pipe = (gave_up, b ∷ left, pipe)
write_chunk (broken ∷ writes) (b ∷ left) pipe = (died reader_disconnected, b ∷ left, pipe)
write_chunk (write_error ∷ writes) (b ∷ left) pipe = (died write_failed, b ∷ left, pipe)

-- What the write callback gives: bytes, or an exception.
pub data Production : Type 0 where
  produced : List ℕ → Production
  callback_failed : Production

-- One turn of the loop: whether another thread has cleared `playback`, the shutdown flag, the callback
-- and the writes.
pub record Turn : Type 0 where
  pub stopped : Bool
  pub shutdown : Bool
  pub production : Production
  pub writes : List Write

abbrev pub State : Type 0
State = Backend × List ℕ

abbrev pub die : Reason → State → Option Ending × State
die reason (b, pipe) = (some (threw reason), (set_virtual_input_error reason b, pipe))

abbrev pub stop_playback : State → Option Ending × State
stop_playback (b, pipe) = (some returned, (record b { playback = false }, pipe))

-- What follows the writing of a chunk.
unfoldable pub after_chunk : Stop → State → Option Ending × State
after_chunk finished state = (none, state)
after_chunk gave_up state = (none, state)
after_chunk shut_down state = stop_playback state
after_chunk unfinished state = (some waiting, state)
after_chunk (died reason) state = die reason state

-- The bytes of the buffer that the callback filled.
abbrev pub chunk : List ℕ → List ℕ
chunk bytes = take pcm_write_buf_size bytes

unfoldable pub write_production : Production → List Write → State → Option Ending × State
write_production callback_failed writes state = die callback_threw state
write_production (produced bytes) writes (b, pipe) =
    let (stop, left, pipe') = write_chunk writes (chunk bytes) pipe in after_chunk stop (b, pipe')

-- A turn: the ending of the loop, if it ends there.
unfoldable pub take_turn : Turn → State → Option Ending × State
take_turn t state =
    if t.stopped
    then stop_playback state
    else (if t.shutdown then stop_playback state else write_production t.production t.writes state)

unfoldable pub take_turns : List Turn → State → Ending × State
take_turns [] state = (waiting, state)
take_turns (t ∷ rest) state =
    let (ending, state') = take_turn t state in
    elim ending [ some e ↦ (e, state') | none ↦ take_turns rest state' ]

unfoldable pub run_virtual_input : List Turn → State → Ending × State
run_virtual_input turns (b, pipe) =
    if is_virtual_input_ready b
    then take_turns turns (record b { playback = true }, pipe)
    else (threw not_ready, (set_virtual_input_error not_ready b, pipe))
