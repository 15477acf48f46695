-- ===== src/Client/Teardown.antt =====
-- The end of a client with its two threads (src/client.cpp): the main thread, which calls
-- `request_shutdown` and then the destructor, and the thread of the virtual input, whose write callback
-- decodes.
pub mod Misuse
mod Tests
use audpipe_cpp.Prelude.{◌≡◌, Bool, true, false, not, ◌||◌}

-- Before `request_shutdown`; after its first and its last statement; after the decoder is freed; after
-- the join.
pub data MainAt : Type 0 where
  serving stopping silenced freed joined : MainAt

-- In the loop of the virtual input; in the callback behind its guard; behind the loop.
pub data WriterAt : Type 0 where
  looping decoding ended : WriterAt

-- `misused` tells whether a decoder that was freed has been used.
pub record Threads : Type 0 where
  pub main_at : MainAt
  pub writer_at : WriterAt
  pub should_stop : Bool
  pub playback : Bool
  pub decoder_alive : Bool
  pub misused : Bool

abbrev pub started : Threads
started = record {
  main_at = serving;
  writer_at = looping;
  should_stop = false;
  playback = true;
  decoder_alive = true;
  misused = false;
}

pub data Step (s : Threads) : Threads → Type 0 where
  -- `should_stop = true`
  stop : s.main_at ≡ serving → Step s (record s { main_at = stopping; should_stop = true })
  -- `AudioBackend::instance().stop_recording()`
  silence : s.main_at ≡ stopping → Step s (record s { main_at = silenced; playback = false })
  -- `opus_decoder_destroy`
  free : s.main_at ≡ silenced → Step s (record s { main_at = freed; decoder_alive = false })
  -- `virtual_input_thread.join()`
  join : s.main_at ≡ freed → s.writer_at ≡ ended → Step s (record s { main_at = joined })
  -- The callback is called and passes its guard.
  enter : s.writer_at ≡ looping → s.should_stop ≡ false → Step s (record s { writer_at = decoding })
  -- `opus_decode`
  decode : s.writer_at ≡ decoding → Step s (record s { misused = s.misused || not s.decoder_alive })
  leave : s.writer_at ≡ decoding → Step s (record s { writer_at = looping })
  -- The loop ends, since playback was stopped, on a shutdown or by an exception.
  finish : s.writer_at ≡ looping → Step s (record s { writer_at = ended; playback = false })

pub data Reach (s : Threads) : Threads → Type 0 where
  here : Reach s s
  next : {t u : Threads} → Reach s t → Step t u → Reach s u
