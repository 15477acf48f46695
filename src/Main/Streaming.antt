-- ===== src/Main/Streaming.antt =====
-- The client over many turns of the virtual input (src/client.cpp and src/audio/pulseaudio_backend.cpp):
-- frames come, the loop of the virtual input calls the write callback, and writes what it gives into the
-- FIFO.
pub mod Heard
pub mod Pipe
pub mod Quiet
mod Tests
use audpipe_cpp.Prelude.{ℕ, false, Option, none, some, List, [], ◌∷◌}
use audpipe_cpp.Backend.WriteLoop.{Turn, Write, produced, pcm_write_buf_size}
use audpipe_cpp.Client.State.{Client}
use audpipe_cpp.Client.Receive.{Frame, receive}
use audpipe_cpp.Client.Playback.{Opus, Playing, write_callback}
use audpipe_cpp.Client.Playback.Buffer.{delivered}

-- A turn of the loop: the frames that have come since the last one, those that come while the write
-- callback runs, and what the calls of `write` return.
pub record Round : Type 0 where
  pub frames : List Frame
  pub arrivals : List (List (List ℕ))
  pub writes : List Write

module _ (lib : Opus) where
  -- The client, the two members that only its write callback uses, and the buffer of the loop.
  pub record Listener : Type 0 where
    pub client : Client
    pub opusdec : lib.Decoder
    pub pcm_decbuf : List ℕ
    pub write_buf : List ℕ

  -- What a call of the write callback gives to the loop: as many bytes of the buffer as it returns.
  abbrev pub handed : Option (Playing lib × Client) → List ℕ
  handed none = []
  handed (some (end, c)) = delivered end.output

  abbrev pub after_asking : Listener → Option (Playing lib × Client) → Listener
  after_asking l none = l
  after_asking l (some (end, c)) = record {
    client = c;
    opusdec = end.opusdec;
    pcm_decbuf = end.pcm_decbuf;
    write_buf = end.output.dst;
  }

  -- The frames come, and then the loop asks for a buffer full of bytes.
  abbrev pub receive_all : List Frame → Listener → Listener
  receive_all frames l = record l { client = (receive l.client frames).0 }

  abbrev pub ask : (arrivals : List (List (List ℕ))) → Listener → Option (Playing lib × Client)
  ask arrivals l =
      write_callback lib pcm_write_buf_size arrivals (some l.write_buf) l.opusdec l.pcm_decbuf
        l.client

  unfoldable pub next_turn : Round → Listener → Listener
  next_turn r l = let asked = receive_all r.frames l in after_asking asked (ask r.arrivals asked)

  -- What the loop gets in a turn.
  unfoldable pub chunk_given : Round → Listener → List ℕ
  chunk_given r l = handed (ask r.arrivals (receive_all r.frames l))

  -- The turns of the loop while nothing stops it, each with what the client gives then.
  unfoldable pub turns_of : List Round → Listener → List Turn
  turns_of [] l = []
  turns_of (r ∷ rest) l =
      record {
        stopped = false;
        shutdown = false;
        production = produced (chunk_given r l);
        writes = r.writes;
      }
      ∷ turns_of rest (next_turn r l)

  -- The client behind the last turn.
  unfoldable pub after_rounds : List Round → Listener → Listener
  after_rounds [] l = l
  after_rounds (r ∷ rest) l = after_rounds rest (next_turn r l)
