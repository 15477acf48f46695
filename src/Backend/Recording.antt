-- ===== src/Backend/Recording.antt =====
-- `PulseaudioBackend::record` (src/audio/pulseaudio_backend.cpp), with the callbacks of its stream
-- (src/audio/pulseaudio_callbacks.cpp).
-- What PulseAudio answers and what its main loop dispatches is a script, turn by turn.
pub mod Reading
pub mod Streams
pub mod Accepted
pub mod Ends
pub mod EarlyStop
mod Tests
use audpipe_cpp.Prelude.{
  ℕ, zero, suc, ◌+◌, Bool, true, false, not, if◌then◌else◌, Option, none, some, List, [], ◌∷◌, ◌++◌,
}
use audpipe_cpp.Audio.{AudioDevice}
use audpipe_cpp.Backend.{Backend}

-- `pa_stream_state_t`
pub data StreamState : Type 0 where
  unconnected creating ready failed terminated : StreamState

-- What `pa_stream_peek` gives: an error, an empty buffer, a hole, or bytes.
pub data Peek : Type 0 where
  peek_failed nothing hole : Peek
  bytes_at : List ℕ → Peek

-- What is handed to the data callback, and how often a fragment is dropped.
pub record Read : Type 0 where
  pub fragments : List (List ℕ)
  pub drops : ℕ

-- `PulseaudioBackend::stream_read_cb`, with a data callback that returns. A script that ends counts as
-- an empty buffer.
unfoldable pub stream_read_cb : List Peek → Read → Read
stream_read_cb [] r = r
stream_read_cb (peek_failed ∷ peeks) r = r
stream_read_cb (nothing ∷ peeks) r = r
stream_read_cb (bytes_at [] ∷ peeks) r = r
stream_read_cb (hole ∷ peeks) r = stream_read_cb peeks (record r { drops = r.drops + 1 })
stream_read_cb (bytes_at (b ∷ bytes) ∷ peeks) r =
    stream_read_cb peeks
      (record { fragments = r.fragments ++ (b ∷ bytes) ∷ []; drops = r.drops + 1 })

-- `PulseaudioBackend::stream_state_cb`
unfoldable pub stream_state_cb : StreamState → Backend → Backend
stream_state_cb failed b = record b { recording = false }
stream_state_cb terminated b = record b { recording = false }
stream_state_cb unconnected b = b
stream_state_cb creating b = b
stream_state_cb ready b = b

-- What the main loop dispatches.
pub data Dispatch : Type 0 where
  state_changed : StreamState → Dispatch
  readable : List Peek → Dispatch

-- One turn of the loop: whether another thread has cleared `recording`, the shutdown flag, and what is
-- dispatched.
pub record Turn : Type 0 where
  pub stopped : Bool
  pub shutdown : Bool
  pub dispatched : List Dispatch

-- Streams that are created, disconnected, and given up. Newest first.
pub data StreamEvent : Type 0 where
  stream_created stream_disconnected stream_unreferenced : ℕ → StreamEvent

pub record State : Type 0 where
  pub backend : Backend
  pub events : List StreamEvent
  pub read : Read

pub data Fault : Type 0 where
  not_a_source stream_not_created not_connected stream_not_ready : Fault

-- A call returns, throws, or still waits when the script is over.
pub data Ending : Type 0 where
  returned waiting : Ending
  threw : Fault → Ending

abbrev pub is_ready : StreamState → Bool
is_ready ready = true
is_ready unconnected = false
is_ready creating = false
is_ready failed = false
is_ready terminated = false

-- `PulseaudioBackend::destroy_stream`; the state is what `pa_stream_get_state` gives.
unfoldable pub destroy_stream : StreamState → State → State
destroy_stream state s = elim s.backend.stream [
  | none ↦ s
  | some stream ↦ record s {
    backend = record s.backend { stream = none };
    events =
        stream_unreferenced stream
        ∷ (if is_ready state then stream_disconnected stream ∷ s.events else s.events);
  }
]

unfoldable pub dispatch : Dispatch → State → State
dispatch (state_changed state) s = record s { backend = stream_state_cb state s.backend }
dispatch (readable peeks) s = record s { read = stream_read_cb peeks s.read }

unfoldable pub dispatch_all : List Dispatch → State → State
dispatch_all [] s = s
dispatch_all (d ∷ rest) s = dispatch_all rest (dispatch d s)

unfoldable pub stop_loop : State → State
stop_loop s = record s { backend = record s.backend { recording = false } }

-- The loop `while (recording)`.
unfoldable pub record_turns : List Turn → State → Ending × State
record_turns [] s = (if s.backend.recording then waiting else returned, s)
record_turns (t ∷ rest) s =
    let later = record_turns rest (dispatch_all t.dispatched s) in
    if not s.backend.recording
    then (returned, s)
    else (if t.stopped
        then (returned, stop_loop s)
        else (if t.shutdown then (returned, stop_loop s) else later))

-- `PulseaudioBackend::wait_for_stream_ready`
unfoldable pub wait_for_stream_ready : List StreamState → Ending
wait_for_stream_ready [] = waiting
wait_for_stream_ready (ready ∷ rest) = returned
wait_for_stream_ready (failed ∷ rest) = threw stream_not_ready
wait_for_stream_ready (terminated ∷ rest) = threw stream_not_ready
wait_for_stream_ready (unconnected ∷ rest) = wait_for_stream_ready rest
wait_for_stream_ready (creating ∷ rest) = wait_for_stream_ready rest

-- What a recording meets: the states of the stream at each point, whether it is created and connected,
-- and the turns of its loop.
pub record Script : Type 0 where
  pub old_state : StreamState
  pub created : Option ℕ
  pub connects : Bool
  pub unconnected_state : StreamState
  pub states : List StreamState
  pub turns : List Turn
  pub last_state : StreamState

abbrev pub finish : StreamState → Ending × State → Ending × State
finish state (returned, s) = (returned, destroy_stream state s)
finish state (waiting, s) = (waiting, s)
finish state (threw fault, s) = (threw fault, s)

abbrev pub start_loop : State → State
start_loop s = record s { backend = record s.backend { recording = true } }

-- What follows the connection of the stream.
unfoldable pub record_ready : Script → Ending → State → Ending × State
record_ready script returned s = finish script.last_state (record_turns script.turns (start_loop s))
record_ready script waiting s = (waiting, s)
record_ready script (threw fault) s = (threw fault, s)

unfoldable pub record_stream : Script → ℕ → State → Ending × State
record_stream script stream s =
    let made = record s {
      backend = record s.backend { stream = some stream };
      events = stream_created stream ∷ s.events;
    } in
    if script.connects
    then record_ready script (wait_for_stream_ready script.states) made
    else (threw not_connected, destroy_stream script.unconnected_state made)

-- `PulseaudioBackend::record`
unfoldable pub record_device : Script → AudioDevice → State → Ending × State
record_device script dev s =
    if not dev.is_source
    then (threw not_a_source, s)
    else let cleared = destroy_stream script.old_state s in
      elim script.created [
        | none ↦ (threw stream_not_created, cleared)
        | some stream ↦ record_stream script stream cleared
      ]
