-- ===== src/Backend/Recording/Tests.antt =====
-- A recording at a concrete script.
use audpipe_cpp.Prelude.{◌≡◌, refl, true, false, some, List, [], ◌∷◌}
use audpipe_cpp.Audio.{AudioDevice}
use audpipe_cpp.Backend.{initial, stop_recording}
use audpipe_cpp.Backend.Recording.{
  unconnected, creating, ready, failed, Peek, nothing, hole, bytes_at, Read, stream_read_cb,
  stream_state_cb, state_changed, readable, stream_created, stream_unreferenced, State, returned,
  waiting, destroy_stream, dispatch, dispatch_all, record_turns, wait_for_stream_ready, Script,
  record_ready, record_stream, record_device,
}
use audpipe_cpp.Backend.Recording.EarlyStop.{early_stop_lost}
use audpipe_cpp.Backend.Recording.Streams.{IsRecorded, record-IsRecorded}

abbrev microphone : AudioDevice
microphone = record {
  name = "mic";
  description = "Microphone";
  index = 3;
  sample_rate = 48000;
  channels = 1;
  is_monitor = false;
  is_default = false;
  is_source = true;
}

abbrev peeks : List Peek
peeks = bytes_at (1 ∷ 2 ∷ []) ∷ hole ∷ bytes_at (3 ∷ []) ∷ nothing ∷ bytes_at (4 ∷ []) ∷ []

abbrev unread : Read
unread = record { fragments = []; drops = 0 }

abbrev idle : State
idle = record { backend = initial; events = []; read = unread }

-- A stream that delivers audio and then fails.
abbrev script : Script
script = record {
  old_state = unconnected;
  created = some 8;
  connects = true;
  unconnected_state = unconnected;
  states = creating ∷ ready ∷ [];
  turns =
      record { stopped = false; shutdown = false; dispatched = readable peeks ∷ [] }
      ∷ record { stopped = false; shutdown = false; dispatched = state_changed failed ∷ [] }
      ∷ [];
  last_state = failed;
}

recorded : record_device script microphone idle ≡ (
  returned,
  record {
    backend = initial;
    events = stream_unreferenced 8 ∷ stream_created 8 ∷ [];
    read = record { fragments = (1 ∷ 2 ∷ []) ∷ (3 ∷ []) ∷ []; drops = 3 };
  },
)
unfolding record_device destroy_stream record_stream record_ready wait_for_stream_ready record_turns
    dispatch_all dispatch stream_read_cb stream_state_cb
recorded = refl

record-IsRecorded_example : IsRecorded (record_device script microphone idle)
record-IsRecorded_example = record-IsRecorded script microphone idle refl

-- A stream that only delivers audio.
abbrev endless : Script
endless = record script {
  turns = record { stopped = false; shutdown = false; dispatched = readable peeks ∷ [] } ∷ [];
}

early_stop_lost_example :
    (record_ready endless returned (record idle { backend = stop_recording initial })).0 ≡ waiting
early_stop_lost_example = early_stop_lost endless idle (refl, refl, tt, tt)
