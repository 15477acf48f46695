-- ===== src/Client/Receive/Tests.antt =====
-- The receive callback of src/client.cpp at concrete frames.
use audpipe_cpp.Prelude.{◌≡◌, refl, true, none, some, List, [], ◌∷◌, arith}
use audpipe_cpp.Config.{default_policy}
use audpipe_cpp.Client.State.{Client, fresh}
use audpipe_cpp.Client.Receive.{Frame, push, recv_callback, receive}
use audpipe_cpp.Client.Receive.Queue.{Received, receive-Received}

abbrev frames : List Frame
frames =
    record { address = 10; payload = some (1 ∷ 2 ∷ 3 ∷ []); payload_len = 2 }
    ∷ record { address = 11; payload = none; payload_len = 5 }
    ∷ record { address = 12; payload = some (4 ∷ []); payload_len = 1 }
    ∷ []

abbrev idle : Client
idle = fresh default_policy

-- The frame without a payload is freed and not queued.
receive_sample : receive idle frames ≡ (
  record idle { compressed_queue = (1 ∷ 2 ∷ []) ∷ (4 ∷ []) ∷ []; frames_received = 2 },
  10 ∷ 11 ∷ 12 ∷ [],
)
unfolding receive recv_callback push
receive_sample = refl

receive-Received_example : Received idle frames (receive idle frames)
receive-Received_example =
    receive-Received idle frames (record { going = refl; healthy = refl; bounded = omega arith })

abbrev stopping : Client
stopping = record idle { should_stop = true }
