-- ===== src/Backend/Context.antt =====
-- The constructor and the destructor of `PulseaudioBackend` (src/audio/pulseaudio_backend.cpp), and the
-- callback of the context state (src/audio/pulseaudio_callbacks.cpp).
-- The context tells of its states while the main loop iterates, and while it is disconnected.
pub mod Waiting
pub mod Stale
mod Tests
use audpipe_cpp.Prelude.{ℕ, Bool, zero, suc, ◌==◌, if◌then◌else◌, Option, none, some, List, [], ◌∷◌}
use audpipe_cpp.Backend.{Backend, initial, stop_recording}
use audpipe_cpp.Backend.VirtualInput.{Unloading, Effects, destroy_virtual_input}

-- `pa_context_state_t`
pub data ContextState : Type 0 where
  unconnected connecting authorizing setting_name ready failed terminated : ContextState

-- What is done to the context and the main loop; `stale_write` is a write of the callback into the frame
-- of `wait_for_context_ready` after this function has been left. Newest first.
pub data Event : Type 0 where
  disconnected unreferenced mainloop_freed : Event
  stale_write : ℕ → Event

-- What `pa_state_cb` writes into `pa_ready`, if it writes.
unfoldable pub pa_state_cb : ContextState → Option ℕ
pa_state_cb unconnected = none
pa_state_cb connecting = none
pa_state_cb authorizing = none
pa_state_cb setting_name = none
pa_state_cb failed = some 2
pa_state_cb terminated = some 2
pa_state_cb ready = some 1

abbrev pub written_over : Option ℕ → ℕ → ℕ
written_over none pa_ready = pa_ready
written_over (some value) pa_ready = value

-- The variable while its function runs.
unfoldable pub tell_waiting : List ContextState → (pa_ready : ℕ) → ℕ
tell_waiting [] pa_ready = pa_ready
tell_waiting (state ∷ rest) pa_ready = tell_waiting rest (written_over (pa_state_cb state) pa_ready)

abbrev pub written_later : Option ℕ → List Event → List Event
written_later none log = log
written_later (some value) log = stale_write value ∷ log

-- The callback is never taken back: later states are written where the variable was.
unfoldable pub tell_later : List ContextState → List Event → List Event
tell_later [] log = log
tell_later (state ∷ rest) log = tell_later rest (written_later (pa_state_cb state) log)

pub data Ending : Type 0 where
  returned threw waiting : Ending

abbrev pub give_up : List Event → Ending × List Event
give_up log = (threw, mainloop_freed ∷ unreferenced ∷ disconnected ∷ log)

-- `wait_for_context_ready`, with the states that each iteration of the main loop tells.
unfoldable pub wait_for_context_ready :
    (iterations : List (List ContextState)) → (pa_ready : ℕ) → List Event → Ending × List Event
wait_for_context_ready [] zero log = (waiting, log)
wait_for_context_ready (states ∷ rest) zero log =
    wait_for_context_ready rest (tell_waiting states zero) log
wait_for_context_ready iterations (suc n) log = if n == 1 then give_up log else (returned, log)

-- The constructor: that the connection fails is only logged.
unfoldable pub create : List (List ContextState) → List Event → Ending × Backend × List Event
create iterations log =
    let (ending, log') = wait_for_context_ready iterations 0 log in (ending, initial, log')

-- The destructor; `states` is what disconnecting tells.
unfoldable pub destroy :
    Unloading
    → (states : List ContextState) → Backend × Effects × List Event
    → Backend × Effects × List Event
destroy unloading states (b, effects, log) =
    let (b', effects') = destroy_virtual_input unloading (stop_recording b, effects) in
    (b', effects', mainloop_freed ∷ unreferenced ∷ tell_later states (disconnected ∷ log))
