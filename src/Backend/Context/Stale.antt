-- ===== src/Backend/Context/Stale.antt =====
-- The pointer that the state callback keeps (src/audio/pulseaudio_backend.cpp).
use audpipe_cpp.Prelude.{ℕ, ◌+◌, ◌≡◌, refl, Option, none, some, List, [], ◌∷◌, arith}
use audpipe_cpp.Backend.{Backend}
use audpipe_cpp.Backend.VirtualInput.{Unloading, Effects}
use audpipe_cpp.Backend.Context.{
  ContextState, terminated, Event, disconnected, unreferenced, mainloop_freed, stale_write,
  pa_state_cb, written_later, tell_later, destroy,
}

abbrev pub stale_writes : List Event → ℕ
stale_writes [] = 0
stale_writes (stale_write value ∷ log) = stale_writes log + 1
stale_writes (disconnected ∷ log) = stale_writes log
stale_writes (unreferenced ∷ log) = stale_writes log
stale_writes (mainloop_freed ∷ log) = stale_writes log

abbrev pub count_some : Option ℕ → ℕ
count_some none = 0
count_some (some value) = 1

-- How many states are READY, FAILED or TERMINATED.
abbrev pub settled_states : List ContextState → ℕ
settled_states [] = 0
settled_states (state ∷ rest) = settled_states rest + count_some (pa_state_cb state)

written_later-stale :
    (told : Option ℕ) (log : List Event)
    → stale_writes (written_later told log) ≡ stale_writes log + count_some told
written_later-stale none log = omega arith
written_later-stale (some value) log = refl

tell_later-stale :
    (states : List ContextState) (log : List Event)
    → stale_writes (tell_later states log) ≡ stale_writes log + settled_states states
unfolding tell_later
tell_later-stale [] log = omega arith
tell_later-stale (state ∷ rest) log = omega (
  arith,
  tell_later-stale rest (written_later (pa_state_cb state) log),
  written_later-stale (pa_state_cb state) log,
)

-- The state callback holds a pointer to a variable of `wait_for_context_ready`, which has been left: the
-- destructor writes through it once for each settled state that disconnecting tells. TERMINATED is one.
destroy_writes_stale :
    (unloading : Unloading) (states : List ContextState) (b : Backend) (effects : Effects)
    (log : List Event)
    → (stale_writes (destroy unloading states (b, effects, log)).2
        ≡ stale_writes log + settled_states states)
      × ((destroy unloading (terminated ∷ []) (b, effects, log)).2
          ≡ mainloop_freed ∷ unreferenced ∷ stale_write 2 ∷ disconnected ∷ log)
unfolding destroy tell_later pa_state_cb
destroy_writes_stale unloading states b effects log =
    (tell_later-stale states (disconnected ∷ log), refl)
