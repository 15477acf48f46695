-- ===== src/Rtp/Handles.antt =====
-- That src/rtp.cpp gives uvgRTP no pointer that is not alive: none before it was created and none after it
-- was destroyed.
pub mod Opening
use audpipe_cpp.Prelude.{
  ℕ, String, ◌≡◌, refl, ◌⊎◌, inl, inr, Bool, true, false, ◌==◌, if◌then◌else◌, none, some, List, [],
  ◌∷◌, arith, Result, ok, err, subst, sym, Option,
}
use audpipe_cpp.Rtp.Library.{
  Uvg, Log, Flag, session_created, stream_created, hook_installed, frame_pushed, stream_destroyed,
  session_destroyed,
}
use audpipe_cpp.Rtp.{
  Rtp, Error, Callback, create_sender, create_receiver, init_rtp, create_session, create_stream,
  default_send_flags, default_recv_flags, fresh, install_receive_hook, write_frames, stop, Call,
  writes, stops, step, run,
}
use audpipe_cpp.Rtp.Lifecycle.{
  handle, IsOpen, IsClosed, create_sender-IsOpen, create_receiver-IsOpen, stop_open, stop_closed,
  write_frames_open,
}

-- Whether the newest event on a session is its creation.
abbrev pub session_alive : ℕ → Log → Bool
session_alive s [] = false
session_alive s (session_created local remote none ∷ log) = session_alive s log
session_alive s (session_created local remote (some p) ∷ log) =
    let before = session_alive s log in if p == s then true else before
session_alive s (stream_created p local remote flags t ∷ log) = session_alive s log
session_alive s (hook_installed t hook userdata ∷ log) = session_alive s log
session_alive s (frame_pushed t bytes ∷ log) = session_alive s log
session_alive s (stream_destroyed p t ∷ log) = session_alive s log
session_alive s (session_destroyed p ∷ log) =
    let before = session_alive s log in if p == s then false else before

-- Whether the newest event on a stream is its creation, by the session `s`, and the session was not
-- destroyed since.
abbrev pub stream_alive : ℕ → ℕ → Log → Bool
stream_alive s t [] = false
stream_alive s t (session_created local remote p ∷ log) = stream_alive s t log
stream_alive s t (stream_created p local remote flags none ∷ log) = stream_alive s t log
stream_alive s t (stream_created p local remote flags (some q) ∷ log) =
    let before = stream_alive s t log in if q == t then p == s else before
stream_alive s t (hook_installed q hook userdata ∷ log) = stream_alive s t log
stream_alive s t (frame_pushed q bytes ∷ log) = stream_alive s t log
stream_alive s t (stream_destroyed p q ∷ log) =
    let before = stream_alive s t log in if q == t then false else before
stream_alive s t (session_destroyed p ∷ log) =
    let before = stream_alive s t log in if p == s then false else before

-- Both are alive.
abbrev pub AreAlive : ℕ → ℕ → Log → Type 0
AreAlive s t log = (session_alive s log ≡ true) × (stream_alive s t log ≡ true)

-- Each call of uvgRTP is on pointers that are alive when it is made.
abbrev pub IsSafe : Log → Type 0
IsSafe [] = Unit
IsSafe (session_created local remote p ∷ log) = IsSafe log
IsSafe (stream_created s local remote flags t ∷ log) = (session_alive s log ≡ true) × IsSafe log
IsSafe (hook_installed t hook userdata ∷ log) = ((s : ℕ) × AreAlive s t log) × IsSafe log
IsSafe (frame_pushed t bytes ∷ log) = ((s : ℕ) × AreAlive s t log) × IsSafe log
IsSafe (stream_destroyed s t ∷ log) = AreAlive s t log × IsSafe log
IsSafe (session_destroyed s ∷ log) = (session_alive s log ≡ true) × IsSafe log

-- An object that is open on pointers that are alive, or closed.
abbrev pub IsUsable : Rtp → Log → Type 0
IsUsable r log =
    ((s : ℕ) × (t : ℕ) × IsOpen r s t × AreAlive s t log × IsSafe log) ⊎ (IsClosed r × IsSafe log)

pub IsUsable-IsSafe : (r : Rtp) (log : Log) → IsUsable r log → IsSafe log
IsUsable-IsSafe r log (inl (s, t, open_now, alive, safe)) = safe
IsUsable-IsSafe r log (inr (closed, safe)) = safe

-- What a constructor leaves.
abbrev pub Leaves : Result Error Rtp × Log → Type 0
Leaves (err e, log) = IsSafe log
Leaves (ok r, log) = IsUsable r log

write_frames-IsUsable :
    (r : Rtp) (bytes : List ℕ) (log : Log) → IsUsable r log → IsUsable r (write_frames r bytes log)
unfolding write_frames
write_frames-IsUsable r bytes log (inl (s, t, open_now, alive, safe)) =
    rw (write_frames_open r log s t bytes open_now)
      (inl (s, t, open_now, alive, ((s, alive), safe)))
write_frames-IsUsable r bytes log (inr (closed, safe)) = ground arith

pub stop-IsUsable :
    (r : Rtp) (log : Log) → IsUsable r log → let (r', log') = stop r log in IsUsable r' log'
stop-IsUsable r log (inl (s, t, open_now, alive, safe)) =
    let (closed, same) = stop_open r log s t open_now in
    inr (closed, subst IsSafe (sym same) (alive.0, (alive, safe)))
stop-IsUsable r log (inr (closed, safe)) = rw (stop_closed r log closed) (inr (closed, safe))

step-IsUsable :
    (r : Rtp) (log : Log) (c : Call)
    → IsUsable r log
    → let (r', log') = step (r, log) c in IsUsable r' log'
unfolding step
step-IsUsable r log (writes bytes) v = write_frames-IsUsable r bytes log v
step-IsUsable r log stops v = stop-IsUsable r log v

-- Whatever calls an object takes, and whatever their order.
pub run-IsUsable :
    (r : Rtp) (log : Log) (cs : List Call)
    → IsUsable r log
    → let (r', log') = run (r, log) cs in IsUsable r' log'
unfolding run
run-IsUsable r log [] v = v
run-IsUsable r log (c ∷ cs) v =
    let (r', log') = step (r, log) c in run-IsUsable r' log' cs (step-IsUsable r log c v)
