-- ===== src/Rtp.antt =====
-- include/rtp.hxx and src/rtp.cpp: an RTP session and stream over uvgRTP.
-- Each call of uvgRTP is an event of a log, newest first; what it returns is a parameter that may
-- depend on all earlier calls. `teardown_mutex` makes `write_frames` and `stop` atomic.
pub mod Library
pub mod Lifecycle
pub mod Handles
pub mod Sessions
pub mod Tries
pub mod Frames
mod Tests
use audpipe_cpp.Prelude.{
  ℕ, String, Bool, true, false, not, ◌&&◌, if◌then◌else◌, Option, none, some, List, [], ◌∷◌, ok,
  err, Result,
}
use Library.{
  Uvg, Log, Event, session_created, stream_created, hook_installed, frame_pushed, stream_destroyed,
  session_destroyed, Flag, rtcp, system_call_clustering, send_only, receive_only,
}

-- `recv_callback`: the hook, null or not, and the pointer that it is called with.
pub record Callback : Type 0 where
  pub hook : Option ℕ
  pub userdata : ℕ

pub record Rtp : Type 0 where
  pub recv_callback : Callback
  pub session : Option ℕ
  pub stream : Option ℕ
  pub stopped : Bool

pub data Error : Type 0 where
  assertion session_failed stream_failed : Error

-- A computation over the log that may throw; what it called before stays called.
abbrev pub M : Type 0 → Type 0
M A = Log → Result Error A × Log

infixl 5 ◌>>=◌ ◌>>◌
abbrev pub ◌>>=◌ : {A B : Type 0} → M A → (A → M B) → M B
◌>>=◌ m f log = let (r, log') = m log in elim r [ err e ↦ (err e, log') | ok a ↦ f a log' ]

abbrev pub ◌>>◌ : {B : Type 0} → M (Unit {0}) → M B → M B
m >> k = m >>= λ _. k

abbrev pub return : {A : Type 0} → A → M A
return a log = (ok a, log)

-- `assert(test)`, and `if (p == nullptr) throw`.
abbrev pub check : Bool → M (Unit {0})
check true log = (ok tt, log)
check false log = (err assertion, log)

abbrev pub not_null : Option ℕ → Error → M ℕ
not_null none e log = (err e, log)
not_null (some p) e log = (ok p, log)

abbrev pub is_some : Option ℕ → Bool
is_some none = false
is_some (some p) = true

-- `DEFAULT_SEND_FLAGS` and `DEFAULT_RECV_FLAGS`
abbrev pub default_send_flags : List Flag
default_send_flags = rtcp ∷ system_call_clustering ∷ send_only ∷ []

abbrev pub default_recv_flags : List Flag
default_recv_flags = rtcp ∷ receive_only ∷ []

-- The member initialisers, with the callback that a receiver stores first.
unfoldable pub fresh : Callback → Rtp
fresh cb = record { recv_callback = cb; session = none; stream = none; stopped = false }

module _ (u : Uvg) where
  unfoldable pub create_session : String → String → M (Option ℕ)
  create_session local remote log =
      let s = u.new_session log in (ok s, session_created local remote s ∷ log)

  unfoldable pub create_stream : ℕ → ℕ → ℕ → List Flag → M (Option ℕ)
  create_stream session local_port remote_port flags log =
      let s = u.new_stream log in
      (ok s, stream_created session local_port remote_port flags s ∷ log)

  unfoldable pub install_receive_hook : ℕ → Callback → M (Unit {0})
  install_receive_hook stream cb log = (ok tt, hook_installed stream cb.hook cb.userdata ∷ log)

  -- `Rtp::init_rtp`
  unfoldable pub init_rtp : Rtp → Bool → ℕ → ℕ → M Rtp
  init_rtp rtp sending local_port remote_port = do
    check u.crypto_enabled
    check (if sending then true else is_some rtp.recv_callback.hook)
    session ← not_null rtp.session session_failed
    let flags = if sending then default_send_flags else default_recv_flags
    opened ← create_stream session local_port remote_port flags
    stream ← not_null opened stream_failed
    if sending then return tt else install_receive_hook stream rtp.recv_callback
    return (record rtp { stream = some stream })

  -- The constructor of the sender, and that of the receiver. Both handshakes are empty functions.
  unfoldable pub create_sender : String × ℕ → String × ℕ → M Rtp
  create_sender (local_ip, local_port) (remote_ip, remote_port) = do
    session ← create_session local_ip remote_ip
    init_rtp (record (fresh (record { hook = none; userdata = 0 })) { session = session }) true
        local_port remote_port

  unfoldable pub create_receiver : String × ℕ → String × ℕ → Callback → M Rtp
  create_receiver (local_ip, local_port) (remote_ip, remote_port) cb = do
    session ← create_session local_ip remote_ip
    init_rtp (record (fresh cb) { session = session }) false local_port remote_port

-- `Rtp::write_frames`: an error of `push_frame` is only logged.
pub write_frames : Rtp → List ℕ → Log → Log
write_frames rtp bytes log =
    if rtp.stopped
    then log
    else elim rtp.stream [ none ↦ log | some stream ↦ frame_pushed stream bytes ∷ log ]

-- The two guarded steps of `Rtp::stop`.
pub close_stream : Rtp → Log → Rtp × Log
close_stream rtp log = close rtp.session rtp.stream
  where
    close : Option ℕ → Option ℕ → Rtp × Log
    close (some session) (some stream) =
        (record rtp { stream = none }, stream_destroyed session stream ∷ log)
    close (some session) none = (rtp, log)
    close none stream = (rtp, log)

pub close_session : Rtp → Log → Rtp × Log
close_session rtp log = elim rtp.session [
  | none ↦ (rtp, log)
  | some session ↦ (record rtp { session = none }, session_destroyed session ∷ log)
]

-- `Rtp::stop`, which is also the whole of the destructor.
unfoldable pub stop : Rtp → Log → Rtp × Log
unfolding close_stream close_session
stop rtp log =
    if rtp.stopped
    then (rtp, log)
    else let (r, log') = close_stream (record rtp { stopped = true }) log in close_session r log'

pub is_initialised : Rtp → Bool
is_initialised rtp = not rtp.stopped && is_some rtp.session && is_some rtp.stream

pub is_stopped : Rtp → Bool
is_stopped rtp = rtp.stopped

-- The calls that an object takes after its construction, from any thread, in the order in which they
-- get the mutex.
pub data Call : Type 0 where
  writes : List ℕ → Call
  stops : Call

unfoldable pub step : Rtp × Log → Call → Rtp × Log
step (rtp, log) (writes bytes) = (rtp, write_frames rtp bytes log)
step (rtp, log) stops = stop rtp log

unfoldable pub run : Rtp × Log → List Call → Rtp × Log
run s [] = s
run s (c ∷ cs) = run (step s c) cs
