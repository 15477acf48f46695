-- ===== src/Rtp/Lifecycle.antt =====
-- The life of an `Rtp` object (src/rtp.cpp), from its construction to its end.
use audpipe_cpp.Prelude.{
  ℕ, String, ◌≡◌, refl, true, false, Option, none, some, List, [], ◌∷◌, arith, ok,
}
use audpipe_cpp.Rtp.Library.{Uvg, Log, frame_pushed, stream_destroyed, session_destroyed}
use audpipe_cpp.Rtp.{
  Rtp, Callback, create_sender, create_receiver, init_rtp, create_session, create_stream, fresh,
  install_receive_hook, write_frames, stop, is_initialised, Call, writes, stops, step, run,
}

-- An object whose constructor returned is open until its first `stop`, and closed from then on.
abbrev pub IsOpen : Rtp → ℕ → ℕ → Type 0
IsOpen r session stream =
    (r.stopped ≡ false) × (r.session ≡ some session) × (r.stream ≡ some stream)

abbrev pub IsClosed : Rtp → Type 0
IsClosed r = (r.stopped ≡ true) × (r.session ≡ none) × (r.stream ≡ none)

abbrev pub handle : Option ℕ → ℕ
handle none = 0
handle (some p) = p

module _ (u : Uvg) (local remote : String × ℕ) (log : Log) where
  pub create_sender-IsOpen :
      {r : Rtp} {log' : Log}
      → create_sender u local remote log ≡ (ok r, log')
      → (session : ℕ) × (stream : ℕ) × IsOpen r session stream
  unfolding create_sender create_session init_rtp create_stream fresh
  create_sender-IsOpen {r} e = (handle r.session, handle r.stream, ground arith)

  pub create_receiver-IsOpen :
      (cb : Callback) {r : Rtp} {log' : Log}
      → create_receiver u local remote cb log ≡ (ok r, log')
      → (session : ℕ) × (stream : ℕ) × IsOpen r session stream
  unfolding create_receiver create_session init_rtp create_stream fresh install_receive_hook
  create_receiver-IsOpen cb {r} e = (handle r.session, handle r.stream, ground arith)

-- `is_initialised` tells the two apart.
pub is_initialised-IsOpen : (r : Rtp) (s t : ℕ) → IsOpen r s t → is_initialised r ≡ true
unfolding is_initialised
is_initialised-IsOpen r s t o = ground arith

pub is_initialised-IsClosed : (r : Rtp) → IsClosed r → is_initialised r ≡ false
unfolding is_initialised
is_initialised-IsClosed r c = ground arith

-- The frames that are written before the first `stop`, newest first, on top of a log.
unfoldable pub written : ℕ → List Call → Log → Log
written stream [] log = log
written stream (writes bytes ∷ cs) log = written stream cs (frame_pushed stream bytes ∷ log)
written stream (stops ∷ cs) log = log

run_closed : (r : Rtp) (log : Log) (cs : List Call) → IsClosed r → run (r, log) cs ≡ (r, log)
unfolding run step stop write_frames
run_closed r log [] c = refl
run_closed r log (writes bytes ∷ cs) c = ground (arith, run_closed r log cs c)
run_closed r log (stops ∷ cs) c = ground (arith, run_closed r log cs c)

pub stop_open :
    (r : Rtp) (log : Log) (s t : ℕ)
    → IsOpen r s t
    → IsClosed (stop r log).0 × ((stop r log).1 ≡ session_destroyed s ∷ stream_destroyed s t ∷ log)
unfolding stop
stop_open r log s t o = ground arith

pub stop_closed : (r : Rtp) (log : Log) → IsClosed r → stop r log ≡ (r, log)
unfolding stop
stop_closed r log c = ground arith

pub write_frames_open :
    (r : Rtp) (log : Log) (s t : ℕ) (bytes : List ℕ)
    → IsOpen r s t
    → write_frames r bytes log ≡ frame_pushed t bytes ∷ log
unfolding write_frames
write_frames_open r log s t bytes o = ground arith

-- Whatever calls an open object takes, and in whatever order its threads get the mutex: once the
-- destructor has run it is closed, the frames written before the first `stop` were pushed in order and
-- no later ones, and then the stream and the session were destroyed, once each and in this order.
pub run_open :
    (r : Rtp) (log : Log) (s t : ℕ) (cs : List Call)
    → IsOpen r s t
    → let (r', log') = run (r, log) cs in
      let (q, final) = stop r' log' in
      IsClosed q × (final ≡ session_destroyed s ∷ stream_destroyed s t ∷ written t cs log)
unfolding run step written
run_open r log s t [] o = stop_open r log s t o
run_open r log s t (writes bytes ∷ cs) o =
    rw (run, write_frames_open r log s t bytes o) (run_open r (frame_pushed t bytes ∷ log) s t cs o)
run_open r log s t (stops ∷ cs) o =
    let (c, e) = stop_open r log s t o in
    let q = stop r log in rw (run_closed q.0 q.1 cs c, stop_closed q.0 q.1 c) (c, e)
