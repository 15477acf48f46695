-- ===== src/Server/Object/Handles.antt =====
-- The pointers that a server gives to uvgRTP (src/server.cpp).
use audpipe_cpp.Prelude.{ℕ, String, sym, subst, Option, none, some, List, Result, ok, err}
use audpipe_cpp.Audio.{AudioDevice}
use audpipe_cpp.Backend.{Backend}
use audpipe_cpp.Rtp
use audpipe_cpp.Rtp.{Rtp, create_sender, run}
use audpipe_cpp.Rtp.Library.{Uvg, Log}
use audpipe_cpp.Rtp.Handles.{IsSafe, IsUsable, IsUsable-IsSafe, Leaves, run-IsUsable, stop-IsUsable}
use audpipe_cpp.Rtp.Handles.Opening.{create_sender-Leaves}
use audpipe_cpp.Server.Encode.{Opus}
use audpipe_cpp.Server.Object.{
  Server, Failure, set_up, after_sender, create, stop, destroy, capture_all,
}
use audpipe_cpp.Server.Object.Lifetime.{capture_all-run}

module _ (lib : Opus) where
  -- What the constructor of a server leaves.
  abbrev pub ServerLeaves : Result Failure (Server lib) × Log → Type 0
  ServerLeaves (err e, log) = IsSafe log
  ServerLeaves (ok s, log) = IsUsable s.rtp log

  after_sender-ServerLeaves :
      (device : AudioDevice) (encoder : Option lib.Encoder) (made : Result Rtp.Error Rtp × Log)
      → Leaves made
      → ServerLeaves (after_sender lib device encoder made)
  unfolding set_up
  after_sender-ServerLeaves device encoder (err e, log) safe = safe
  after_sender-ServerLeaves device none (ok rtp, log) v =
      let (r, log') = Rtp.stop rtp log in IsUsable-IsSafe r log' (stop-IsUsable rtp log v)
  after_sender-ServerLeaves device (some opusenc) (ok rtp, log) v = v

  pub create-ServerLeaves :
      (u : Uvg) (encoder : Option lib.Encoder) (local remote : String × ℕ) (device : AudioDevice)
      (log : Log)
      → IsSafe log
      → ServerLeaves (create lib u encoder local remote device log)
  unfolding create
  create-ServerLeaves u encoder local remote device log safe =
      after_sender-ServerLeaves device encoder (create_sender u local remote log)
        (create_sender-Leaves u local remote log safe)

  -- The frames that a server writes, and its end.
  pub capture_all-IsUsable :
      (s : Server lib) (log : Log) (fragments : List (Option (List ℕ)))
      → IsUsable s.rtp log
      → let (thrown, served, log') = capture_all lib (s, log) fragments in IsUsable served.rtp log'
  capture_all-IsUsable s log fragments v =
      let (cs, (same, wrote)) = capture_all-run lib s log fragments in
      let log' = (capture_all lib (s, log) fragments).2 in
      subst (λ rtp. IsUsable rtp log') (sym same)
        (subst (λ (end : Rtp × Log). IsUsable end.0 end.1) wrote (run-IsUsable s.rtp log cs v))

  pub stop-IsUsable_server :
      (s : Server lib) (b : Backend) (log : Log)
      → IsUsable s.rtp log
      → let (s', b', log') = stop lib (s, b, log) in IsUsable s'.rtp log'
  unfolding stop
  stop-IsUsable_server s b log v = stop-IsUsable s.rtp log v

  pub destroy-IsSafe :
      (s : Server lib) (b : Backend) (log : Log)
      → IsUsable s.rtp log
      → IsSafe (destroy lib (s, b, log)).1
  unfolding destroy stop
  destroy-IsSafe s b log v =
      let (r, log') = Rtp.stop s.rtp log in
      let (r', log'') = Rtp.stop r log' in
      IsUsable-IsSafe r' log'' (stop-IsUsable r log' (stop-IsUsable s.rtp log v))
