-- ===== src/Client/State/Errors.antt =====
-- Errors and shutdown of the client (src/client.cpp).
use audpipe_cpp.Prelude.{
  ℕ, true, false, some, List, [], ◌∷◌, ◌≡◌, refl, ap, ◌∙◌, not, if_split, inr, arith,
}
use audpipe_cpp.Rtp
use audpipe_cpp.Rtp.{Rtp}
use audpipe_cpp.Rtp.Library.{Log, session_destroyed, stream_destroyed}
use audpipe_cpp.Rtp.Lifecycle.{IsOpen, IsClosed, stop_open}
use audpipe_cpp.Backend.{Backend, stop_recording}
use audpipe_cpp.Client.State.{Client, Failure, IsConsistent, set_error, request_shutdown}

pub set_error-IsConsistent :
    (f : Failure) (c : Client) (b : Backend) → IsConsistent c → IsConsistent (set_error f (c, b)).0
unfolding set_error
set_error-IsConsistent f c b v =
    if_split (λ (s : Client × Backend). IsConsistent s.0) (not c.healthy) (λ old. v)
      (λ first. record { error = inr (f, refl, refl, refl) })

-- A run of errors, the first one first.
pub set_errors : List Failure → Client × Backend → Client × Backend
set_errors [] s = s
set_errors (f ∷ fs) s = set_errors fs (set_error f s)

set_errors_failed :
    (fs : List Failure) (s : Client × Backend) → s.0.healthy ≡ false → set_errors fs s ≡ s
unfolding set_errors set_error
set_errors_failed [] s h = refl
set_errors_failed (f ∷ fs) s h = ground (arith, set_errors_failed fs s h)

-- Of the errors that reach a healthy client only the first counts: it is the one reported, it marks
-- the client unhealthy and stopping and stops the audio backend, and the later ones change nothing.
first_error_wins :
    (f : Failure) (fs : List Failure) (c : Client) (b : Backend)
    → c.healthy ≡ true
    → set_errors (f ∷ fs) (c, b)
      ≡ (record c { healthy = false; last_error = some f; should_stop = true }, stop_recording b)
unfolding set_errors set_error
first_error_wins f fs c b h = ap (set_errors fs) first ∙ set_errors_failed fs _ refl
  where
    first :
        set_error f (c, b)
        ≡ (record c { healthy = false; last_error = some f; should_stop = true }, stop_recording b)
    first = ground arith

-- `request_shutdown` on a connected client: it stops, its RTP object is closed, the stream and then
-- the session are destroyed, and the audio backend neither records nor plays.
request_shutdown_closes :
    (c : Client) (b : Backend) (log : Log) (r : Rtp) (s t : ℕ)
    → c.rtp ≡ some r
    → IsOpen r s t
    → let (c', b', log') = request_shutdown (c, b, log) in
      (c'.should_stop ≡ true)
      × (c'.rtp ≡ some (Rtp.stop r log).0)
      × IsClosed (Rtp.stop r log).0
      × (log' ≡ session_destroyed s ∷ stream_destroyed s t ∷ log)
      × (b'.recording ≡ false)
      × (b'.playback ≡ false)
unfolding request_shutdown stop_recording
request_shutdown_closes c b log r s t e o = ground (arith, stop_open r log s t o)
