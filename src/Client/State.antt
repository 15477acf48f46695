-- ===== src/Client/State.antt =====
-- The members of `Client` (include/client.hxx), and its error and shutdown handling (src/client.cpp).
pub mod Errors
use audpipe_cpp.Prelude.{
  ℕ, Bool, true, false, not, if◌then◌else◌, Option, none, some, List, [], ◌≡◌, ◌⊎◌, inl, inr, refl,
  arith,
}
use audpipe_cpp.Config.{ConnectionPolicy}
use audpipe_cpp.Rtp.{Rtp}
use audpipe_cpp.Rtp.Library.{Log}
use audpipe_cpp.Rtp
use audpipe_cpp.Backend.{Backend, stop_recording}

-- What `last_error` reports.
pub data Failure : Type 0 where
  decoder_failed shutdown_during_backoff virtual_input_failed : Failure
  rtp_failed : ℕ → Failure

-- The queues hold bytes and compressed payloads, oldest first; `last_error` is `none` while empty.
pub record Client : Type 0 where
  pub conn_pol : ConnectionPolicy
  pub rtp : Option Rtp
  pub should_stop : Bool
  pub healthy : Bool
  pub frames_received : ℕ
  pub last_error : Option Failure
  pub playback_queue : List ℕ
  pub compressed_queue : List (List ℕ)

-- The member initialisers.
abbrev pub fresh : ConnectionPolicy → Client
fresh conn_pol = record {
  conn_pol = conn_pol;
  rtp = none;
  should_stop = false;
  healthy = true;
  frames_received = 0;
  last_error = none;
  playback_queue = [];
  compressed_queue = [];
}

-- `Client::set_error`: only the first error is kept.
unfoldable pub set_error : Failure → Client × Backend → Client × Backend
set_error failure (c, b) = if not c.healthy then (c, b) else (
  record c { healthy = false; last_error = some failure; should_stop = true },
  stop_recording b,
)

unfoldable pub is_healthy : Client → Bool
is_healthy c = c.healthy

-- `Rtp::stop` on the optional member.
abbrev pub stop_rtp : Option Rtp → Log → Option Rtp × Log
stop_rtp none log = (none, log)
stop_rtp (some r) log = let (r', log') = Rtp.stop r log in (some r', log')

-- `Client::request_shutdown`
unfoldable pub request_shutdown : Client × Backend × Log → Client × Backend × Log
request_shutdown (c, b, log) =
    let (rtp, log') = stop_rtp c.rtp log in
    (record c { should_stop = true; rtp = rtp }, stop_recording b, log')

unfoldable pub get_frames_received : Client → ℕ
get_frames_received c = c.frames_received

unfoldable pub get_rtp : Client → Option Rtp
get_rtp c = c.rtp

-- `call_virtual_input_setup`: an exception of the virtual input becomes the client's error.
unfoldable pub call_virtual_input_setup : Bool → Client × Backend → Client × Backend
unfolding set_error
call_virtual_input_setup threw s = if threw then set_error virtual_input_failed s else s

-- An unhealthy client has an error and is stopping; a healthy one has none.
pub record IsConsistent (c : Client) : Type 0 where
  pub error :
      ((c.healthy ≡ true) × (c.last_error ≡ none))
      ⊎ ((f : Failure) × (c.healthy ≡ false) × (c.last_error ≡ some f) × (c.should_stop ≡ true))
