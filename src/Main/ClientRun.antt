-- ===== src/Main/ClientRun.antt =====
-- The client's part of `main` (src/main.cpp).
pub mod Ending
pub mod Handles
pub mod Leaks
use audpipe_cpp.Prelude.{ℕ, String, Bool, true, false, not, ◌||◌, if◌then◌else◌, List, [], ◌∷◌}
use audpipe_cpp.Config.{ConnectionPolicy}
use audpipe_cpp.Rtp.{Callback}
use audpipe_cpp.Rtp.Library.{Uvg, Log}
use audpipe_cpp.Client.State.{Client, is_healthy, request_shutdown}
use audpipe_cpp.Client.Playback.{Opus, fresh_decbuf}
use audpipe_cpp.Client.Connect
use audpipe_cpp.Client.Connect.{World, Outcome}
use audpipe_cpp.Backend.VirtualInput
use audpipe_cpp.Backend.WriteLoop
use audpipe_cpp.Backend.CreateInput.{create_virtual_input}
use audpipe_cpp.Client.Life
use audpipe_cpp.Client.Life.{Living, Happening, happen_all}
use audpipe_cpp.Main.{Exit, exited, aborted, crashed, waiting}

module _ (lib : Opus) where
  -- One turn of the loop: the shutdown flag as it is read, and what happens while it sleeps.
  pub record Turn : Type 0 where
    pub shutdown : Bool
    pub happenings : List (Happening lib)

  -- `while (!is_shutdown_requested() && client.is_healthy())`: whether it ended, and the client then.
  unfoldable pub wait_loop : List Turn → Living lib → Bool × Living lib
  wait_loop [] l = (not (is_healthy l.client), l)
  wait_loop (t ∷ rest) l =
      let later = wait_loop rest (happen_all lib t.happenings l) in
      if t.shutdown || not (is_healthy l.client) then (true, l) else later

  abbrev pub exit_with : Bool × Log → Exit × Log
  exit_with (true, log) = (exited 0, log)
  exit_with (false, log) = (waiting, log)

  -- `client.request_shutdown()`, and then the destructor, which joins the thread of the virtual input.
  unfoldable pub shut_down : VirtualInput.Ending → Living lib → Log → Exit × Log
  shut_down input l log =
      let (c, b, log') = request_shutdown (l.client, l.backend, log) in
      exit_with (Life.destroy input c log')

  -- What a client that was constructed meets: its decoder, the turns, and what its virtual input meets on
  -- the thread that the constructor starts.
  pub record Script : Type 0 where
    pub connecting : ℕ → Bool
    pub decoder_created : Bool
    pub opusdec : lib.Decoder
    pub turns : List Turn
    pub input_host : VirtualInput.Host
    pub input_turns : List WriteLoop.Turn

  -- How the work of that thread ends.
  abbrev pub input_ending : Script → World → VirtualInput.Ending
  input_ending script w =
      (create_virtual_input script.input_host script.input_turns (w.backend, [], [])).0

  abbrev pub end_loop : VirtualInput.Ending → Bool × Living lib → Log → Exit × Log
  end_loop input (false, l) log = (waiting, log)
  end_loop input (true, l) log = shut_down input l log

  -- What follows the constructor: an exception is caught and the program exits with 1.
  unfoldable pub after_construction : Script → Outcome → Exit × Log
  after_construction script (Connect.threw failure w) = (exited 1, w.log)
  after_construction script (Connect.aborted w) = (aborted, w.log)
  after_construction script (Connect.constructed c w) =
      end_loop (input_ending script w)
        (wait_loop script.turns (record {
          client = c;
          backend = w.backend;
          opusdec = script.opusdec;
          pcm_decbuf = fresh_decbuf;
        }))
        w.log

  unfoldable pub run_client :
      Uvg → (local remote : String × ℕ) → Callback → Script → ConnectionPolicy → World → Exit × Log
  run_client u local remote cb script conn_pol w =
      after_construction script
        (Connect.create script.connecting u local remote cb script.decoder_created conn_pol w)
