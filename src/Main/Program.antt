-- ===== src/Main/Program.antt =====
-- The whole of `main` (src/main.cpp).
-- The disk is the directory of the configuration file, where the keys are; the log is what uvgRTP is
-- asked. The audio backend is a static object, which is destroyed after `main`.
pub mod Usage
pub mod Handles
pub mod Keys
pub mod ServerEnd
pub mod ServerStop
pub mod ClientEnd
use audpipe_cpp.Prelude.{ℕ, String, Option, List, [], ◌∷◌, Result, ok, err}
use audpipe_cpp.Rtp.{Callback}
use audpipe_cpp.Rtp.Library.{Uvg, Log}
use audpipe_cpp.Config
use audpipe_cpp.Config.{Mode, client, server, Config}
use audpipe_cpp.Config.Environment.{Host, Toml, FilePath}
use audpipe_cpp.Keys.Crypto.{Crypto}
use audpipe_cpp.Keys.Manager
use audpipe_cpp.Keys.Manager.{Disk, key_manager, load_or_create}
use audpipe_cpp.Backend.{Backend}
use audpipe_cpp.Backend.Context
use audpipe_cpp.Backend.Context.{ContextState}
use audpipe_cpp.Client.Playback
use audpipe_cpp.Server.Encode
use audpipe_cpp.Main.{Exit, exited, waiting, Command, usage, help, start, read_arguments}
use audpipe_cpp.Main.ClientRun
use audpipe_cpp.Main.ClientRun.{run_client}
use audpipe_cpp.Main.ServerRun
use audpipe_cpp.Main.ServerRun.{run_server}

-- The libraries and the operating system.
pub record Machine : Type 1 where
  pub host : Host
  pub toml : Toml
  pub crypto : Crypto
  pub uvg : Uvg
  pub encoder : Encode.Opus
  pub decoder : Playback.Opus

-- What a run meets: the random key, the states of the audio context, the address of the client's
-- callback, and what meets the client or the server.
pub record Script (machine : Machine) : Type 0 where
  pub key : machine.crypto.PrivateKey
  pub context : List (List ContextState)
  pub hook : Callback
  pub client_script : ClientRun.Script machine.decoder
  pub server_script : ServerRun.Script machine.encoder

abbrev pub config_path : FilePath
config_path = "." ∷ "audpipe.toml" ∷ []

module _ (machine : Machine) (script : Script machine) where
  open machine use {host, toml, crypto, uvg, encoder, decoder}

  -- The client or the server, once there is an audio backend.
  unfoldable pub run_mode : Mode → Config → Backend → Log → Exit × Log
  run_mode client cfg backend log =
      run_client decoder uvg (cfg.local_ip, cfg.local_port) (cfg.remote_ip, cfg.remote_port)
        script.hook script.client_script cfg.connection
        (record { backend = backend; log = log; reads = 0 })
  run_mode server cfg backend log =
      run_server encoder uvg (cfg.local_ip, cfg.local_port) (cfg.remote_ip, cfg.remote_port)
        script.server_script backend log

  -- `AudioBackend::instance()`, the first time. (A client makes its decoder before; if there is no
  -- decoder, the error that it sets asks for the audio backend.)
  unfoldable pub after_context :
      Mode → Config → Log → Context.Ending × Backend × List Context.Event → Exit × Log
  after_context mode cfg log (Context.returned, backend, events) = run_mode mode cfg backend log
  after_context mode cfg log (Context.threw, backend, events) = (exited 1, log)
  after_context mode cfg log (Context.waiting, backend, events) = (waiting, log)

  unfoldable pub after_keys :
      Mode
      → Config
      → Log
      → Result Manager.Error (Unit {0}) × Manager.State crypto
      → Exit × Disk × Log
  after_keys mode cfg log (err e, s) = (exited 1, Manager.destroy crypto s, log)
  after_keys mode cfg log (ok tt, s) =
      let (exit, log') = after_context mode cfg log (Context.create script.context []) in
      (exit, Manager.destroy crypto s, log')

  unfoldable pub after_config : Mode → Disk × Log → Result Config.Error Config → Exit × Disk × Log
  after_config mode (disk, log) (err e) = (exited 1, disk, log)
  after_config mode (disk, log) (ok cfg) =
      after_keys mode cfg log (load_or_create crypto script.key (disk, key_manager crypto))

  unfoldable pub run_command : Command → Disk × Log → Exit × Disk × Log
  run_command usage (disk, log) = (exited 1, disk, log)
  run_command help (disk, log) = (exited 0, disk, log)
  run_command (start mode) (disk, log) =
      after_config mode (disk, log) (Config.create host toml config_path mode)

  -- `main`
  unfoldable pub main : List String → Disk × Log → Exit × Disk × Log
  main arguments state = run_command (read_arguments arguments) state

abbrev pub exit_log : Exit × Disk × Log → Exit × Log
exit_log (exit, disk, log) = (exit, log)
