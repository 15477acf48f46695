-- ===== src/Main/Program/Handles.antt =====
-- That the whole program gives uvgRTP no pointer that is not alive (src/main.cpp).
use audpipe_cpp.Prelude.{if_both, ℕ, String, List, [], Result, ok, err}
use audpipe_cpp.Rtp.Library.{Log}
use audpipe_cpp.Rtp.Handles.{IsSafe}
use audpipe_cpp.Config
use audpipe_cpp.Config.{Config, Mode, ConnectionPolicy, client, server}
use audpipe_cpp.Keys.Manager
use audpipe_cpp.Keys.Manager.{Disk, key_manager, load_or_create}
use audpipe_cpp.Backend.{Backend}
use audpipe_cpp.Backend.Context
use audpipe_cpp.Backend.Devices.{get_inputs}
use audpipe_cpp.Client.Connect
use audpipe_cpp.Client.Connect.{World, Outcome}
use audpipe_cpp.Client.Connect.Handles.{create-ClientLeaves}
use audpipe_cpp.Main.{Exit, Command, usage, help, start, read_arguments}
use audpipe_cpp.Main.ClientRun
use audpipe_cpp.Main.ServerRun
use audpipe_cpp.Main.Program.{
  Machine, Script, config_path, exit_log, run_mode, after_context, after_keys, after_config,
  run_command, main,
}
use audpipe_cpp.Main.ClientRun.Handles.{client-IsSafe}
use audpipe_cpp.Main.ServerRun.Handles.{listing-IsSafe}

module _ (machine : Machine) (script : Script machine) (disk : Disk) (log : Log)
    (safe : IsSafe log) where
  run_mode-IsSafe :
      (mode : Mode) (cfg : Config) (backend : Backend)
      → IsSafe (run_mode machine script mode cfg backend log).1
  unfolding run_mode ClientRun.run_client ServerRun.run_server
  run_mode-IsSafe client cfg backend =
      let local : String × ℕ = (cfg.local_ip, cfg.local_port) in
      let remote : String × ℕ = (cfg.remote_ip, cfg.remote_port) in
      let w : World = record { backend = backend; log = log; reads = 0 } in
      let met = script.client_script in
      client-IsSafe machine.decoder met
        (Connect.create met.connecting machine.uvg local remote script.hook met.decoder_created
          cfg.connection w)
        (create-ClientLeaves met.connecting machine.uvg local remote script.hook met.decoder_created
          cfg.connection w safe)
  run_mode-IsSafe server cfg backend =
      if_both (λ (r : Exit × Log). IsSafe r.1) script.server_script.listing_ends
        (listing-IsSafe machine.encoder machine.uvg (cfg.local_ip, cfg.local_port)
          (cfg.remote_ip, cfg.remote_port) script.server_script backend log safe
          (get_inputs script.server_script.devices))
        safe

  context-IsSafe :
      (mode : Mode) (cfg : Config) (made : Context.Ending × Backend × List Context.Event)
      → IsSafe (after_context machine script mode cfg log made).1
  unfolding after_context
  context-IsSafe mode cfg (Context.returned, backend, events) = run_mode-IsSafe mode cfg backend
  context-IsSafe mode cfg (Context.threw, backend, events) = safe
  context-IsSafe mode cfg (Context.waiting, backend, events) = safe

  keys-IsSafe :
      (mode : Mode) (cfg : Config)
      (loaded : Result Manager.Error (Unit {0}) × Manager.State machine.crypto)
      → IsSafe (exit_log (after_keys machine script mode cfg log loaded)).1
  unfolding after_keys
  keys-IsSafe mode cfg (err e, s) = safe
  keys-IsSafe mode cfg (ok tt, s) = context-IsSafe mode cfg (Context.create script.context [])

  config-IsSafe :
      (mode : Mode) (read : Result Config.Error Config)
      → IsSafe (exit_log (after_config machine script mode (disk, log) read)).1
  unfolding after_config
  config-IsSafe mode (err e) = safe
  config-IsSafe mode (ok cfg) =
      keys-IsSafe mode cfg
        (load_or_create machine.crypto script.key (disk, key_manager machine.crypto))

  command-IsSafe :
      (command : Command) → IsSafe (exit_log (run_command machine script command (disk, log))).1
  unfolding run_command
  command-IsSafe usage = safe
  command-IsSafe help = safe
  command-IsSafe (start mode) =
      config-IsSafe mode (Config.create machine.host machine.toml config_path mode)

  -- Whatever the arguments are and whatever the program meets, as a client, as a server or neither, and
  -- however it ends: it calls uvgRTP only on sessions and streams that are alive, and so it uses none
  -- after its destruction and destroys none twice.
  pub main-IsSafe :
      (arguments : List String) → IsSafe (exit_log (main machine script arguments (disk, log))).1
  unfolding main
  main-IsSafe arguments = command-IsSafe (read_arguments arguments)
