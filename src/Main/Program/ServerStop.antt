-- ===== src/Main/Program/ServerStop.antt =====
-- That the whole program ends as a server (src/main.cpp).
use audpipe_cpp.Prelude.{String, true, none, ◌≡◌, ◌≢◌, refl, List, [], ◌∷◌, Result, ok, err}
use audpipe_cpp.Rtp.Library.{Log}
use audpipe_cpp.Config
use audpipe_cpp.Config.{Config, server}
use audpipe_cpp.Keys.Manager
use audpipe_cpp.Keys.Manager.{Disk, key_manager, load_or_create}
use audpipe_cpp.Backend.{Backend}
use audpipe_cpp.Backend.Context
use audpipe_cpp.Backend.Recording.Ends.{IsStopped, Settles}
use audpipe_cpp.Main.{waiting, read_arguments}
use audpipe_cpp.Main.ServerRun.Ends.{run_server-IsDone}
use audpipe_cpp.Main.Program.{
  Machine, Script, config_path, run_mode, after_context, after_keys, after_config, run_command,
  main,
}

module _ (machine : Machine) (script : Script machine) (disk : Disk) (log : Log)
    (settles : Settles script.server_script.recording.states)
    (stops : IsStopped script.server_script.recording.turns)
    (listing : script.server_script.listing_ends ≡ true) (typed : script.server_script.line ≢ none)
    (context : (Context.create script.context []).0 ≢ Context.waiting) where
  server_context-ends :
      (cfg : Config) (made : Context.Ending × Backend × List Context.Event)
      → made.0 ≢ Context.waiting
      → (after_context machine script server cfg log made).0 ≢ waiting
  unfolding after_context run_mode
  server_context-ends cfg (Context.returned, backend, events) over =
      run_server-IsDone machine.encoder script.server_script settles stops listing typed machine.uvg
        (cfg.local_ip, cfg.local_port) (cfg.remote_ip, cfg.remote_port) backend log
  server_context-ends cfg (Context.threw, backend, events) over = λ h. cc
  server_context-ends cfg (Context.waiting, backend, events) over = absurd (over refl)

  server_keys-ends :
      (cfg : Config) (loaded : Result Manager.Error (Unit {0}) × Manager.State machine.crypto)
      → (after_keys machine script server cfg log loaded).0 ≢ waiting
  unfolding after_keys
  server_keys-ends cfg (err e, s) = λ h. cc
  server_keys-ends cfg (ok tt, s) =
      server_context-ends cfg (Context.create script.context []) context

  server_config-ends :
      (read : Result Config.Error Config)
      → (after_config machine script server (disk, log) read).0 ≢ waiting
  unfolding after_config
  server_config-ends (err e) = λ h. cc
  server_config-ends (ok cfg) =
      server_keys-ends cfg
        (load_or_create machine.crypto script.key (disk, key_manager machine.crypto))

  -- The whole program as a server does not wait on, when the audio context settles, the listing of the
  -- devices ends, a line is typed, a stream becomes ready or fails, and the recording is stopped by another thread or by a shutdown.
  pub main_server-ends :
      (rest : List String) → (main machine script ("server" ∷ rest) (disk, log)).0 ≢ waiting
  unfolding main run_command read_arguments
  main_server-ends rest =
      server_config-ends (Config.create machine.host machine.toml config_path server)
