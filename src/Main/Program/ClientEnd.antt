-- ===== src/Main/Program/ClientEnd.antt =====
-- How the whole program ends, as a client (src/main.cpp).
use audpipe_cpp.Prelude.{
  ℕ, zero, suc, ◌≤◌, ◌≡◌, ◌≢◌, refl, ◌⊎◌, String, true, false, none, List, [], ◌∷◌, Result, ok, err,
}
use audpipe_cpp.Rtp.Library.{Log, stream_destroyed, session_destroyed}
use audpipe_cpp.Config
use audpipe_cpp.Config.{Config, ConnectionPolicy, client}
use audpipe_cpp.Config.Ports.{create-IsValid}
use audpipe_cpp.Keys.Manager
use audpipe_cpp.Keys.Manager.{Disk, key_manager, load_or_create}
use audpipe_cpp.Backend.{Backend}
use audpipe_cpp.Backend.Context
use audpipe_cpp.Client.Connect
use audpipe_cpp.Client.Connect.{World}
use audpipe_cpp.Main.{Exit, exited, aborted, crashed, waiting, read_arguments}
use audpipe_cpp.Main.ClientRun.Ending.{IsOver, IsAnswered, run_client-IsOver}
use audpipe_cpp.Main.ClientRun.{run_client}
use audpipe_cpp.Main.Program.{
  Machine, Script, config_path, exit_log, run_mode, after_context, after_keys, after_config,
  run_command, main,
}

module _ (machine : Machine) (script : Script machine) (disk : Disk) (log : Log) where
  -- How a client ends: with 0 behind the destruction of its stream and its session, with 1, or by
  -- `assert`.
  abbrev pub IsEnded : Exit × Log → Type 0
  IsEnded (exited zero, log') =
      (s : ℕ) × (t : ℕ) × (before : Log) × (log'
        ≡ session_destroyed s ∷ stream_destroyed s t ∷ before)
  IsEnded (exited (suc n), log') = n ≡ 0
  IsEnded (aborted, log') = (machine.uvg.crypto_enabled ≡ false) ⊎ (script.hook.hook ≡ none)
  IsEnded (crashed, log') = ⊥
  IsEnded (waiting, log') = ⊥

  abbrev at_start : Backend → World
  at_start backend = record { backend = backend; log = log; reads = 0 }

  -- Wherever the client comes to its loop, the loop is told to end, and the work of the thread of its
  -- virtual input is over some time.
  abbrev pub IsStopped : Config → Type 0
  IsStopped cfg =
      (backend : Backend)
      → IsAnswered machine.decoder machine.uvg (cfg.local_ip, cfg.local_port)
          (cfg.remote_ip, cfg.remote_port) script.hook script.client_script cfg.connection
          (at_start backend)
          (Connect.create script.client_script.connecting machine.uvg (cfg.local_ip, cfg.local_port)
            (cfg.remote_ip, cfg.remote_port) script.hook true cfg.connection (at_start backend))

  IsOver-IsEnded :
      (local remote : String × ℕ) (pol : ConnectionPolicy) (w : World) (ended : Exit × Log)
      → IsOver machine.decoder machine.uvg local remote script.hook script.client_script pol w ended
      → IsEnded ended
  IsOver-IsEnded local remote pol w (exited zero, log') (s, t, before, ends, enough) =
      (s, t, before, ends)
  IsOver-IsEnded local remote pol w (exited (suc n), log') (one, why) = one
  IsOver-IsEnded local remote pol w (aborted, log') why = why
  IsOver-IsEnded local remote pol w (crashed, log') never = never
  IsOver-IsEnded local remote pol w (waiting, log') never = never

  module _ (decoder : script.client_script.decoder_created ≡ true) where
    client_context-IsEnded :
        (cfg : Config) (made : Context.Ending × Backend × List Context.Event)
        → made.0 ≢ Context.waiting
        → 1 ≤ cfg.connection.max_retries
        → IsStopped cfg
        → IsEnded (after_context machine script client cfg log made)
    unfolding after_context run_mode
    client_context-IsEnded cfg (Context.returned, backend, events) settles some_retry told =
        let local : String × ℕ = (cfg.local_ip, cfg.local_port) in
        let remote : String × ℕ = (cfg.remote_ip, cfg.remote_port) in
        IsOver-IsEnded local remote cfg.connection (at_start backend)
          (run_client machine.decoder machine.uvg local remote script.hook script.client_script
            cfg.connection (at_start backend))
          (run_client-IsOver machine.decoder machine.uvg local remote script.hook
            script.client_script cfg.connection (at_start backend) some_retry decoder
            (told backend))
    client_context-IsEnded cfg (Context.threw, backend, events) settles some_retry told = refl
    client_context-IsEnded cfg (Context.waiting, backend, events) settles some_retry told =
        settles refl

    client_keys-IsEnded :
        (cfg : Config) (loaded : Result Manager.Error (Unit {0}) × Manager.State machine.crypto)
        → (Context.create script.context []).0 ≢ Context.waiting
        → 1 ≤ cfg.connection.max_retries
        → IsStopped cfg
        → IsEnded (exit_log (after_keys machine script client cfg log loaded))
    unfolding after_keys
    client_keys-IsEnded cfg (err e, s) settles some_retry told = refl
    client_keys-IsEnded cfg (ok tt, s) settles some_retry told =
        client_context-IsEnded cfg (Context.create script.context []) settles some_retry told

    client_config-IsEnded :
        (read : Result Config.Error Config)
        → Config.create machine.host machine.toml config_path client ≡ read
        → (Context.create script.context []).0 ≢ Context.waiting
        → ((cfg : Config) → read ≡ ok cfg → IsStopped cfg)
        → IsEnded (exit_log (after_config machine script client (disk, log) read))
    unfolding after_config
    client_config-IsEnded (err e) same settles told = refl
    client_config-IsEnded (ok cfg) same settles told =
        client_keys-IsEnded cfg
          (load_or_create machine.crypto script.key (disk, key_manager machine.crypto)) settles
          (create-IsValid machine.host machine.toml config_path client same).connection.some_retry
          (told cfg refl)

    -- The whole program as a client ends, when the audio context settles, the decoder is created and, for
    -- the configuration that is read, wherever the loop of the client is reached, it is told to end and
    -- the thread of the virtual input comes to its end: it does not wait on. With
    -- status 0, the last that it did to uvgRTP was to destroy its stream and then its session.
    pub main_client-IsEnded :
        (rest : List String)
        → (Context.create script.context []).0 ≢ Context.waiting
        → ((cfg : Config)
            → Config.create machine.host machine.toml config_path client ≡ ok cfg
            → IsStopped cfg)
        → IsEnded (exit_log (main machine script ("client" ∷ rest) (disk, log)))
    unfolding main run_command read_arguments
    main_client-IsEnded rest settles told =
        client_config-IsEnded (Config.create machine.host machine.toml config_path client) refl
          settles told
