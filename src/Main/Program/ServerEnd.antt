-- ===== src/Main/Program/ServerEnd.antt =====
-- How the whole program ends, as a server (src/main.cpp).
use audpipe_cpp.Prelude.{
  ℕ, zero, suc, ◌+◌, ◌≡◌, refl, ◌⊎◌, inl, inr, String, false, List, [], ◌∷◌, Result, ok, err, arith,
}
use audpipe_cpp.Rtp.Library.{Log}
use audpipe_cpp.Rtp.Sessions.{sessions}
use audpipe_cpp.Rtp.Tries.{create_sender-assertion}
use audpipe_cpp.Config
use audpipe_cpp.Config.{Config, client, server}
use audpipe_cpp.Keys.Manager
use audpipe_cpp.Keys.Manager.{Disk, key_manager, load_or_create}
use audpipe_cpp.Backend.{Backend}
use audpipe_cpp.Backend.Context
use audpipe_cpp.Main.{Exit, exited, aborted, crashed, waiting, read_arguments}
use audpipe_cpp.Main.ServerRun.{run_server}
use audpipe_cpp.Main.ServerRun.Balanced.{IsBalanced, run_server-IsBalanced}
use audpipe_cpp.Main.Program.{
  Machine, Script, config_path, exit_log, run_mode, after_context, after_keys, after_config,
  run_command, main,
}

module _ (machine : Machine) (script : Script machine) (disk : Disk) (log : Log) where
  -- What a server that ends leaves.
  abbrev pub IsClean : Exit × Log → Type 0
  IsClean (exited zero, log') = sessions log' ≡ sessions log
  IsClean (exited (suc n), log') =
      (n ≡ 0) × ((sessions log' ≡ sessions log) ⊎ (sessions log' ≡ sessions log + 1))
  IsClean (crashed, log') = log' ≡ log
  IsClean (aborted, log') = machine.uvg.crypto_enabled ≡ false
  IsClean (waiting, log') = Unit

  IsBalanced-IsClean :
      (local remote : String × ℕ) (ended : Exit × Log)
      → IsBalanced machine.encoder machine.uvg local remote log ended
      → IsClean ended
  IsBalanced-IsClean local remote (exited zero, log') (small, inl balanced) = balanced
  IsBalanced-IsClean local remote (exited zero, log') (small, inr (one, failed, leaked)) =
      ground arith
  IsBalanced-IsClean local remote (exited (suc n), log') (small, inl balanced) =
      (omega arith, inl balanced)
  IsBalanced-IsClean local remote (exited (suc n), log') (small, inr (one, failed, leaked)) =
      (omega arith, inr leaked)
  IsBalanced-IsClean local remote (crashed, log') same = same
  IsBalanced-IsClean local remote (aborted, log') failed =
      create_sender-assertion machine.uvg local remote log failed
  IsBalanced-IsClean local remote (waiting, log') h = tt

  server_context-IsClean :
      (cfg : Config) (made : Context.Ending × Backend × List Context.Event)
      → IsClean (after_context machine script server cfg log made)
  unfolding after_context run_mode
  server_context-IsClean cfg (Context.returned, backend, events) =
      let local : String × ℕ = (cfg.local_ip, cfg.local_port) in
      let remote : String × ℕ = (cfg.remote_ip, cfg.remote_port) in
      IsBalanced-IsClean local remote
        (run_server machine.encoder machine.uvg local remote script.server_script backend log)
        (run_server-IsBalanced machine.encoder machine.uvg local remote log script.server_script
          backend)
  server_context-IsClean cfg (Context.threw, backend, events) = (refl, inl refl)
  server_context-IsClean cfg (Context.waiting, backend, events) = tt

  server_keys-IsClean :
      (cfg : Config) (loaded : Result Manager.Error (Unit {0}) × Manager.State machine.crypto)
      → IsClean (exit_log (after_keys machine script server cfg log loaded))
  unfolding after_keys
  server_keys-IsClean cfg (err e, s) = (refl, inl refl)
  server_keys-IsClean cfg (ok tt, s) = server_context-IsClean cfg (Context.create script.context [])

  server_config-IsClean :
      (read : Result Config.Error Config)
      → IsClean (exit_log (after_config machine script server (disk, log) read))
  unfolding after_config
  server_config-IsClean (err e) = (refl, inl refl)
  server_config-IsClean (ok cfg) =
      server_keys-IsClean cfg
        (load_or_create machine.crypto script.key (disk, key_manager machine.crypto))

  -- The whole program as a server, whatever it meets: when it exits, the status is 0 or 1; with 0 it has
  -- destroyed each uvgRTP session that it had created, and with 1 at most one of them is left. It
  -- dies by `assert` only when uvgRTP has no encryption, and it follows a null pointer only before it
  -- has created a session.
  pub main_server-IsClean :
      (rest : List String) → IsClean (exit_log (main machine script ("server" ∷ rest) (disk, log)))
  unfolding main run_command read_arguments
  main_server-IsClean rest =
      server_config-IsClean (Config.create machine.host machine.toml config_path server)
