-- ===== src/Main/Program/Keys.antt =====
-- What the whole program leaves of the files of the keys (src/main.cpp and src/keys.cpp).
use audpipe_cpp.Prelude.{String, List, Result, ok, err}
use audpipe_cpp.Rtp.Library.{Log}
use audpipe_cpp.Config
use audpipe_cpp.Config.{Config, Mode}
use audpipe_cpp.Keys.Manager
use audpipe_cpp.Keys.Manager.{Disk, key_manager, load_or_create}
use audpipe_cpp.Keys.Manager.Kept.{Extends, Extends-refl, load_or_create-Extends}
use audpipe_cpp.Main.{Command, usage, help, start, read_arguments}
use audpipe_cpp.Main.Program.{
  Machine, Script, config_path, after_keys, after_config, run_command, main,
}

module _ (machine : Machine) (script : Script machine) (disk : Disk) (log : Log) where
  keys-Extends :
      (mode : Mode) (cfg : Config)
      (loaded : Result Manager.Error (Unit {0}) × Manager.State machine.crypto)
      → Extends disk loaded.1.0
      → Extends disk (after_keys machine script mode cfg log loaded).1
  unfolding after_keys
  keys-Extends mode cfg (err e, s) kept = kept
  keys-Extends mode cfg (ok tt, s) kept = kept

  config-Extends :
      (mode : Mode) (read : Result Config.Error Config)
      → Extends disk (after_config machine script mode (disk, log) read).1
  unfolding after_config
  config-Extends mode (err e) = Extends-refl disk
  config-Extends mode (ok cfg) =
      keys-Extends mode cfg
        (load_or_create machine.crypto script.key (disk, key_manager machine.crypto))
        (load_or_create-Extends machine.crypto script.key disk (key_manager machine.crypto))

  command-Extends :
      (command : Command) → Extends disk (run_command machine script command (disk, log)).1
  unfolding run_command
  command-Extends usage = Extends-refl disk
  command-Extends help = Extends-refl disk
  command-Extends (start mode) =
      config-Extends mode (Config.create machine.host machine.toml config_path mode)

  -- Whatever the arguments are, whatever the directory holds and however the program ends: each of the two
  -- files of the keys still starts with what it held, so that no key is lost or overwritten, and the
  -- file of the trusted peers holds what it held.
  pub main-Extends :
      (arguments : List String) → Extends disk (main machine script arguments (disk, log)).1
  unfolding main
  main-Extends arguments = command-Extends (read_arguments arguments)
