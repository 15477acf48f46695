-- ===== src/Main.antt =====
-- src/main.cpp: what the program does from its arguments to its exit.
-- The signal thread only sets the shutdown flag and is joined before an exit; `exit` in front of the
-- join ends it too.
pub mod ServerRun
pub mod ClientRun
pub mod Program
pub mod Signals
pub mod Forwarding
pub mod Streaming
mod Sample
mod Tests
use text.Mathlib.Text.{◌==◌ as str_eq}
use audpipe_cpp.Prelude.{ℕ, String, Bool, ◌||◌, if◌then◌else◌, List, [], ◌∷◌}
use audpipe_cpp.Config.{Mode, client, server}

-- How the process ends: with a status; by a failed assertion; by following a null pointer; or not
-- before the script of what it meets is over.
pub data Exit : Type 0 where
  exited : ℕ → Exit
  aborted crashed waiting : Exit

pub data Command : Type 0 where
  usage help : Command
  start : Mode → Command

-- `argv` without the name of the program; only the first argument is read.
unfoldable pub read_arguments : List String → Command
read_arguments [] = usage
read_arguments (subcommand ∷ rest) =
    if str_eq subcommand "client"
    then start client
    else if str_eq subcommand "server"
    then start server
    else if str_eq subcommand "--help" || str_eq subcommand "-h"
    then help
    else usage
