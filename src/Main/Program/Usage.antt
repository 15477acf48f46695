-- ===== src/Main/Program/Usage.antt =====
-- What `main` makes of its arguments (src/main.cpp).
use audpipe_cpp.Prelude.{String, ◌≡◌, refl, List, [], ◌∷◌}
use audpipe_cpp.Rtp.Library.{Log}
use audpipe_cpp.Keys.Manager.{Disk}
use audpipe_cpp.Main.{exited, read_arguments}
use audpipe_cpp.Main.Program.{Machine, Script, run_command, main}

-- The flags that the help text lists, but for those of the help itself.
abbrev listed_flags : List String
listed_flags = "-c" ∷ "--config" ∷ "-d" ∷ "--daemonise" ∷ "-v" ∷ []

abbrev AllOf : (String → Type 0) → List String → Type 0
AllOf P [] = Unit
AllOf P (flag ∷ flags) = P flag × AllOf P flags

-- No flag that the help text lists, but for those of the help, has an effect: as the first argument it
-- makes the program exit with 1 with nothing done, and behind the subcommand it is ignored, as is all
-- that follows it.
flags_without_effect :
    (machine : Machine) (script : Script machine) (rest : List String) (disk : Disk) (log : Log)
    → AllOf
        (λ flag.
          (main machine script (flag ∷ rest) (disk, log) ≡ (exited 1, disk, log))
          × (main machine script ("client" ∷ flag ∷ rest) (disk, log)
              ≡ main machine script ("client" ∷ []) (disk, log))
          × (main machine script ("server" ∷ flag ∷ rest) (disk, log)
              ≡ main machine script ("server" ∷ []) (disk, log)))
        listed_flags
unfolding main run_command read_arguments
flags_without_effect machine script rest disk log = (
  (refl, refl, refl),
  ((refl, refl, refl), ((refl, refl, refl), ((refl, refl, refl), ((refl, refl, refl), tt)))),
)
