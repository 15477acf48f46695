-- ===== src/Backend/VirtualInput/Setup.antt =====
-- What a setup of the virtual input leaves (src/audio/pulseaudio_backend.cpp).
use audpipe_cpp.Prelude.{
  ℕ, ◌≡◌, ◌≢◌, ◌⊎◌, inl, inr, refl, Bool, true, false, not, ◌==◌, if◌then◌else◌, Option, none, some,
  List, [], ◌∷◌, arith, if_split, if_both, ap, ◌∙◌,
}
use audpipe_cpp.Backend.{
  Backend, Reason, no_operation, module_not_loaded, fifo_not_created, invalid_index, is_some,
  is_virtual_input_ready, set_virtual_input_error,
}
use audpipe_cpp.Backend.Modules.{cleanup_stale_virtual_sources}
use audpipe_cpp.Backend.VirtualInput.{
  Effects, Unloading, no_unload, unload_failed, unload_done, unload_asked, load_answered,
  fifo_unlinked, fifo_created, fifo_opened, fifo_closed, Opening, opened, no_reader, failed,
  Attempt, Loading, no_load, still_loading, no_answer, answered, Host, Ending, returned, waiting,
  threw, State, die, roll_back, load_done, open_fifo, try_open, pa_load_module_cb, after_load,
  load_module, ask_all, setup_virtual_input,
}

-- Whether the FIFO stands in the file system.
abbrev pub fifo_exists : Effects → Bool
fifo_exists [] = false
fifo_exists (fifo_unlinked ∷ log) = false
fifo_exists (fifo_created ∷ log) = true
fifo_exists (unload_asked idx unloading ∷ log) = fifo_exists log
fifo_exists (load_answered idx ∷ log) = fifo_exists log
fifo_exists (fifo_opened fd ∷ log) = fifo_exists log
fifo_exists (fifo_closed fd ∷ log) = fifo_exists log

-- Whether a module was loaded and none was unloaded since: asking for it is not enough.
abbrev pub module_pending : Effects → Bool
module_pending [] = false
module_pending (unload_asked idx no_unload ∷ log) = module_pending log
module_pending (unload_asked idx unload_failed ∷ log) = module_pending log
module_pending (unload_asked idx unload_done ∷ log) = false
module_pending (load_answered idx ∷ log) = if idx == invalid_index then module_pending log else true
module_pending (fifo_unlinked ∷ log) = module_pending log
module_pending (fifo_created ∷ log) = module_pending log
module_pending (fifo_opened fd ∷ log) = module_pending log
module_pending (fifo_closed fd ∷ log) = module_pending log

-- An unload that a round asks for unloads the module.
abbrev pub AllUnload : List Attempt → Type 0
AllUnload [] = Unit
AllUnload (a ∷ rest) = (a.rollback ≡ unload_done) × AllUnload rest

-- The load operation ends, and so it is with an unload.
abbrev pub AllEnd : Host → Type 0
AllEnd host = (host.loading ≢ still_loading) × AllUnload host.attempts

-- No attempt found a reader, an error or a shutdown.
abbrev pub NoneSettles : List Attempt → Type 0
NoneSettles [] = Unit
NoneSettles (a ∷ rest) = (a.opening ≡ no_reader) × (a.shutdown ≡ false) × NoneSettles rest

-- A setup that returns leaves an input that is ready; one that throws leaves nothing behind but the
-- reason; one that still waits has met no reason to end.
abbrev pub IsSettled : List Attempt → Ending × State → Type 0
IsSettled attempts (returned, (b, log)) =
    (is_virtual_input_ready b ≡ true)
    × ((b.virtual_source_mod_idx == invalid_index) ≡ false)
    × (fifo_exists log ≡ true)
    × (module_pending log ≡ true)
IsSettled attempts (threw reason, (b, log)) =
    (is_virtual_input_ready b ≡ false)
    × (b.virtual_input_error ≡ some reason)
    × (b.virtual_source_loaded ≡ false)
    × (b.playback ≡ false)
    × (fifo_exists log ≡ false)
    × (module_pending log ≡ false)
IsSettled attempts (waiting, (b, log)) =
    (b.virtual_source_loaded ≡ false) × (b.virtual_source_fd ≡ none) × NoneSettles attempts

-- What holds once the module is loaded.
abbrev IsLoaded : State → Type 0
IsLoaded (b, log) =
    (b.virtual_input_error ≡ none)
    × (b.virtual_source_loaded ≡ false)
    × ((b.virtual_source_mod_idx == invalid_index) ≡ false)
    × (fifo_exists log ≡ true)
    × (module_pending log ≡ true)

IsSettled-later :
    (a : Attempt) (rest : List Attempt) (out : Ending × State)
    → a.opening ≡ no_reader
    → a.shutdown ≡ false
    → IsSettled rest out
    → IsSettled (a ∷ rest) out
IsSettled-later a rest (returned, state) e s h = h
IsSettled-later a rest (threw reason, state) e s h = h
IsSettled-later a rest (waiting, state) e s (loaded, fd, none_settle) =
    (loaded, fd, (e, s, none_settle))

try_open-IsSettled :
    (opening : Opening) (shutdown : Bool) (rollback : Unloading) (rest : List Attempt) (b : Backend)
    (log : Effects)
    → rollback ≡ unload_done
    → IsLoaded (b, log)
    → IsSettled rest (open_fifo rest (b, log))
    → IsSettled
        (record { opening = opening; shutdown = shutdown; rollback = rollback } ∷ rest)
        (try_open opening shutdown rollback (open_fifo rest (b, log)) (b, log))
unfolding try_open load_done roll_back die is_virtual_input_ready set_virtual_input_error
try_open-IsSettled (opened fd) shutdown rollback rest b log done l later = ground arith
try_open-IsSettled no_reader true rollback rest b log done l later = ground arith
try_open-IsSettled no_reader false rollback rest b log done l later =
    IsSettled-later (record { opening = no_reader; shutdown = false; rollback = rollback }) rest
      (open_fifo rest (b, log)) refl refl later
try_open-IsSettled failed true rollback rest b log done l later = ground arith
try_open-IsSettled failed false rollback rest b log done l later = ground arith

load_done-IsSettled :
    (attempts : List Attempt) (b : Backend) (log : Effects)
    → IsLoaded (b, log)
    → is_some b.virtual_source_fd ≡ true
    → IsSettled attempts (load_done (b, log))
unfolding load_done is_virtual_input_ready
load_done-IsSettled attempts b log l has_fd = ground arith

not_some : (fd : Option ℕ) → is_some fd ≡ false → fd ≡ none
not_some none h = refl
not_some (some fd) h = cc

open_fifo-IsSettled :
    (attempts : List Attempt) (b : Backend) (log : Effects)
    → AllUnload attempts
    → IsLoaded (b, log)
    → IsSettled attempts (open_fifo attempts (b, log))
unfolding open_fifo
open_fifo-IsSettled [] b log unloads l =
    if_split (IsSettled []) (is_some b.virtual_source_fd) (load_done-IsSettled [] b log l)
      (λ no_fd. (l.1, not_some b.virtual_source_fd no_fd, tt))
open_fifo-IsSettled (a ∷ rest) b log (done, unloads) l =
    if_split (IsSettled (a ∷ rest)) (is_some b.virtual_source_fd)
      (load_done-IsSettled (a ∷ rest) b log l)
      (λ no_fd.
        try_open-IsSettled a.opening a.shutdown a.rollback rest b log done l
          (open_fifo-IsSettled rest b log unloads l))

die-IsSettled :
    (attempts : List Attempt) (reason : Reason) (b : Backend) (log : Effects)
    → b.virtual_source_loaded ≡ false
    → fifo_exists log ≡ false
    → module_pending log ≡ false
    → IsSettled attempts (die reason (b, log))
unfolding die is_virtual_input_ready set_virtual_input_error
die-IsSettled attempts reason b log l f m = ground arith

after_load-IsSettled :
    (attempts : List Attempt) (b : Backend) (log : Effects)
    → AllUnload attempts
    → b.virtual_input_error ≡ none
    → b.virtual_source_loaded ≡ false
    → fifo_exists log ≡ true
    → module_pending log ≡ not (b.virtual_source_mod_idx == invalid_index)
    → IsSettled attempts (after_load attempts (b, log))
unfolding after_load
after_load-IsSettled attempts b log unloads e l f m =
    if_split (IsSettled attempts) (b.virtual_source_mod_idx == invalid_index)
      (λ no_module.
        die-IsSettled attempts module_not_loaded b (fifo_unlinked ∷ log) l refl
          (m ∙ ap not no_module))
      (λ has_module.
        open_fifo-IsSettled attempts b log unloads (e, l, has_module, f, m ∙ ap not has_module))

module_pending-answered :
    (idx : ℕ) (log : Effects)
    → module_pending log ≡ false
    → module_pending (load_answered idx ∷ log) ≡ not (idx == invalid_index)
module_pending-answered idx log h = ground arith

load_module-IsSettled :
    (loading : Loading) (attempts : List Attempt) (b : Backend) (log : Effects)
    → loading ≢ still_loading
    → AllUnload attempts
    → (loading ≢ no_answer) ⊎ (b.virtual_source_mod_idx ≡ invalid_index)
    → b.virtual_input_error ≡ none
    → b.virtual_source_loaded ≡ false
    → fifo_exists log ≡ true
    → module_pending log ≡ false
    → IsSettled attempts (load_module loading attempts (b, log))
unfolding load_module pa_load_module_cb
load_module-IsSettled still_loading attempts b log ends unloads a e l f m = absurd (ends refl)
load_module-IsSettled no_load attempts b log ends unloads a e l f m =
    die-IsSettled attempts no_operation b (fifo_unlinked ∷ log) l refl m
load_module-IsSettled no_answer attempts b log ends unloads (inl answers) e l f m =
    absurd (answers refl)
load_module-IsSettled no_answer attempts b log ends unloads (inr invalid) e l f m =
    after_load-IsSettled attempts b log unloads e l f (rw invalid m)
load_module-IsSettled (answered idx) attempts b log ends unloads a e l f m =
    after_load-IsSettled attempts (pa_load_module_cb idx b) (load_answered idx ∷ log) unloads e l f
      (module_pending-answered idx log m)

contradiction : {b : Bool} → b ≡ true → b ≡ false → ⊥
contradiction h k = cc

module_pending-ask_all :
    (stale : ℕ → Unloading) (indices : List ℕ) (log : Effects)
    → module_pending log ≡ false
    → module_pending (ask_all stale indices log) ≡ false
unfolding ask_all
module_pending-ask_all stale [] log h = h
module_pending-ask_all stale (idx ∷ rest) log h =
    module_pending-ask_all stale rest (unload_asked idx (stale idx) ∷ log) (asked (stale idx))
  where
    asked : (unloading : Unloading) → module_pending (unload_asked idx unloading ∷ log) ≡ false
    asked no_unload = h
    asked unload_failed = h
    asked unload_done = refl

pub setup-IsSettled :
    (host : Host) (b : Backend) (log : Effects)
    → b.virtual_source_loaded ≡ false
    → (host.loading ≢ no_answer) ⊎ (b.virtual_source_mod_idx ≡ invalid_index)
    → AllEnd host
    → module_pending log ≡ false
    → IsSettled host.attempts (setup_virtual_input host (b, log))
unfolding setup_virtual_input
setup-IsSettled host b log l a unloads m =
    if_split (IsSettled host.attempts) b.virtual_source_loaded
      (λ loaded. absurd (contradiction loaded l))
      (λ _.
        if_both (IsSettled host.attempts) host.made
          (load_module-IsSettled host.loading host.attempts cleared
            (fifo_created ∷ fifo_unlinked ∷ cleaned) unloads.0 unloads.1 a refl l refl clean)
          (die-IsSettled host.attempts fifo_not_created cleared (fifo_unlinked ∷ cleaned) l refl
            clean))
  where
    cleared : Backend
    cleared = record b { virtual_input_error = none }

    cleaned : Effects
    cleaned = ask_all host.stale (cleanup_stale_virtual_sources host.modules) log

    clean : module_pending cleaned ≡ false
    clean = module_pending-ask_all host.stale (cleanup_stale_virtual_sources host.modules) log m
