-- ===== src/Backend/Modules.antt =====
-- The modules of the audio server that an earlier run left loaded:
-- `pa_module_list_cb` (src/audio/pulseaudio_callbacks.cpp) and `cleanup_stale_virtual_sources`
-- (src/audio/pulseaudio_backend.cpp).
pub mod Stale
mod Tests
use Prim.Native.String.{String, compare as compare_texts, find, len}
use Prim.Native.Nat.{Ordering}
use audpipe_cpp.Prelude.{
  ℕ, Bool, true, false, not, ltb, ◌&&◌, ◌||◌, if◌then◌else◌, Option, none, some, List, [], ◌∷◌,
  ◌++◌, ℤ, pos, negsuc,
}

-- `pa_module_info`; a text is `none` for a null pointer.
pub record ModuleInfo : Type 0 where
  pub index : ℕ
  pub name : Option String
  pub argument : Option String

-- `a == b` on texts.
abbrev pub equals : String → String → Bool
equals a b = elim (compare_texts a b) [ Ordering.eq ↦ true | _ ↦ false ]

-- `args.find(probe) != std::string::npos`
abbrev pub contains : String → String → Bool
contains args probe = not (ltb (len args) (find args probe))

abbrev pub probe : String
probe = "source_name=audpipe_input_"

-- `eol > 0`
abbrev pub at_end : ℤ → Bool
at_end (pos n) = ltb 0 n
at_end (negsuc n) = false

unfoldable pub is_stale : Option String → Option String → Bool
is_stale none argument = false
is_stale (some name) none = false
is_stale (some name) (some args) = equals name "module-pipe-source" && contains args probe

-- `pa_module_list_cb`, over the indices that were found.
unfoldable pub pa_module_list_cb : Option ModuleInfo → (eol : ℤ) → List ℕ → List ℕ
pa_module_list_cb none eol indices = indices
pa_module_list_cb (some info) eol indices =
    if at_end eol
    then indices
    else (if is_stale info.name info.argument then indices ++ info.index ∷ [] else indices)

-- A listing: a call of the callback for each module, and a last one with no module.
unfoldable pub list_modules : List ModuleInfo → List ℕ → List ℕ
list_modules [] indices = pa_module_list_cb none (pos 1) indices
list_modules (info ∷ infos) indices =
    list_modules infos (pa_module_list_cb (some info) (pos 0) indices)

-- The modules that the cleanup asks to unload; the list is `none` where no operation was created. What
-- an unloading gives is only logged.
unfoldable pub cleanup_stale_virtual_sources : Option (List ModuleInfo) → List ℕ
cleanup_stale_virtual_sources none = []
cleanup_stale_virtual_sources (some infos) = list_modules infos []
