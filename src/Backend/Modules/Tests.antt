-- ===== src/Backend/Modules/Tests.antt =====
-- The cleanup of stale modules at a concrete listing.
use audpipe_cpp.Prelude.{◌≡◌, refl, none, some, List, [], ◌∷◌}
use audpipe_cpp.Backend.Modules.{
  ModuleInfo, is_stale, pa_module_list_cb, list_modules, cleanup_stale_virtual_sources,
}

abbrev listing : List ModuleInfo
listing =
    record { index = 3; name = some "module-null-sink"; argument = none }
    ∷ record { index = 4; name = some "module-pipe-source"; argument = some "source_name=other" }
    ∷ record {
      index = 5;
      name = some "module-pipe-source";
      argument = some "source_name=audpipe_input_812 file=/tmp/audpipe_input_812.pcm";
    }
    ∷ record { index = 6; name = none; argument = some "source_name=audpipe_input_9" }
    ∷ []

cleaned_up : cleanup_stale_virtual_sources (some listing) ≡ 5 ∷ []
unfolding cleanup_stale_virtual_sources list_modules pa_module_list_cb is_stale
cleaned_up = refl
