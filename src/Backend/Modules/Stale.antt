-- ===== src/Backend/Modules/Stale.antt =====
-- Which modules the cleanup asks to unload.
use audpipe_cpp.Prelude.{
  ℕ, ◌≡◌, sym, ◌∙◌, Bool, true, false, some, if◌then◌else◌, List, [], ◌∷◌, ◌++◌, append_assoc,
  append-nil,
}
use audpipe_cpp.Backend.Modules.{
  ModuleInfo, is_stale, pa_module_list_cb, list_modules, cleanup_stale_virtual_sources,
}

-- The indices of the modules that pass a test.
abbrev pub indices_where : (ModuleInfo → Bool) → List ModuleInfo → List ℕ
indices_where test [] = []
indices_where test (info ∷ rest) =
    let later = indices_where test rest in if test info then info.index ∷ later else later

list_modules_lem :
    (infos : List ModuleInfo) (found : List ℕ)
    → list_modules infos found
      ≡ found ++ indices_where (λ info. is_stale info.name info.argument) infos
unfolding list_modules pa_module_list_cb
list_modules_lem [] found = sym (append-nil found)
list_modules_lem (info ∷ rest) found =
    by_test (is_stale info.name info.argument) (list_modules_lem rest found)
      (list_modules_lem rest (found ++ info.index ∷ []))
  where
    later : List ℕ
    later = indices_where (λ i. is_stale i.name i.argument) rest

    by_test :
        (stale : Bool)
        → list_modules rest found ≡ found ++ later
        → list_modules rest (found ++ info.index ∷ []) ≡ (found ++ info.index ∷ []) ++ later
        → list_modules rest (if stale then found ++ info.index ∷ [] else found)
          ≡ found ++ (if stale then info.index ∷ later else later)
    by_test true skipped taken = taken ∙ append_assoc found (info.index ∷ []) later
    by_test false skipped taken = skipped

-- The cleanup asks to unload the pipe sources whose arguments name an audpipe input, all of them, in the
-- order of the listing, and no other module.
cleanup_stale :
    (infos : List ModuleInfo)
    → cleanup_stale_virtual_sources (some infos)
      ≡ indices_where (λ info. is_stale info.name info.argument) infos
unfolding cleanup_stale_virtual_sources
cleanup_stale infos = list_modules_lem infos []
