-- ===== src/Backend/VirtualInput/Tests.antt =====
-- The virtual input at concrete runs.
use audpipe_cpp.Prelude.{ap, ◌≡◌, ◌≢◌, inl, refl, true, false, some, [], ◌∷◌}
use audpipe_cpp.Backend.{Backend, initial}
use audpipe_cpp.Backend.Modules.{list_modules, pa_module_list_cb, cleanup_stale_virtual_sources}
use audpipe_cpp.Backend.VirtualInput.{
  Effects, unload_asked, load_answered, fifo_unlinked, fifo_created, fifo_opened, opened, no_reader,
  unload_done, still_loading, no_answer, answered, Host, returned, die, roll_back, load_done,
  try_open, open_fifo, pa_load_module_cb, after_load, load_module, ask_all, setup_virtual_input,
  destroy_virtual_input, no_unload,
}
use audpipe_cpp.Backend.VirtualInput.Forgotten.{IsForgotten, failed_unload-IsForgotten}

-- A host on which the module is there at the second attempt, and one that is shut down meanwhile.
abbrev working : Host
working = record {
  modules = some [];
  stale = λ idx. unload_done;
  made = true;
  loading = answered 7;
  attempts =
      record { opening = no_reader; shutdown = false; rollback = unload_done }
      ∷ record { opening = opened 9; shutdown = false; rollback = unload_done }
      ∷ [];
}

abbrev stopping : Host
stopping = record working {
  attempts = record { opening = no_reader; shutdown = true; rollback = unload_done } ∷ [];
}

abbrev ready : Backend
ready = record initial {
  virtual_source_loaded = true;
  virtual_source_mod_idx = 7;
  virtual_source_fd = some 9;
}

abbrev ready_log : Effects
ready_log = fifo_opened 9 ∷ load_answered 7 ∷ fifo_created ∷ fifo_unlinked ∷ []

set_up : setup_virtual_input working (initial, []) ≡ (returned, (ready, ready_log))
unfolding setup_virtual_input cleanup_stale_virtual_sources list_modules pa_module_list_cb ask_all
    load_module pa_load_module_cb after_load open_fifo try_open load_done
set_up = refl

rolled_back :
    (setup_virtual_input stopping (initial, [])).1.1
    ≡ fifo_unlinked
      ∷ unload_asked 7 unload_done
      ∷ load_answered 7
      ∷ fifo_created
      ∷ fifo_unlinked
      ∷ []
unfolding setup_virtual_input cleanup_stale_virtual_sources list_modules pa_module_list_cb ask_all
    load_module pa_load_module_cb after_load open_fifo try_open roll_back die
rolled_back = refl

ends : answered 7 ≢ still_loading
ends e = cc

answers : answered 7 ≢ no_answer
answers e = cc

fails : no_unload ≢ unload_done
fails e = cc

failed_unload-IsForgotten_example : IsForgotten (
    destroy_virtual_input unload_done
      (destroy_virtual_input no_unload (setup_virtual_input working (initial, [])).1))
failed_unload-IsForgotten_example =
    failed_unload-IsForgotten working initial [] no_unload unload_done refl (inl answers)
      (ends, (refl, (refl, tt))) refl (ap (λ r. r.0) set_up) fails
