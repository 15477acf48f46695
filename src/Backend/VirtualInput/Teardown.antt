-- ===== src/Backend/VirtualInput/Teardown.antt =====
-- What tearing down the virtual input leaves (src/audio/pulseaudio_backend.cpp).
use audpipe_cpp.Prelude.{
  ◌≡◌, ◌≢◌, ◌⊎◌, inl, inr, refl, true, false, ◌==◌, none, List, arith, ap, ◌∙◌,
}
use audpipe_cpp.Backend.{Backend, invalid_index, is_virtual_input_ready}
use audpipe_cpp.Backend.VirtualInput.{
  Effects, Unloading, unload_done, Attempt, no_answer, Host, Ending, returned, waiting, threw,
  State, close_fifo, unload_module, setup_virtual_input, destroy_virtual_input,
}
use audpipe_cpp.Backend.VirtualInput.Setup.{
  fifo_exists, module_pending, AllEnd, IsSettled, setup-IsSettled,
}

-- Nothing of a virtual input is left.
abbrev pub IsTornDown : State → Type 0
IsTornDown (b, log) =
    (is_virtual_input_ready b ≡ false)
    × (b.virtual_source_loaded ≡ false)
    × (b.virtual_source_fd ≡ none)
    × (fifo_exists log ≡ false)
    × (module_pending log ≡ false)

-- No module was loaded, or the backend knows which.
abbrev pub IsKnown : State → Type 0
IsKnown (b, log) =
    ((b.virtual_source_loaded ≡ false) × (module_pending log ≡ false))
    ⊎ ((b.virtual_source_loaded ≡ true) × ((b.virtual_source_mod_idx == invalid_index) ≡ false))

unload-IsTornDown :
    (b : Backend) (log : Effects)
    → (b.virtual_source_loaded ≡ true) × ((b.virtual_source_mod_idx == invalid_index) ≡ false)
    → b.virtual_source_fd ≡ none
    → IsTornDown (unload_module unload_done (b, log))
unfolding unload_module is_virtual_input_ready
unload-IsTornDown b log k closed = ground arith

unload_nothing-IsTornDown :
    (unloading : Unloading) (b : Backend) (log : Effects)
    → b.virtual_source_loaded ≡ false
    → b.virtual_source_fd ≡ none
    → module_pending log ≡ false
    → IsTornDown (unload_module unloading (b, log))
unfolding unload_module is_virtual_input_ready
unload_nothing-IsTornDown unloading b log l closed m = ground arith

pub close_fifo_lem :
    (b : Backend) (log : Effects)
    → let (b', log') = close_fifo (b, log) in
      (b'.virtual_source_fd ≡ none)
      × (b'.virtual_source_loaded ≡ b.virtual_source_loaded)
      × (b'.virtual_source_mod_idx ≡ b.virtual_source_mod_idx)
      × (module_pending log' ≡ module_pending log)
unfolding close_fifo
close_fifo_lem b log = ground arith

-- Tearing down leaves nothing, where no module was loaded or the backend knows which one, if the unload
-- that it asks for then unloads the module.
pub destroy-IsTornDown :
    (unloading : Unloading) (b : Backend) (log : Effects)
    → unloading ≡ unload_done
    → IsKnown (b, log)
    → IsTornDown (destroy_virtual_input unloading (b, log))
unfolding destroy_virtual_input
destroy-IsTornDown unloading b log done known =
    let (b', log') = close_fifo (b, log) in
    let (closed, same_loaded, same_idx, same_pending) = close_fifo_lem b log in
    elim known [
      | inl (no_module, none_pending) ↦
          unload_nothing-IsTornDown unloading b' log' (same_loaded ∙ no_module) closed
            (same_pending ∙ none_pending)
      | inr (loaded, valid) ↦ rw done (
          unload-IsTornDown b' log'
            (same_loaded ∙ loaded, ap (λ idx. idx == invalid_index) same_idx ∙ valid) closed)
    ]

pub IsSettled-IsKnown :
    (attempts : List Attempt) (ending : Ending) (b : Backend) (log : Effects)
    → ending ≢ waiting
    → IsSettled attempts (ending, (b, log))
    → IsKnown (b, log)
unfolding is_virtual_input_ready
IsSettled-IsKnown attempts returned b log ended (ready, valid, f, m) = inr (ground arith, valid)
IsSettled-IsKnown attempts (threw reason) b log ended (r, e, no_module, p, f, m) =
    inl (no_module, m)
IsSettled-IsKnown attempts waiting b log ended settled = absurd (ended refl)

-- However a setup of an input that is not loaded ends, unless it waits on, tearing down then leaves
-- neither FIFO, module nor descriptor, and the input can be set up again, if each unload that is asked for
-- unloads the module. (A load unloading that ends
-- with no answer takes an invalid index beforehand.)
cycle-IsTornDown :
    (host : Host) (unloading : Unloading) (b : Backend) (log : Effects)
    → b.virtual_source_loaded ≡ false
    → (host.loading ≢ no_answer) ⊎ (b.virtual_source_mod_idx ≡ invalid_index)
    → AllEnd host
    → unloading ≡ unload_done
    → module_pending log ≡ false
    → (setup_virtual_input host (b, log)).0 ≢ waiting
    → IsTornDown (destroy_virtual_input unloading (setup_virtual_input host (b, log)).1)
cycle-IsTornDown host unloading b log l a unloads done m ended =
    let (ending, (b', log')) = setup_virtual_input host (b, log) in
    destroy-IsTornDown unloading b' log' done (
      IsSettled-IsKnown host.attempts ending b' log' ended
        (setup-IsSettled host b log l a unloads m))
