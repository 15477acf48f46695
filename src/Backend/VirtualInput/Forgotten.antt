-- ===== src/Backend/VirtualInput/Forgotten.antt =====
-- A module whose unloading fails (src/audio/pulseaudio_backend.cpp).
use audpipe_cpp.Prelude.{◌≡◌, ◌≢◌, ◌⊎◌, refl, ap, ◌∙◌, true, false, ◌==◌, arith}
use audpipe_cpp.Backend.{Backend, invalid_index, is_virtual_input_ready}
use audpipe_cpp.Backend.VirtualInput.{
  Effects, Unloading, no_unload, unload_failed, unload_done, no_answer, Host, Ending, State,
  returned, close_fifo, unload_module, setup_virtual_input, destroy_virtual_input,
}
use audpipe_cpp.Backend.VirtualInput.Setup.{module_pending, AllEnd, IsSettled, setup-IsSettled}
use audpipe_cpp.Backend.VirtualInput.Teardown.{close_fifo_lem}

-- The module is still there, and the backend does not know it any more.
abbrev pub IsForgotten : State → Type 0
IsForgotten (b, log) =
    (b.virtual_source_loaded ≡ false)
    × (b.virtual_source_mod_idx ≡ invalid_index)
    × (module_pending log ≡ true)

unload-IsForgotten :
    (unloading : Unloading) (b : Backend) (log : Effects)
    → unloading ≢ unload_done
    → b.virtual_source_loaded ≡ true
    → (b.virtual_source_mod_idx == invalid_index) ≡ false
    → module_pending log ≡ true
    → IsForgotten (unload_module unloading (b, log))
unfolding unload_module
unload-IsForgotten no_unload b log fails loaded valid there = ground arith
unload-IsForgotten unload_failed b log fails loaded valid there = ground arith
unload-IsForgotten unload_done b log fails loaded valid there = absurd (fails refl)

unload_again-IsForgotten :
    (unloading : Unloading) (b : Backend) (log : Effects)
    → IsForgotten (b, log)
    → IsForgotten (unload_module unloading (b, log))
unfolding unload_module
unload_again-IsForgotten unloading b log (loaded, idx, there) = ground arith

destroy_again-IsForgotten :
    (unloading : Unloading) (b : Backend) (log : Effects)
    → IsForgotten (b, log)
    → IsForgotten (destroy_virtual_input unloading (b, log))
unfolding destroy_virtual_input
destroy_again-IsForgotten unloading b log (loaded, idx, there) =
    let (b', log') = close_fifo (b, log) in
    let (closed, same_loaded, same_idx, same_pending) = close_fifo_lem b log in
    unload_again-IsForgotten unloading b' log'
      (same_loaded ∙ loaded, same_idx ∙ idx, same_pending ∙ there)

destroy-IsForgotten :
    (unloading : Unloading) (b : Backend) (log : Effects)
    → unloading ≢ unload_done
    → b.virtual_source_loaded ≡ true
    → (b.virtual_source_mod_idx == invalid_index) ≡ false
    → module_pending log ≡ true
    → IsForgotten (destroy_virtual_input unloading (b, log))
unfolding destroy_virtual_input
destroy-IsForgotten unloading b log fails loaded valid there =
    let (b', log') = close_fifo (b, log) in
    let (closed, same_loaded, same_idx, same_pending) = close_fifo_lem b log in
    unload-IsForgotten unloading b' log' fails (same_loaded ∙ loaded)
      (ap (λ idx. idx == invalid_index) same_idx ∙ valid) (same_pending ∙ there)

settled-loaded : (b : Backend) → is_virtual_input_ready b ≡ true → b.virtual_source_loaded ≡ true
unfolding is_virtual_input_ready
settled-loaded b ready = ground arith

settled-IsForgotten :
    (host : Host) (unloading again : Unloading) (out : Ending × State)
    → IsSettled host.attempts out
    → out.0 ≡ returned
    → unloading ≢ unload_done
    → IsForgotten (destroy_virtual_input again (destroy_virtual_input unloading out.1))
settled-IsForgotten host unloading again (Ending.returned, (b, log)) settled e fails =
    let (ready, valid, fifo, there) = settled in
    let (b', log') = destroy_virtual_input unloading (b, log) in
    destroy_again-IsForgotten again b' log'
      (destroy-IsForgotten unloading b log fails (settled-loaded b ready) valid there)
settled-IsForgotten host unloading again (Ending.waiting, state) settled e fails = cc
settled-IsForgotten host unloading again (Ending.threw reason, state) settled e fails = cc

-- When a setup of an input that is not loaded has returned, and its teardown gets no unload operation or
-- one that fails: the module is still loaded, but the backend has forgotten its index, so that another
-- teardown does not unload it either, however the audio server would answer. (The conditions on the setup are
-- those under which it leaves its module loaded when it returns.)
pub failed_unload-IsForgotten :
    (host : Host) (b : Backend) (log : Effects) (unloading again : Unloading)
    → b.virtual_source_loaded ≡ false
    → (host.loading ≢ no_answer) ⊎ (b.virtual_source_mod_idx ≡ invalid_index)
    → AllEnd host
    → module_pending log ≡ false
    → (setup_virtual_input host (b, log)).0 ≡ returned
    → unloading ≢ unload_done
    → IsForgotten (
        destroy_virtual_input again
          (destroy_virtual_input unloading (setup_virtual_input host (b, log)).1))
failed_unload-IsForgotten host b log unloading again l a unloads m ended fails =
    settled-IsForgotten host unloading again (setup_virtual_input host (b, log))
      (setup-IsSettled host b log l a unloads m) ended fails
