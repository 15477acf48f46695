-- ===== src/Backend/Context/Tests.antt =====
-- The context of the audio server at concrete states (src/audio/pulseaudio_backend.cpp).
use audpipe_cpp.Prelude.{◌≡◌, refl, List, [], ◌∷◌}
use audpipe_cpp.Backend.{initial}
use audpipe_cpp.Backend.Context.{
  ContextState, connecting, authorizing, setting_name, ready, failed, terminated, disconnected,
  unreferenced, mainloop_freed, returned, threw, waiting, pa_state_cb, create,
}
use audpipe_cpp.Backend.Context.Waiting.{EndsAs, create-EndsAs}

abbrev passing : List (List ContextState)
passing = (connecting ∷ authorizing ∷ []) ∷ [] ∷ []

create-EndsAs_example :
    (create passing [] ≡ (waiting, initial, []))
    × EndsAs passing (setting_name ∷ []) [] ([] ∷ []) [] ready (returned, [])
    × EndsAs passing
        (setting_name ∷ [])
        []
        ([] ∷ [])
        []
        failed
        (threw, mainloop_freed ∷ unreferenced ∷ disconnected ∷ [])
    × EndsAs passing
        (setting_name ∷ [])
        []
        ([] ∷ [])
        []
        terminated
        (threw, mainloop_freed ∷ unreferenced ∷ disconnected ∷ [])
unfolding pa_state_cb
create-EndsAs_example =
    create-EndsAs passing (setting_name ∷ []) [] ([] ∷ []) [] ((refl, (refl, tt)), (tt, tt)) tt
