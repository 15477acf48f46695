-- ===== src/Backend/Devices/Listing.antt =====
-- What the enumerations of devices give.
use audpipe_cpp.Prelude.{
  ◌≡◌, sym, ap, ◌∙◌, if◌then◌else◌, some, List, [], ◌∷◌, ◌++◌, map, append_assoc, append-nil, ℤ,
  Result, ok, err,
}
use audpipe_cpp.Audio.{AudioDevice}
use audpipe_cpp.Backend.Modules.{at_end}
use audpipe_cpp.Backend.Devices.{
  DeviceInfo, Failure, null_info, source, sink, pa_sourcelist_cb, pa_sinklist_cb, list_devices,
  wait_for_operation, get_inputs, get_outputs,
}

-- What a listing gives when it ends, and when it fails.
abbrev pub listed : List AudioDevice → (eol : ℤ) → Result Failure (List AudioDevice)
listed devices eol = if at_end eol then ok devices else err null_info

list_sources :
    (infos : List DeviceInfo) (eol : ℤ) (devices : List AudioDevice)
    → list_devices pa_sourcelist_cb infos eol devices ≡ listed (devices ++ map source infos) eol
unfolding list_devices pa_sourcelist_cb
list_sources [] eol devices = ap (λ ds. listed ds eol) (sym (append-nil devices))
list_sources (l ∷ rest) eol devices =
    list_sources rest eol (devices ++ source l ∷ [])
    ∙ ap (λ ds. listed ds eol) (append_assoc devices (source l ∷ []) (map source rest))

list_sinks :
    (infos : List DeviceInfo) (eol : ℤ) (devices : List AudioDevice)
    → list_devices pa_sinklist_cb infos eol devices ≡ listed (devices ++ map sink infos) eol
unfolding list_devices pa_sinklist_cb
list_sinks [] eol devices = ap (λ ds. listed ds eol) (sym (append-nil devices))
list_sinks (l ∷ rest) eol devices =
    list_sinks rest eol (devices ++ sink l ∷ [])
    ∙ ap (λ ds. listed ds eol) (append_assoc devices (sink l ∷ []) (map sink rest))

-- Both enumerations give all devices of the listing in its order, marked as sources or as sinks, when
-- it ends; a listing that fails makes them follow a null pointer.
pub devices_listed :
    (infos : List DeviceInfo) (eol : ℤ)
    → (get_inputs (some (infos, eol)) ≡ listed (map source infos) eol)
      × (get_outputs (some (infos, eol)) ≡ listed (map sink infos) eol)
unfolding get_inputs get_outputs wait_for_operation
devices_listed infos eol = (list_sources infos eol [], list_sinks infos eol [])
