-- ===== src/Backend/Devices.antt =====
-- The devices that the audio server lists: `get_inputs` and `get_outputs`
-- (src/audio/pulseaudio_backend.cpp) with their callbacks (src/audio/pulseaudio_callbacks.cpp).
pub mod Listing
mod Tests
use audpipe_cpp.Prelude.{
  ℕ, String, Bool, true, false, not, ◌==◌, if◌then◌else◌, Option, none, some, List, [], ◌∷◌, ◌++◌,
  ℤ, pos, negsuc, Result, ok, err,
}
use audpipe_cpp.Audio.{AudioDevice, audio_device}
use audpipe_cpp.Backend.{invalid_index}
use audpipe_cpp.Backend.Modules.{at_end}

-- `pa_source_info` and `pa_sink_info`; only the first has `monitor_of_sink`.
pub record DeviceInfo : Type 0 where
  pub name : String
  pub description : String
  pub index : ℕ
  pub rate : ℕ
  pub channels : ℕ
  pub monitor_of_sink : ℕ

-- No operation was created, which throws; or a null pointer was followed.
pub data Failure : Type 0 where
  no_operation null_info : Failure

abbrev pub source : DeviceInfo → AudioDevice
source l =
    audio_device l.name l.description l.index l.rate l.channels
      (not (l.monitor_of_sink == invalid_index)) true

abbrev pub sink : DeviceInfo → AudioDevice
sink l = audio_device l.name l.description l.index l.rate l.channels false false

-- `pa_sourcelist_cb`
unfoldable pub pa_sourcelist_cb :
    Option DeviceInfo → (eol : ℤ) → List AudioDevice → Result Failure (List AudioDevice)
pa_sourcelist_cb none eol devices = if at_end eol then ok devices else err null_info
pa_sourcelist_cb (some l) eol devices =
    if at_end eol then ok devices else ok (devices ++ source l ∷ [])

-- `pa_sinklist_cb`
unfoldable pub pa_sinklist_cb :
    Option DeviceInfo → (eol : ℤ) → List AudioDevice → Result Failure (List AudioDevice)
pa_sinklist_cb none eol devices = if at_end eol then ok devices else err null_info
pa_sinklist_cb (some l) eol devices = if at_end eol then ok devices else ok (devices ++ sink l ∷ [])

-- A listing: a call for each device, and a last one with no device, whose `eol` is positive at the end
-- and negative on an error.
unfoldable pub list_devices :
    (Option DeviceInfo → ℤ → List AudioDevice → Result Failure (List AudioDevice))
    → List DeviceInfo
    → (eol : ℤ) → List AudioDevice
    → Result Failure (List AudioDevice)
list_devices callback [] eol devices = callback none eol devices
list_devices callback (l ∷ rest) eol devices =
    elim (callback (some l) (pos 0) devices) as (λ _. Result Failure (List AudioDevice)) [
      | err e ↦ err e
      | ok devices' ↦ list_devices callback rest eol devices'
    ]

-- `wait_for_operation` of an operation that ends, over what it lists; `none` where none was created. Whether
-- the wait ends is told by what calls it (Main.ServerRun).
unfoldable pub wait_for_operation :
    (Option DeviceInfo → ℤ → List AudioDevice → Result Failure (List AudioDevice))
    → Option (List DeviceInfo × ℤ)
    → Result Failure (List AudioDevice)
wait_for_operation callback none = err no_operation
wait_for_operation callback (some (infos, eol)) = list_devices callback infos eol []

unfoldable pub get_inputs : Option (List DeviceInfo × ℤ) → Result Failure (List AudioDevice)
get_inputs operation = wait_for_operation pa_sourcelist_cb operation

unfoldable pub get_outputs : Option (List DeviceInfo × ℤ) → Result Failure (List AudioDevice)
get_outputs operation = wait_for_operation pa_sinklist_cb operation
