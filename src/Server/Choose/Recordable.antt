-- ===== src/Server/Choose/Recordable.antt =====
-- The device that the server chooses can be recorded (src/server.cpp, src/audio/pulseaudio_backend.cpp).
use audpipe_cpp.Prelude.{
  ℕ, zero, suc, ◌<◌, ◌≡◌, sym, ap, ◌∙◌, Bool, true, false, if◌then◌else◌, some, List, [], ◌∷◌, map,
  length, length-map, get_elem?, ℤ, ok, err, arith,
}
use audpipe_cpp.Audio.{AudioDevice}
use audpipe_cpp.Backend.Modules.{at_end}
use audpipe_cpp.Backend.Devices.{DeviceInfo, null_info, source, get_inputs}
use audpipe_cpp.Backend.Devices.Listing.{devices_listed}
use audpipe_cpp.Backend.Recording.{Script, State, record_device}
use audpipe_cpp.Backend.Recording.Accepted.{IsAccepted, record-IsAccepted}
use audpipe_cpp.Server.Choose.{choose_device_interactive}
use audpipe_cpp.Server.Choose.Numeral.{choose_listed}

get_elem?-source :
    (infos : List DeviceInfo) (i : ℕ) (device : AudioDevice)
    → get_elem? (map source infos) i ≡ some device
    → device.is_source ≡ true
get_elem?-source [] i device h = cc
get_elem?-source (l ∷ rest) zero device h = ground arith
get_elem?-source (l ∷ rest) (suc i) device h = get_elem?-source rest i device h

if_ok :
    (test : Bool) (devices inputs : List AudioDevice)
    → (if test then ok devices else err null_info) ≡ ok inputs
    → inputs ≡ devices
if_ok true devices inputs h = ground arith
if_ok false devices inputs h = ground arith

-- Whatever line is read, the server chooses one of the devices that the audio backend enumerated, if
-- there is any, and the audio backend does not refuse to record from it.
pub choose-recordable :
    (infos : List DeviceInfo) (eol : ℤ) (line : List ℕ) (script : Script) (s : State)
    {inputs : List AudioDevice}
    → get_inputs (some (infos, eol)) ≡ ok inputs
    → 0 < length infos
    → (device : AudioDevice) × (choose_device_interactive inputs line ≡ ok device)
      × ((i : ℕ) × (get_elem? inputs i ≡ some device))
      × IsAccepted (record_device script device s)
choose-recordable infos eol line script s {inputs} enumerated some_device =
    let same =
      if_ok (at_end eol) (map source infos) inputs
        (sym (devices_listed infos eol).0 ∙ enumerated) in
    let (i, device, within, found, chosen) =
      choose_listed (map source infos) line (omega (arith, length-map infos source)) in
    (
      device,
      ap (λ devices. choose_device_interactive devices line) same ∙ chosen,
      (i, ap (λ devices. get_elem? devices i) same ∙ found),
      record-IsAccepted script device s (get_elem?-source infos i device found),
    )
