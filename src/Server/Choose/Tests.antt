-- ===== src/Server/Choose/Tests.antt =====
-- `choose_device_interactive` at concrete lines (src/server.cpp).
use audpipe_cpp.Prelude.{
  ℕ, get_elem?, ◌≡◌, refl, true, false, some, none, [], ◌∷◌, negsuc, pos, ok, arith,
}
use audpipe_cpp.Audio.{AudioDevice}
use audpipe_cpp.Backend.{initial}
use audpipe_cpp.Backend.Devices.{DeviceInfo, source, get_inputs}
use audpipe_cpp.Backend.Devices.Listing.{devices_listed}
use audpipe_cpp.Backend.Recording.{State, Script, unconnected, ready, record_device}
use audpipe_cpp.Backend.Recording.Accepted.{IsAccepted}
use audpipe_cpp.Server.Choose.Recordable.{choose-recordable}
use audpipe_cpp.Server.Choose.{skip_ws, read_digits, read_int, checked, choose_device_interactive}

abbrev microphone : AudioDevice
microphone = record {
  name = "mic";
  description = "Microphone";
  index = 3;
  sample_rate = 48000;
  channels = 1;
  is_monitor = false;
  is_default = false;
  is_source = true;
}

abbrev monitor : AudioDevice
monitor = record microphone { name = "monitor"; is_monitor = true; channels = 2 }

-- " -5x"
read_negative : read_int (32 ∷ 45 ∷ 53 ∷ 120 ∷ []) ≡ some (negsuc 4, 120 ∷ [])
unfolding read_int skip_ws read_digits
read_negative = refl

-- "2147483648"
read_too_large : read_int (50 ∷ 49 ∷ 52 ∷ 55 ∷ 52 ∷ 56 ∷ 51 ∷ 54 ∷ 52 ∷ 56 ∷ []) ≡ none
unfolding read_int skip_ws read_digits
read_too_large = refl

-- "2x"
chosen_by_default :
    choose_device_interactive (microphone ∷ monitor ∷ []) (50 ∷ 120 ∷ []) ≡ ok microphone
unfolding choose_device_interactive read_int skip_ws read_digits checked
chosen_by_default = refl

abbrev info : DeviceInfo
info = record {
  name = "mic";
  description = "Microphone";
  index = 3;
  rate = 44100;
  channels = 1;
  monitor_of_sink = 0;
}

abbrev idle : State
idle = record { backend = initial; events = []; read = record { fragments = []; drops = 0 } }

abbrev script : Script
script = record {
  old_state = unconnected;
  created = some 8;
  connects = true;
  unconnected_state = unconnected;
  states = ready ∷ [];
  turns = [];
  last_state = ready;
}

enumerated : get_inputs (some (info ∷ [], pos 1)) ≡ ok (source info ∷ [])
enumerated = (devices_listed (info ∷ []) (pos 1)).0

choose-recordable_example :
    (device : AudioDevice) × (choose_device_interactive (source info ∷ []) (57 ∷ []) ≡ ok device)
    × ((i : ℕ) × (get_elem? (source info ∷ []) i ≡ some device))
    × IsAccepted (record_device script device idle)
choose-recordable_example =
    choose-recordable (info ∷ []) (pos 1) (57 ∷ []) script idle enumerated (omega arith)
