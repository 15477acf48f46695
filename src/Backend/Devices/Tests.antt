-- ===== src/Backend/Devices/Tests.antt =====
-- An enumeration at a concrete listing.
use audpipe_cpp.Prelude.{◌≡◌, refl, none, err}
use audpipe_cpp.Backend.{invalid_index}
use audpipe_cpp.Backend.Devices.{DeviceInfo, no_operation, get_inputs, wait_for_operation}

abbrev microphone : DeviceInfo
microphone = record {
  name = "mic";
  description = "Microphone";
  index = 3;
  rate = 44100;
  channels = 1;
  monitor_of_sink = invalid_index;
}

no_inputs : get_inputs none ≡ err no_operation
unfolding get_inputs wait_for_operation
no_inputs = refl
