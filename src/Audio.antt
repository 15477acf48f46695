-- ===== src/Audio.antt =====
-- include/audio.hxx: a device of the audio backend, and what a backend is.
pub mod Interface
use audpipe_cpp.Prelude.{ℕ, String, Bool, false}

pub record AudioDevice : Type 0 where
  pub name : String
  pub description : String
  pub index : ℕ
  pub sample_rate : ℕ
  pub channels : ℕ
  pub is_monitor : Bool
  pub is_default : Bool
  pub is_source : Bool

-- The constructor: no device is the default one.
abbrev pub audio_device :
    String → String → ℕ → ℕ → ℕ → (is_monitor : Bool) → (is_source : Bool) → AudioDevice
audio_device name description index sample_rate channels is_monitor is_source = record {
  name = name;
  description = description;
  index = index;
  sample_rate = sample_rate;
  channels = channels;
  is_monitor = is_monitor;
  is_default = false;
  is_source = is_source;
}
