-- ===== src/Client/Teardown/Tests.antt =====
-- A callback that is in flight when a client ends (src/client.cpp).
use audpipe_cpp.Prelude.{◌≡◌, ◌≢◌, refl, true, false}
use audpipe_cpp.Client.Teardown.{
  silenced, decoding, Threads, started, Reach, here, next, enter, stop, silence,
}
use audpipe_cpp.Client.Teardown.Misuse.{decoder_misused}

abbrev in_flight : Threads
in_flight = record started {
  main_at = silenced;
  writer_at = decoding;
  should_stop = true;
  playback = false;
}

decoder_misused_example :
    (in_flight.misused ≡ false)
    × (in_flight.writer_at ≡ decoding → (t : Threads) × Reach in_flight t × (t.misused ≡ true))
    × (in_flight.writer_at ≢ decoding → (t : Threads) → Reach in_flight t → t.misused ≡ false)
decoder_misused_example =
    decoder_misused in_flight (next (next (next here (enter refl refl)) (stop refl)) (silence refl))
      refl
