-- ===== src/Client/Life/Tests.antt =====
-- A living client at concrete happenings (src/client.cpp).
use audpipe_cpp.Prelude.{ℕ, refl, true, false, some, List, [], ◌∷◌, pos, arith}
use audpipe_cpp.Config.{default_policy}
use audpipe_cpp.Rtp
use audpipe_cpp.Rtp.{
  Callback, create_receiver, create_session, init_rtp, create_stream, install_receive_hook,
}
use audpipe_cpp.Rtp.Library.{Uvg}
use audpipe_cpp.Backend
use audpipe_cpp.Client.State.{fresh}
use audpipe_cpp.Client.Connect.{World, create, connect, after_attempt}
use audpipe_cpp.Client.Playback.{Opus, fresh_decbuf}
use audpipe_cpp.Client.Life.{
  Living, Happening, frame_came, virtual_input_threw, bytes_asked, happen_all,
}
use audpipe_cpp.Client.Life.Memory.{living-IsWithin}
use audpipe_cpp.Client.Playback.Memory.{DecodesInPlace, AllInside, IsWithin}
use audpipe_cpp.Client.Life.Sound.{IsSound, living-IsSound}

abbrev decoder : Opus
decoder = record { Decoder = ℕ; decode = λ dec frame out. (dec, pos 1, 1 ∷ 2 ∷ 3 ∷ 4 ∷ []) }

abbrev working : Uvg
working = record { crypto_enabled = true; new_session = λ log. some 5; new_stream = λ log. some 6 }

abbrev hook : Callback
hook = record { hook = some 1; userdata = 2 }

abbrev world : World
world = record { backend = Backend.initial; log = []; reads = 0 }

abbrev living : Living decoder
living = record {
  client = record (fresh default_policy) {
    rtp =
        some (record { recv_callback = hook; session = some 5; stream = some 6; stopped = false });
  };
  backend = Backend.initial;
  opusdec = 0;
  pcm_decbuf = [];
}

-- A frame, a call that plays it, an error, and a frame that comes too late.
abbrev happenings : List (Happening decoder)
happenings =
    frame_came (record { address = 10; payload = some (8 ∷ []); payload_len = 1 })
    ∷ bytes_asked 2 [] (some (0 ∷ 0 ∷ []))
    ∷ virtual_input_threw
    ∷ frame_came (record { address = 11; payload = some (9 ∷ []); payload_len = 1 })
    ∷ []

living-IsSound_example : IsSound (happen_all decoder happenings living).client
unfolding create connect after_attempt create_receiver create_session init_rtp create_stream
    install_receive_hook Rtp.fresh
living-IsSound_example =
    living-IsSound decoder (λ n. false) working ("::1", 7981) ("::1", 8179) hook true default_policy
      world (record world { log = (create_receiver working ("::1", 7981) ("::1", 8179) hook []).1 })
      happenings living refl

-- A decoder that leaves the buffer as it is.
abbrev steady : Opus
steady = record { Decoder = ℕ; decode = λ dec frame out. (dec, pos 960, out) }

steady-DecodesInPlace : DecodesInPlace steady
steady-DecodesInPlace = record {
  samples = λ dec frame buf h. omega arith;
  same_length = λ dec frame buf. refl;
}

abbrev played : List (Happening steady)
played =
    frame_came (record { address = 10; payload = some (8 ∷ []); payload_len = 1 })
    ∷ bytes_asked 2 [] (some (0 ∷ 0 ∷ []))
    ∷ []

abbrev end_played : Living steady
end_played = happen_all steady played (record {
  client = living.client;
  backend = Backend.initial;
  opusdec = 0;
  pcm_decbuf = fresh_decbuf;
})

living-IsWithin_example :
    IsWithin steady end_played.pcm_decbuf end_played.client.playback_queue
    × AllInside steady ((9 ∷ []) ∷ []) end_played.opusdec end_played.pcm_decbuf
unfolding create connect after_attempt create_receiver create_session init_rtp create_stream
    install_receive_hook Rtp.fresh
living-IsWithin_example =
    living-IsWithin steady steady-DecodesInPlace (λ n. false) working ("::1", 7981) ("::1", 8179)
      hook true default_policy world
      (record world { log = (create_receiver working ("::1", 7981) ("::1", 8179) hook []).1 })
      living.client 0 played ((9 ∷ []) ∷ []) refl
