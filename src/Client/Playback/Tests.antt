-- ===== src/Client/Playback/Tests.antt =====
-- The write callback of src/client.cpp at a concrete decoder.
use audpipe_cpp.Prelude.{ℕ, zero, suc, ◌+◌, ◌≡◌, refl, some, List, [], ◌∷◌, ℤ, pos, negsuc, arith}
use audpipe_cpp.Config.{default_policy}
use audpipe_cpp.Client.State.{Client, fresh}
use audpipe_cpp.Client.Playback.{
  Opus, Playing, drain, drain_queue, decode_frame, fill, write_callback,
}
use audpipe_cpp.Client.Playback.Callback.{Played, write_callback-Played}

-- A decoder of one sample per payload byte, which refuses the payload 9.
abbrev decode_byte : ℕ → List ℕ → List ℕ → ℕ × ℤ × List ℕ
decode_byte n [] buf = (n, negsuc 3, buf)
decode_byte n (zero ∷ rest) buf = (n + 1, negsuc 3, buf)
decode_byte n (suc b ∷ rest) buf = (n + 1, pos 1, b ∷ b ∷ b ∷ b ∷ [])

abbrev opus : Opus
opus = record { Decoder = ℕ; decode = decode_byte }

abbrev queued : Client
queued = record (fresh default_policy) {
  playback_queue = 7 ∷ [];
  compressed_queue = (1 ∷ []) ∷ (0 ∷ []) ∷ (2 ∷ []) ∷ [];
}

-- Six bytes: the one that waits, four of a frame, none of the frame that does not decode, and one of
-- the last, whose other three wait.
write_six :
    write_callback opus 6 [] (some (0 ∷ 0 ∷ 0 ∷ 0 ∷ 0 ∷ 0 ∷ [])) 0 [] queued
    ≡ some (
      record {
        output = record { dst = 7 ∷ 0 ∷ 0 ∷ 0 ∷ 0 ∷ 1 ∷ []; written = 6 };
        playback_queue = 1 ∷ 1 ∷ 1 ∷ [];
        opusdec = 3;
        pcm_decbuf = 1 ∷ 1 ∷ 1 ∷ 1 ∷ [];
      },
      record queued { playback_queue = 1 ∷ 1 ∷ 1 ∷ []; compressed_queue = [] },
    )
unfolding write_callback fill decode_frame drain_queue drain
write_six = refl

abbrev start : Playing opus
start = record {
  output = record { dst = 0 ∷ 0 ∷ 0 ∷ 0 ∷ 0 ∷ 0 ∷ []; written = 0 };
  playback_queue = 7 ∷ [];
  opusdec = 0;
  pcm_decbuf = [];
}

-- One frame is queued and another arrives while the callback runs.
abbrev arriving : List (List (List ℕ))
arriving = [] ∷ ((2 ∷ []) ∷ []) ∷ []

abbrev buffer : List ℕ
buffer = 0 ∷ 0 ∷ 0 ∷ 0 ∷ 0 ∷ 0 ∷ []

write_callback-Played_example :
    (end : Playing opus) × (c : Client) × (write_callback opus 6 arriving (some buffer) 0 [] queued
      ≡ some (end, c))
    × Played opus 6 arriving buffer 0 [] queued end c
write_callback-Played_example =
    write_callback-Played opus 6 arriving buffer 0 [] queued refl refl (omega arith) (omega arith)
