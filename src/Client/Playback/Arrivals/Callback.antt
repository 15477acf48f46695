-- ===== src/Client/Playback/Arrivals/Callback.antt =====
-- The write callback of the client, with the frames that come while it runs (src/client.cpp).
use audpipe_cpp.Prelude.{ℕ, ◌≤◌, ◌≡◌, ◌≢◌, refl, true, false, some, List, ◌++◌, length, arith}
use audpipe_cpp.Client.State.{Client}
use audpipe_cpp.Client.Playback.{Opus, Playing, fill, write_callback}
use audpipe_cpp.Client.Playback.Buffer.{delivered}
use audpipe_cpp.Client.Playback.Delivery.{decoded, decoder_after}
use audpipe_cpp.Client.Playback.Starvation.{IsFilled, fill-IsFilled}
use audpipe_cpp.Client.Playback.Arrivals.{all_of, came, came-short, fill-Takes}

module _ (lib : Opus) (max_len : ℕ) (arrivals : List (List (List ℕ))) (dst : List ℕ)
    (dec : lib.Decoder) (buf : List ℕ) (c : Client) where
  abbrev at_start : Playing lib
  at_start = record {
    output = record { dst = dst; written = 0 };
    playback_queue = c.playback_queue;
    opusdec = dec;
    pcm_decbuf = buf;
  }

  -- The frames that come during the call.
  unfoldable pub came_during : List (List ℕ)
  came_during = came lib max_len arrivals c.compressed_queue at_start

  pub came_during-short : length came_during ≤ length (all_of arrivals)
  unfolding came_during
  came_during-short = came-short lib max_len arrivals c.compressed_queue at_start

  -- What a call that plays has done with the frames that waited and those that came.
  pub record Hears (end : Playing lib) (c' : Client) : Type 0 where
    pub filled : IsFilled lib max_len (end, c'.compressed_queue)
    pub kept : end.playback_queue ≡ c'.playback_queue
    pub taken : List (List ℕ)
    pub in_order : taken ++ c'.compressed_queue ≡ c.compressed_queue ++ came_during
    pub heard :
        delivered end.output ++ c'.playback_queue ≡ c.playback_queue ++ decoded lib taken dec buf
    pub decoder : (end.opusdec, end.pcm_decbuf) ≡ decoder_after lib taken dec buf
    pub others :
        c' ≡ record c { playback_queue = c'.playback_queue; compressed_queue = c'.compressed_queue }

  -- A running client whose queue has room for all that may come.
  pub write_callback-Hears :
      c.should_stop ≡ false
      → c.healthy ≡ true
      → max_len ≢ 0
      → max_len ≤ length dst
      → length (c.compressed_queue ++ all_of arrivals) ≤ 256
      → (end : Playing lib) × (c' : Client) × (write_callback lib max_len arrivals
            (some dst)
            dec
            buf
            c
          ≡ some (end, c'))
        × Hears end c'
  unfolding write_callback came_during
  write_callback-Hears going healthy positive fits room =
      let (taken, v, in_order) =
        fill-Takes lib max_len arrivals c.compressed_queue at_start (omega arith) room in
      let (end, queue) = fill lib max_len arrivals c.compressed_queue at_start in
      (
        end,
        record c { playback_queue = end.playback_queue; compressed_queue = queue },
        ground arith,
        record {
          filled = fill-IsFilled lib max_len arrivals c.compressed_queue at_start (omega arith);
          kept = refl;
          taken = taken;
          in_order = in_order;
          heard = v.bytes;
          decoder = v.decoder;
          others = refl;
        },
      )
