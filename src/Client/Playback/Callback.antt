-- ===== src/Client/Playback/Callback.antt =====
-- The write callback of the client as a whole (src/client.cpp).
use audpipe_cpp.Prelude.{
  ℕ, ◌≤◌, ◌≡◌, ◌≢◌, refl, ◌⊎◌, true, false, List, ◌++◌, length, arith, none, some,
}
use audpipe_cpp.Client.State.{Client}
use audpipe_cpp.Client.Playback.{Opus, Playing, fill, write_callback}
use audpipe_cpp.Client.Playback.Buffer.{delivered}
use audpipe_cpp.Client.Playback.Delivery.{decoded, decoder_after, rounds, fill-Delivers}
use audpipe_cpp.Client.Playback.Starvation.{IsFilled, fill-IsFilled}

module _ (lib : Opus) (max_len : ℕ) (arrivals : List (List (List ℕ))) (dst : List ℕ)
    (dec : lib.Decoder) (buf : List ℕ) (c : Client) where
  -- What a call that plays has done: the buffer is full or the queues are empty, and for some number
  -- of rounds the bytes written, then those left in the playback queue, are the bytes that were there
  -- and then the decoded bytes of the frames that these rounds took; the decoder has decoded these
  -- frames, and the other members are untouched.
  pub record Played (end : Playing lib) (c' : Client) : Type 0 where
    pub filled : IsFilled lib max_len (end, c'.compressed_queue)
    pub kept : end.playback_queue ≡ c'.playback_queue
    pub count : ℕ
    pub left : c'.compressed_queue ≡ (rounds lib count arrivals c.compressed_queue).1
    pub heard :
        delivered end.output ++ c'.playback_queue
        ≡ c.playback_queue ++ decoded lib (rounds lib count arrivals c.compressed_queue).0 dec buf
    pub decoder :
        (end.opusdec, end.pcm_decbuf)
        ≡ decoder_after lib (rounds lib count arrivals c.compressed_queue).0 dec buf
    pub others :
        c' ≡ record c { playback_queue = c'.playback_queue; compressed_queue = c'.compressed_queue }

  -- A client that is running plays into any buffer of at least `max_len` bytes, where `max_len` is not
  -- 0: the call returns, and has done what `Played` says.
  pub write_callback-Played :
      c.should_stop ≡ false
      → c.healthy ≡ true
      → max_len ≢ 0
      → max_len ≤ length dst
      → (end : Playing lib) × (c' : Client) × (write_callback lib max_len arrivals
            (some dst)
            dec
            buf
            c
          ≡ some (end, c'))
        × Played end c'
  unfolding write_callback
  write_callback-Played going healthy positive room =
      let start : Playing lib = record {
        output = record { dst = dst; written = 0 };
        playback_queue = c.playback_queue;
        opusdec = dec;
        pcm_decbuf = buf;
      } in
      let (n, v) = fill-Delivers lib max_len arrivals c.compressed_queue start (omega arith) in
      let (end, queue) = fill lib max_len arrivals c.compressed_queue start in
      let full = fill-IsFilled lib max_len arrivals c.compressed_queue start (omega arith) in
      (
        end,
        record c { playback_queue = end.playback_queue; compressed_queue = queue },
        ground arith,
        record {
          filled = full;
          kept = refl;
          count = n;
          left = v.left;
          heard = v.bytes;
          decoder = v.decoder;
          others = refl;
        },
      )

  -- A client that is stopping or has failed plays nothing, and its queues stay as they are.
  write_callback_silent :
      (c.should_stop ≡ true) ⊎ (c.healthy ≡ false)
      → write_callback lib max_len arrivals (some dst) dec buf c ≡ none
  unfolding write_callback
  write_callback_silent h = ground arith
