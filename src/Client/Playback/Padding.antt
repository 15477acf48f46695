-- ===== src/Client/Playback/Padding.antt =====
-- The write callback of the client behind a stream that takes bytes (src/client.cpp and
-- src/audio/pulseaudio_callbacks.cpp).
use audpipe_cpp.Prelude.{
  ℕ, zero, suc, ◌-◌, ◌≡◌, ◌≢◌, sym, ap, ◌∙◌, true, false, ◌==◌, Option, none, some, List, ◌++◌,
  length-replicate, drop, take-append-drop, replicate, arith,
}
use audpipe_cpp.Backend.{Backend}
use audpipe_cpp.Backend.StreamWrite.{WriteCallback, stream_write_cb}
use audpipe_cpp.Client.State.{Client}
use audpipe_cpp.Client.Playback.{Opus, Playing, write_callback}
use audpipe_cpp.Client.Playback.Buffer.{delivered}
use audpipe_cpp.Client.Playback.Callback.{Played, write_callback-Played}
use audpipe_cpp.Client.Playback.Untouched.{write_callback-IsBehind}

drop-replicate : (n w : ℕ) → drop {A = ℕ} w (replicate n 0) ≡ replicate (n - w) 0
drop-replicate n zero = ap (λ k. replicate k 0) {x = n} {y = n - 0} (omega arith)
drop-replicate zero (suc w) = ap (λ k. replicate k 0) {x = 0} {y = 0 - suc w} (omega arith)
drop-replicate (suc n) (suc w) =
    drop-replicate n w ∙ ap (λ k. replicate k 0) {x = n - w} {y = suc n - suc w} (omega arith)

nonzero : (n : ℕ) → n ≢ 0 → (n == 0) ≡ false
nonzero n h = ground arith

module _ (lib : Opus) (arrivals : List (List (List ℕ))) (dec : lib.Decoder) (buf : List ℕ)
    (c : Client) where
  abbrev pub buffer_after : List ℕ → Option (Playing lib × Client) → List ℕ × ℕ
  buffer_after dst none = (dst, 0)
  buffer_after dst (some (end, c')) = (end.output.dst, end.output.written)

  -- The write callback that the client installs.
  abbrev pub installed : WriteCallback
  installed dst max_len =
      buffer_after dst (write_callback lib max_len arrivals (some dst) dec buf c)

  -- A stream that can take `nbytes`, not 0, and accepts them, gets of a running client the bytes that its
  -- write callback delivers, and then silence for the rest of the `nbytes`.
  stream_write_padded :
      (nbytes : ℕ) (b : Backend) (stream : List ℕ)
      → nbytes ≢ 0
      → c.should_stop ≡ false
      → c.healthy ≡ true
      → (end : Playing lib) × (c' : Client) × Played lib nbytes arrivals
          (replicate nbytes 0)
          dec
          buf
          c
          end
          c'
        × (stream_write_cb (some installed) nbytes true (b, stream)
            ≡ (b, stream ++ (delivered end.output ++ replicate (nbytes - end.output.written) 0)))
  unfolding stream_write_cb
  stream_write_padded nbytes b stream positive going healthy =
      let dst : List ℕ = replicate nbytes 0 in
      let (end, c', returned, played) =
        write_callback-Played lib nbytes arrivals dst dec buf c going healthy positive
          (omega (arith, length-replicate {A = ℕ} nbytes 0)) in
      let (after, untouched) =
        write_callback-IsBehind lib nbytes arrivals dst dec buf c c' end returned in
      let w = end.output.written in
      let silence : drop w end.output.dst ≡ replicate (nbytes - w) 0 =
        untouched ∙ drop-replicate nbytes w in
      let whole : end.output.dst ≡ delivered end.output ++ replicate (nbytes - w) 0 =
        sym (take-append-drop w end.output.dst)
        ∙ ap (λ rest. delivered end.output ++ rest) silence in
      (
        end,
        c',
        played,
        rw (nonzero nbytes positive) (
            ap (λ r. (b, stream ++ (buffer_after dst r).0)) returned
            ∙ ap (λ bytes. (b, stream ++ bytes)) whole),
      )
