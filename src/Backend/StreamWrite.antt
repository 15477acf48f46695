-- ===== src/Backend/StreamWrite.antt =====
-- `PulseaudioBackend::stream_write_cb` (src/audio/pulseaudio_callbacks.cpp), which is handed a stream that
-- can take bytes.
use audpipe_cpp.Prelude.{
  ℕ, Bool, false, ◌==◌, if◌then◌else◌, Option, none, some, List, ◌++◌, replicate,
}
use audpipe_cpp.Backend.{Backend}

-- A write callback gets a buffer and its size, and gives the buffer and how many bytes it wrote.
abbrev pub WriteCallback : Type 0
WriteCallback = List ℕ → ℕ → List ℕ × ℕ

-- The zeros that the callback, if there is one, writes over. What it wrote is only logged.
abbrev pub pcm : Option WriteCallback → ℕ → List ℕ
pcm none nbytes = replicate nbytes 0
pcm (some write_callback) nbytes = (write_callback (replicate nbytes 0) nbytes).0

-- `accepts` tells whether `pa_stream_write` succeeds; the bytes of the stream are oldest first.
unfoldable pub stream_write_cb :
    Option WriteCallback → (nbytes : ℕ) → (accepts : Bool) → Backend × List ℕ → Backend × List ℕ
stream_write_cb callback nbytes accepts (b, stream) =
    if nbytes == 0
    then (b, stream)
    else (if accepts
        then (b, stream ++ pcm callback nbytes)
        else (record b { playback = false }, stream))

-- `pa_ctx_success_cb`
unfoldable pub pa_ctx_success_cb : (success : ℕ) → (out : ℕ) → ℕ
pa_ctx_success_cb success out = success
