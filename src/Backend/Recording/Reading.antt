-- ===== src/Backend/Recording/Reading.antt =====
-- What the read callback hands on (src/audio/pulseaudio_callbacks.cpp).
use audpipe_cpp.Prelude.{
  ℕ, ◌+◌, ◌≡◌, sym, ◌∙◌, List, [], ◌∷◌, ◌++◌, append_assoc, append-nil, length, arith,
}
use audpipe_cpp.Backend.Recording.{Peek, peek_failed, nothing, hole, bytes_at, Read, stream_read_cb}

-- What stands in the buffer before its end or an error: the fragments with bytes, and the holes.
abbrev pub standing : List Peek → List (List ℕ)
standing [] = []
standing (peek_failed ∷ peeks) = []
standing (nothing ∷ peeks) = []
standing (bytes_at [] ∷ peeks) = []
standing (hole ∷ peeks) = [] ∷ standing peeks
standing (bytes_at (b ∷ bytes) ∷ peeks) = (b ∷ bytes) ∷ standing peeks

abbrev pub filled : List (List ℕ) → List (List ℕ)
filled [] = []
filled ([] ∷ rest) = filled rest
filled ((b ∷ bytes) ∷ rest) = (b ∷ bytes) ∷ filled rest

-- The callback hands on the fragments that stand in the buffer, in order, without the holes, and drops
-- each of them and each hole once.
stream_read_cb_lem :
    (peeks : List Peek) (r : Read)
    → let r' = stream_read_cb peeks r in
      (r'.fragments ≡ r.fragments ++ filled (standing peeks))
      × (r'.drops ≡ r.drops + length (standing peeks))
unfolding stream_read_cb
stream_read_cb_lem [] r = (sym (append-nil r.fragments), omega arith)
stream_read_cb_lem (peek_failed ∷ peeks) r = (sym (append-nil r.fragments), omega arith)
stream_read_cb_lem (nothing ∷ peeks) r = (sym (append-nil r.fragments), omega arith)
stream_read_cb_lem (bytes_at [] ∷ peeks) r = (sym (append-nil r.fragments), omega arith)
stream_read_cb_lem (hole ∷ peeks) r =
    let (same, count) = stream_read_cb_lem peeks (record r { drops = r.drops + 1 }) in
    (same, omega (arith, count))
stream_read_cb_lem (bytes_at (b ∷ bytes) ∷ peeks) r =
    let next : Read = record { fragments = r.fragments ++ (b ∷ bytes) ∷ []; drops = r.drops + 1 } in
    let (same, count) = stream_read_cb_lem peeks next in
    (
      same ∙ append_assoc r.fragments ((b ∷ bytes) ∷ []) (filled (standing peeks)),
      omega (arith, count),
    )
