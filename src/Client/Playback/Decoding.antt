-- ===== src/Client/Playback/Decoding.antt =====
-- A decoder on one run of frames after another (src/client.cpp).
use audpipe_cpp.Prelude.{ℕ, ◌≡◌, refl, sym, ap, ◌∙◌, List, [], ◌∷◌, ◌++◌, append_assoc}
use audpipe_cpp.Client.Playback.{Opus, pcm_bytes}
use audpipe_cpp.Client.Playback.Delivery.{decoded, decoder_after}

module _ (lib : Opus) where
  -- A run of packets is decoded as its parts are, one behind the other.
  pub decoded-append :
      (xs ys : List (List ℕ)) (dec : lib.Decoder) (buf : List ℕ)
      → let (dec', buf') = decoder_after lib xs dec buf in
        decoded lib (xs ++ ys) dec buf ≡ decoded lib xs dec buf ++ decoded lib ys dec' buf'
  decoded-append [] ys dec buf = refl
  decoded-append (x ∷ xs) ys dec buf =
      let (dec1, samples, buf1) = lib.decode dec x buf in
      let (dec2, buf2) = decoder_after lib xs dec1 buf1 in
      let pcm = pcm_bytes lib samples buf1 in
      ap (λ rest. pcm ++ rest) (decoded-append xs ys dec1 buf1)
      ∙ sym (append_assoc pcm (decoded lib xs dec1 buf1) (decoded lib ys dec2 buf2))

  pub decoder_after-append :
      (xs ys : List (List ℕ)) (dec : lib.Decoder) (buf : List ℕ)
      → let (dec', buf') = decoder_after lib xs dec buf in
        decoder_after lib (xs ++ ys) dec buf ≡ decoder_after lib ys dec' buf'
  decoder_after-append [] ys dec buf = refl
  decoder_after-append (x ∷ xs) ys dec buf =
      let (dec1, samples, buf1) = lib.decode dec x buf in decoder_after-append xs ys dec1 buf1
