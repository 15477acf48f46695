-- ===== src/Client/Connect/Backoff.antt =====
-- The wait between two connection attempts (src/client.cpp).
use audpipe_cpp.Prelude.{ℕ, zero, suc, ◌+◌, ◌-◌, ◌≤◌, ◌<◌, ◌≡◌, ◌⊎◌, inl, Bool, true, ap, arith}
use audpipe_cpp.Client.Connect.{wait, back_off}

module _ (shutdown : ℕ → Bool) where
  -- How a wait ended: the time was up, or the last read of the flag found a shutdown.
  abbrev pub Ended : ℕ → ℕ × ℕ → Type 0
  Ended backoff (waited, reads) = (backoff ≤ waited) ⊎ ((1 ≤ reads) × (shutdown (reads - 1) ≡ true))

  wait_lem :
      (fuel backoff waited reads : ℕ)
      → backoff < waited + fuel
      → waited < backoff + 100
      → let out = wait shutdown fuel backoff waited reads in
        (out.0 < backoff + 100) × Ended backoff out
  unfolding wait
  wait_lem zero backoff waited reads h k = (omega arith, inl (omega arith))
  wait_lem (suc fuel) backoff waited reads h k =
      let last : reads + 1 - 1 ≡ reads = omega arith in
      ground (arith, ap shutdown last, wait_lem fuel backoff (waited + 100) (reads + 1))

  -- The wait ends: it lasts less than one poll step longer than the backoff, and at least as long as
  -- the backoff unless its last read of the flag found a shutdown.
  back_off_lem :
      (backoff reads : ℕ)
      → let out = back_off shutdown backoff reads in (out.0 < backoff + 100) × Ended backoff out
  unfolding back_off
  back_off_lem backoff reads = wait_lem (suc backoff) backoff 0 reads (omega arith) (omega arith)
