-- ===== src/Config/Policy.antt =====
-- The `[net]` section of the configuration (src/config.cpp), and its narrowing casts.
use audpipe_cpp.Prelude.{
  ℕ, String, ◌%◌, ◌^◌, ◌<◌, ◌≤◌, ◌≡◌, ◌≢◌, ◌⊎◌, inl, inr, refl, ℕ_discrete, Option, none, some, ℤ,
  pos, negsuc, cast_u16, cast_u32, cast_u16-pos, cast_u32-pos, ok, err, arith,
}
use audpipe_cpp.Config.{
  ConnectionPolicy, default_policy, zero_retries, overwrite, read_retries, set_timeouts,
  set_intervals, read_keys,
}

-- A key that is absent or whose integer is below the bound of its field.
abbrev pub Fits : ℕ → Option ℤ → Type 0
Fits bound none = Unit {0}
Fits bound (some (pos n)) = n < bound
Fits bound (some (negsuc n)) = ⊥

-- The integer of a key, or the default.
abbrev pub given : Option ℤ → ℕ → ℕ
given none d = d
given (some (pos n)) d = n
given (some (negsuc n)) d = d

overwrite_u32-given : (o : Option ℤ) (d : ℕ) → Fits (2 ^ 32) o → overwrite o cast_u32 d ≡ given o d
unfolding overwrite
overwrite_u32-given none d f = ground arith
overwrite_u32-given (some (pos n)) d f = cast_u32-pos n f
overwrite_u32-given (some (negsuc n)) d f = absurd f

overwrite_u16-given : (o : Option ℤ) (d : ℕ) → Fits (2 ^ 16) o → overwrite o cast_u16 d ≡ given o d
unfolding overwrite
overwrite_u16-given none d f = ground arith
overwrite_u16-given (some (pos n)) d f = cast_u16-pos n f
overwrite_u16-given (some (negsuc n)) d f = absurd f

read_retries-given :
    (o : Option ℤ) (p : ConnectionPolicy)
    → Fits (2 ^ 16) o
    → 1 ≤ given o p.max_retries
    → read_retries o p ≡ ok (record p { max_retries = given o p.max_retries })
unfolding read_retries
read_retries-given none p f h = ground arith
read_retries-given (some (pos n)) p f h = ground (arith, cast_u16-pos n)
read_retries-given (some (negsuc n)) p f h = absurd f

module _ (key : String → Option ℤ) where
  -- Every key of `[net]` is absent or fits its field.
  pub record AllFit : Type 0 where
    pub connect_timeout : Fits (2 ^ 32) (key "connect_timeout_ms")
    pub handshake_timeout : Fits (2 ^ 32) (key "handshake_timeout_ms")
    pub retries : Fits (2 ^ 16) (key "max_retries")
    pub some_retry : 1 ≤ given (key "max_retries") 3
    pub retry_backoff : Fits (2 ^ 32) (key "retry_backoff_ms")
    pub max_backoff : Fits (2 ^ 32) (key "max_backoff_ms")
    pub keepalive : Fits (2 ^ 32) (key "keepalive_interval_ms")
    pub failures : Fits (2 ^ 16) (key "unreachable_after_failures")

  -- The policy that the file asks for, written out.
  abbrev pub asked : ConnectionPolicy
  asked = record {
    connect_timeout_ms = given (key "connect_timeout_ms") 5000;
    handshake_timeout_ms = given (key "handshake_timeout_ms") 3000;
    max_retries = given (key "max_retries") 3;
    retry_backoff_ms = given (key "retry_backoff_ms") 2000;
    max_backoff_ms = given (key "max_backoff_ms") 30000;
    keepalive_interval_ms = given (key "keepalive_interval_ms") 20000;
    unreachable_after_failures = given (key "unreachable_after_failures") 3;
  }

  -- Where every key of `[net]` is absent or fits its field, and `max_retries` is not 0, the policy
  -- holds the integers of the file and the documented defaults for the rest.
  read_keys-asked : AllFit → read_keys key ≡ ok asked
  unfolding read_keys set_timeouts set_intervals
  read_keys-asked v = simp (
    overwrite_u32-given _ _ v.connect_timeout,
    overwrite_u32-given _ _ v.handshake_timeout,
    read_retries-given _
        (record default_policy {
          connect_timeout_ms = given (key "connect_timeout_ms") 5000;
          handshake_timeout_ms = given (key "handshake_timeout_ms") 3000;
        })
        v.retries v.some_retry,
    overwrite_u32-given _ _ v.retry_backoff,
    overwrite_u32-given _ _ v.max_backoff,
    overwrite_u32-given _ _ v.keepalive,
    overwrite_u16-given _ _ v.failures,
  )

  -- A `max_retries` of any size is first cut to 16 bits and then tested: a multiple of 65536 is
  -- refused as 0, and any other number is accepted as its remainder.
  pub max_retries_narrowed :
      (n : ℕ)
      → key "max_retries" ≡ some (pos n)
      → ((n % 65536 ≡ 0) × (read_keys key ≡ err zero_retries))
        ⊎ ((p : ConnectionPolicy) × (n % 65536 ≢ 0)
            × (read_keys key ≡ ok p)
            × (p.max_retries ≡ n % 65536))
  unfolding read_keys read_retries set_timeouts set_intervals cast_u16
  max_retries_narrowed n e = elim (ℕ_discrete (n % 65536) 0) [
    | yes z ↦ inl (z, ground arith)
    | no nz ↦ inr (
      set_intervals key (record (set_timeouts key default_policy) { max_retries = n % 65536 }),
      nz,
      ground arith,
      refl,
    )
  ]
