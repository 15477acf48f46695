-- ===== src/Config/Ports.antt =====
-- What a `Config` that was constructed guarantees (src/config.cpp).
use audpipe_cpp.Prelude.{
  ℕ, String, ◌^◌, ◌≤◌, ◌<◌, ◌≡◌, ◌↔◌, Option, none, some, ℤ, pos, negsuc, cast_u16, cast_u32,
  cast_u16-lt, cast_u32-lt, cast_u16-pos, ok, arith, >>=-returned,
}
use audpipe_cpp.Config.Environment.{Toml, Host, FilePath}
use audpipe_cpp.Config.{
  Mode, Config, ConnectionPolicy, default_policy, validate_port, overwrite, read_retries,
  set_timeouts, set_intervals, read_keys, read_net, read_connection, read_remote, read_local,
  create,
}

-- `validate_port` accepts exactly the integers from 1024 to 65535, and its cast keeps them.
validate_port_iff :
    (z : ℤ) (n : ℕ) → (validate_port z ≡ ok n) ↔ ((z ≡ pos n) × (1024 ≤ n) × (n ≤ 65535))
unfolding validate_port
validate_port_iff (pos k) n =
    (λ h. ground (arith, cast_u16-pos k), λ h. ground (arith, cast_u16-pos n))
validate_port_iff (negsuc k) n = (λ h. ground arith, λ h. ground arith)

abbrev pub IsPort : ℕ → Type 0
IsPort n = (1024 ≤ n) × (n ≤ 65535)

validate_port-IsPort : (z : ℤ) {n : ℕ} → validate_port z ≡ ok n → IsPort n
validate_port-IsPort z {n} e = let found = (validate_port_iff z n).0 e in (found.1, found.2)

pub record InRange (p : ConnectionPolicy) : Type 0 where
  pub connect_timeout : p.connect_timeout_ms < 2 ^ 32
  pub handshake_timeout : p.handshake_timeout_ms < 2 ^ 32
  pub some_retry : 1 ≤ p.max_retries
  pub retries : p.max_retries < 2 ^ 16
  pub retry_backoff : p.retry_backoff_ms < 2 ^ 32
  pub max_backoff : p.max_backoff_ms < 2 ^ 32
  pub keepalive : p.keepalive_interval_ms < 2 ^ 32
  pub failures : p.unreachable_after_failures < 2 ^ 16

overwrite_u32-lt : (o : Option ℤ) (d : ℕ) → d < 2 ^ 32 → overwrite o cast_u32 d < 2 ^ 32
unfolding overwrite
overwrite_u32-lt none d h = h
overwrite_u32-lt (some z) d h = cast_u32-lt z

overwrite_u16-lt : (o : Option ℤ) (d : ℕ) → d < 2 ^ 16 → overwrite o cast_u16 d < 2 ^ 16
unfolding overwrite
overwrite_u16-lt none d h = h
overwrite_u16-lt (some z) d h = cast_u16-lt z

read_retries-InRange :
    (o : Option ℤ) (p : ConnectionPolicy) {q : ConnectionPolicy}
    → InRange p
    → read_retries o p ≡ ok q
    → InRange q
unfolding read_retries
read_retries-InRange none p v h = ground arith
read_retries-InRange (some z) p v h = ground (arith, cast_u16-lt z)

module _ (key : String → Option ℤ) where
  set_timeouts-InRange : (p : ConnectionPolicy) → InRange p → InRange (set_timeouts key p)
  unfolding set_timeouts
  set_timeouts-InRange p v = grind (arith, overwrite_u32-lt)

  set_intervals-InRange : (p : ConnectionPolicy) → InRange p → InRange (set_intervals key p)
  unfolding set_intervals
  set_intervals-InRange p v = grind (arith, overwrite_u32-lt, overwrite_u16-lt)

  pub read_keys-InRange : {p : ConnectionPolicy} → read_keys key ≡ ok p → InRange p
  unfolding read_keys
  read_keys-InRange e =
      let (q, retried, rest) = >>=-returned (read_retries (key "max_retries") _) _ e in
      let before = set_timeouts-InRange default_policy (omega arith) in
      ground (arith, set_intervals-InRange q (read_retries-InRange _ _ before retried))

module _ (h : Host) (t : Toml) where
  read_connection-InRange :
      (table : t.Table) {p : ConnectionPolicy} → read_connection h t table ≡ ok p → InRange p
  unfolding read_connection read_net
  read_connection-InRange table {p} e =
      ground (arith, read_keys-InRange (λ name. t.value_exact_int (t.node_at net name)) {p = p})
    where
      net : t.Node
      net = t.table_at table "net"

  read_remote-IsPort :
      (table : t.Table) (m : Mode) {r : String × ℕ} → read_remote h t table m ≡ ok r → IsPort r.1
  unfolding read_remote
  read_remote-IsPort table m e = grind (arith, validate_port-IsPort)

  read_local-IsPort :
      (table : t.Table) (m : Mode) {r : String × ℕ} → read_local h t table m ≡ ok r → IsPort r.1
  unfolding read_local
  read_local-IsPort table m e = grind (arith, validate_port-IsPort)

pub record IsValid (c : Config) : Type 0 where
  pub remote_port : IsPort c.remote_port
  pub local_port : IsPort c.local_port
  pub connection : InRange c.connection
  pub keys : c.keys_dir ≡ c.config_dir

-- A `Config` that was constructed has both ports from 1024 to 65535, at least one connection attempt,
-- a policy that fits its integer widths, and its keys beside the configuration file.
pub create-IsValid :
    (h : Host) (t : Toml) (path : FilePath) (m : Mode) {c : Config}
    → create h t path m ≡ ok c
    → IsValid c
unfolding create
create-IsValid h t path m e =
    grind (arith, read_connection-InRange, read_remote-IsPort, read_local-IsPort)
