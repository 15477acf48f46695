-- ===== src/Config.antt =====
-- include/config.hxx and src/config.cpp: the mode, the connection policy and the `Config` object.
-- toml++, the resolver and the file system are parameters; a thrown exception is an `err`.
pub mod Environment
pub mod Policy
pub mod File
pub mod Ports
pub mod Mirror
pub mod Sample
mod Tests
use audpipe_cpp.Prelude.{
  ℕ, String, Bool, true, false, not, ◌&&◌, ◌||◌, ◌==◌, if◌then◌else◌, Option, none, some, List, [],
  ◌∷◌, ◌++◌, ℤ, pos, ltb_ℤ, cast_u16, cast_u32, Result, ok, err, ◌>>=◌, ◌>>◌, guard, or_throw,
}
use Environment.{Toml, Host, Address, inet6, inet, FilePath, parent_path}

pub data Mode : Type 0 where
  client server : Mode

-- The opposing mode, whose table gives the remote connection details.
pub remote : Mode → Mode
remote client = server
remote server = client

pub mode_to_str : Mode → String
mode_to_str client = "client"
mode_to_str server = "server"

pub record ConnectionPolicy : Type 0 where
  pub connect_timeout_ms : ℕ
  pub handshake_timeout_ms : ℕ
  pub max_retries : ℕ
  pub retry_backoff_ms : ℕ
  pub max_backoff_ms : ℕ
  pub keepalive_interval_ms : ℕ
  pub unreachable_after_failures : ℕ

-- The member initialisers of `ConnectionPolicy`.
abbrev pub default_policy : ConnectionPolicy
default_policy = record {
  connect_timeout_ms = 5000;
  handshake_timeout_ms = 3000;
  max_retries = 3;
  retry_backoff_ms = 2000;
  max_backoff_ms = 30000;
  keepalive_interval_ms = 20000;
  unreachable_after_failures = 3;
}

abbrev pub default_local_port : ℕ
default_local_port = 8891

abbrev pub default_local_ip : String
default_local_ip = "localhost"

pub record Config : Type 0 where
  pub local_ip : String
  pub remote_ip : String
  pub remote_port : ℕ
  pub local_port : ℕ
  pub connection : ConnectionPolicy
  pub config_dir : FilePath
  pub keys_dir : FilePath

pub data Error : Type 0 where
  no_such_path unreadable null_text parse_error zero_retries : Error
  missing_table missing_ip missing_port : Mode → Error
  lookup_failed : String → Error
  bad_port : ℤ → Error

-- `Config::validate_port`
pub validate_port : ℤ → Result Error ℕ
validate_port port =
    if ltb_ℤ port (pos 1024) || ltb_ℤ (pos 65535) port
    then err (bad_port port)
    else ok (cast_u16 port)

-- `if (value.has_value()) field = static_cast<...>(value.value());`
pub overwrite : Option ℤ → (ℤ → ℕ) → ℕ → ℕ
overwrite none cast field = field
overwrite (some z) cast field = cast z

-- The `max_retries` key, the only one that is checked.
pub read_retries : Option ℤ → ConnectionPolicy → Result Error ConnectionPolicy
read_retries none p = ok p
read_retries (some z) p =
    let q : ConnectionPolicy = record p { max_retries = cast_u16 z } in
    if q.max_retries == 0 then err zero_retries else ok q

-- The keys before `max_retries`, and those behind it; `key` is `connection_table[name]` read by
-- `value_exact<int64_t>`.
pub set_timeouts : (String → Option ℤ) → ConnectionPolicy → ConnectionPolicy
set_timeouts key p = record p {
  connect_timeout_ms = overwrite (key "connect_timeout_ms") cast_u32 p.connect_timeout_ms;
  handshake_timeout_ms = overwrite (key "handshake_timeout_ms") cast_u32 p.handshake_timeout_ms;
}

pub set_intervals : (String → Option ℤ) → ConnectionPolicy → ConnectionPolicy
set_intervals key p = record p {
  retry_backoff_ms = overwrite (key "retry_backoff_ms") cast_u32 p.retry_backoff_ms;
  max_backoff_ms = overwrite (key "max_backoff_ms") cast_u32 p.max_backoff_ms;
  keepalive_interval_ms = overwrite (key "keepalive_interval_ms") cast_u32 p.keepalive_interval_ms;
  unreachable_after_failures =
      overwrite (key "unreachable_after_failures") cast_u16 p.unreachable_after_failures;
}

-- The `[net]` section, its keys in the order of the source.
pub read_keys : (String → Option ℤ) → Result Error ConnectionPolicy
unfolding set_timeouts set_intervals
read_keys key = do
  p ← read_retries (key "max_retries") (set_timeouts key default_policy)
  ok (set_intervals key p)

-- The bytes of a C string: all before the first NUL.
pub until_nul : List ℕ → List ℕ
until_nul [] = []
until_nul (x ∷ xs) = if x == 0 then [] else x ∷ until_nul xs

module _ (h : Host) where
  open h use {canonical, read, behind, getaddrinfo, inet_ntop6, inet_ntop4}

  -- `Config::validate_ip`
  pub validate_ip : String → Result Error String
  validate_ip s = elim (getaddrinfo s) [
    | none ↦ err (lookup_failed s)
    | some (inet6 sin6_addr) ↦ ok (inet_ntop6 sin6_addr)
    | some (inet sin_addr) ↦ ok (inet_ntop4 sin_addr)
  ]

  -- `std::string` of the pointer of a vector, with the bytes behind it.
  abbrev pub c_string : List ℕ → List ℕ → Result Error (List ℕ)
  c_string [] after = err null_text
  c_string (c ∷ contents) after = ok (until_nul (c ∷ contents ++ after))

  -- `Config::file_to_str`. The text is made from `config_contents.data()`, a pointer with no
  -- length, so it ends at the first NUL of the file or of the memory behind the vector. An empty vector
  -- gives a null pointer, from which `std::string` throws.
  pub file_to_str : FilePath → Result Error (List ℕ)
  file_to_str path = do
    p ← or_throw (canonical path) no_such_path
    config_contents ← or_throw (read p) unreadable
    c_string config_contents (behind config_contents)

  module _ (t : Toml) where
    open t use {Table, Node, parse, table_at, node_at, exists, is_table, value_exact_int}
    open t use {value_string, value_string_or}

    pub read_net : Node → Result Error ConnectionPolicy
    unfolding read_keys
    read_net net = read_keys (λ name. value_exact_int (node_at net name))

    pub read_connection : Table → Result Error ConnectionPolicy
    read_connection table =
        let net = table_at table "net" in
        if exists net && is_table net then read_net net else ok default_policy

    -- The remote table must be there, with an address and a port.
    pub read_remote : Table → Mode → Result Error (String × ℕ)
    read_remote table mode = do
      let remotes = table_at table (mode_to_str (remote mode))
      guard (exists remotes && is_table remotes) (missing_table (remote mode))
      ip ← or_throw (value_string (node_at remotes "ip")) (missing_ip (remote mode))
      remote_ip ← validate_ip ip
      port ← or_throw (value_exact_int (node_at remotes "port")) (missing_port (remote mode))
      remote_port ← validate_port port
      ok (remote_ip, remote_port)

    -- The local table may be missing: then the defaults stay, the address not looked up.
    pub read_local : Table → Mode → Result Error (String × ℕ)
    read_local table mode =
        let locals = table_at table (mode_to_str mode) in
        if not (exists locals) then ok (default_local_ip, default_local_port) else do
          local_ip ← validate_ip (value_string_or (node_at locals "ip") default_local_ip)
          port ← or_throw (value_exact_int (node_at locals "port")) (missing_port mode)
          local_port ← validate_port port
          ok (local_ip, local_port)

    -- The constructor `Config::Config`.
    pub create : FilePath → Mode → Result Error Config
    create cfg_path mode = do
      p ← or_throw (canonical cfg_path) no_such_path
      contents ← file_to_str p
      table ← or_throw (parse contents) parse_error
      connection ← read_connection table
      remotes ← read_remote table mode
      locals ← read_local table mode
      ok (record {
        local_ip = locals.0;
        remote_ip = remotes.0;
        remote_port = remotes.1;
        local_port = locals.1;
        connection = connection;
        config_dir = parent_path p;
        keys_dir = parent_path p;
      })

-- `Config::get_user_config_path`, from the value of `$HOME`: it never gives a path.
pub get_user_config_path : Option String → Option FilePath
get_user_config_path home_dir = none
