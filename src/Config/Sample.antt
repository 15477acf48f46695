-- ===== src/Config/Sample.antt =====
-- A configuration like the repository's audpipe.toml, and a host to read it on.
use text.Mathlib.Text.{◌==◌ as str_eq}
use audpipe_cpp.Prelude.{
  ℕ, String, ◌≡◌, refl, Bool, true, false, if◌then◌else◌, Option, none, some, List, [], ◌∷◌, ℤ, pos,
  cast_u16, cast_u32, ok,
}
use audpipe_cpp.Config.Environment.{Toml, Host, inet6, FilePath, parent_path}
use audpipe_cpp.Config.{
  client, server, Config, default_policy, validate_port, read_keys, read_net, read_connection,
  read_remote, read_local, validate_ip, file_to_str, create, until_nul, remote, mode_to_str,
  overwrite, read_retries,
}
use audpipe_cpp.Config.Mirror.{ValueOr}

pub data Leaf : Type 0 where
  missing : Leaf
  int : ℤ → Leaf
  name : String → Leaf

pub data View : Type 0 where
  leaf : Leaf → View
  section : (String → Leaf) → View

abbrev pub leaf_at : View → String → View
leaf_at (leaf l) key = leaf missing
leaf_at (section f) key = leaf (f key)

abbrev pub is_there : View → Bool
is_there (leaf missing) = false
is_there (leaf (int z)) = true
is_there (leaf (name s)) = true
is_there (section f) = true

abbrev pub is_section : View → Bool
is_section (leaf l) = false
is_section (section f) = true

abbrev pub int_of : View → Option ℤ
int_of (leaf missing) = none
int_of (leaf (int z)) = some z
int_of (leaf (name s)) = none
int_of (section f) = none

abbrev pub text_of : View → Option String
text_of (leaf missing) = none
text_of (leaf (int z)) = none
text_of (leaf (name s)) = some s
text_of (section f) = none

abbrev pub or_else : Option String → String → String
or_else none d = d
or_else (some s) d = s

abbrev pub endpoint : String → ℤ → View
endpoint ip port =
    section
      (λ key. if str_eq key "ip" then name ip else if str_eq key "port" then int port else missing)

-- The keys of `[net]` in audpipe.toml.
abbrev pub net_keys : String → Option ℤ
net_keys key =
    if str_eq key "connect_timeout_ms"
    then some (pos 5000)
    else if str_eq key "max_retries"
    then some (pos 3)
    else none

abbrev pub leaf_of : Option ℤ → Leaf
leaf_of none = missing
leaf_of (some z) = int z

-- audpipe.toml, both of its ends and a part of its `[net]`.
abbrev pub sample_table : String → View
sample_table key =
    if str_eq key "client"
    then endpoint "localhost" (pos 7981)
    else if str_eq key "server"
    then endpoint "localhost" (pos 8179)
    else if str_eq key "net"
    then section (λ key. leaf_of (net_keys key))
    else leaf missing

abbrev pub parse_sample : List ℕ → Option (String → View)
parse_sample [] = none
parse_sample (x ∷ xs) = some sample_table

abbrev pub sample_toml : Toml
sample_toml = record {
  Table = String → View;
  Node = View;
  parse = parse_sample;
  table_at = λ table key. table key;
  node_at = leaf_at;
  exists = is_there;
  is_table = is_section;
  value_exact_int = int_of;
  value_string = text_of;
  value_string_or = λ n d. or_else (text_of n) d;
}

abbrev pub config_path : FilePath
config_path = "." ∷ "audpipe.toml" ∷ []

abbrev pub sample_host : List ℕ → List ℕ → Host
sample_host bytes beyond = record {
  canonical = λ path. some ("home" ∷ "audpipe.toml" ∷ []);
  read = λ path. some bytes;
  behind = λ contents. beyond;
  getaddrinfo = λ s. some (inet6 (1 ∷ []));
  inet_ntop6 = λ a. "::1";
  inet_ntop4 = λ a. "127.0.0.1";
}

pub sample_value_or : ValueOr sample_toml
sample_value_or n d s e = rw e

abbrev pub host : Host
host = sample_host (91 ∷ 93 ∷ []) []

abbrev pub client_config : Config
client_config = record {
  local_ip = "::1";
  remote_ip = "::1";
  remote_port = 8179;
  local_port = 7981;
  connection = default_policy;
  config_dir = "home" ∷ [];
  keys_dir = "home" ∷ [];
}

pub create_sample : create host sample_toml config_path client ≡ ok client_config
unfolding create file_to_str until_nul read_connection read_net read_keys overwrite read_retries
    cast_u16 cast_u32 read_remote read_local validate_ip validate_port remote mode_to_str
    parent_path
create_sample = refl

pub create_sample_server :
    create host sample_toml config_path server
    ≡ ok (record client_config { local_port = 8179; remote_port = 7981 })
unfolding create file_to_str until_nul read_connection read_net read_keys overwrite read_retries
    cast_u16 cast_u32 read_remote read_local validate_ip validate_port remote mode_to_str
    parent_path
create_sample_server = refl
