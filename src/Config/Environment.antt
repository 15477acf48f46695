-- ===== src/Config/Environment.antt =====
-- What src/config.cpp takes from outside: toml++, the resolver and the file system.
use audpipe_cpp.Prelude.{ℕ, String, Bool, Option, List, [], ◌∷◌, ℤ}

-- A `std::filesystem::path` by its components, the root left out.
abbrev pub FilePath : Type 0
FilePath = List String

-- `path::parent_path`: the root is its own parent.
unfoldable pub parent_path : FilePath → FilePath
parent_path [] = []
parent_path (name ∷ []) = []
parent_path (name ∷ next ∷ rest) = name ∷ parent_path (next ∷ rest)

-- The first entry of a successful `getaddrinfo`: the code tells AF_INET6 from all else.
pub data Address : Type 0 where
  inet6 inet : List ℕ → Address

-- `canonical` throws on a path that does not resolve, `read` on a file that does not open; `behind`
-- is what stands in memory behind the vector that holds a file's contents.
pub record Host : Type 0 where
  pub canonical : FilePath → Option FilePath
  pub read : FilePath → Option (List ℕ)
  pub behind : List ℕ → List ℕ
  pub getaddrinfo : String → Option Address
  pub inet_ntop6 : List ℕ → String
  pub inet_ntop4 : List ℕ → String

-- toml++: `parse` throws on a text that is no TOML document; a `Node` is a `node_view`, which may be
-- empty (`exists` is its `operator bool`).
pub record Toml : Type 1 where
  pub Table : Type 0
  pub Node : Type 0
  pub parse : List ℕ → Option Table
  pub table_at : Table → String → Node
  pub node_at : Node → String → Node
  pub exists : Node → Bool
  pub is_table : Node → Bool
  pub value_exact_int : Node → Option ℤ
  pub value_string : Node → Option String
  pub value_string_or : Node → String → String
