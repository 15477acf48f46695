-- ===== src/Config/Mirror.antt =====
-- The two ends of a connection, configured from one file (src/config.cpp).
use audpipe_cpp.Prelude.{ℕ, String, ◌≡◌, some, ok, arith}
use audpipe_cpp.Config.Environment.{Toml, Host, FilePath}
use audpipe_cpp.Config.{Mode, client, server, Config, remote, read_remote, read_local, create}

-- `value_or(d)` is `value()` where there is one.
abbrev pub ValueOr : Toml → Type 0
ValueOr t = (n : t.Node) (d s : String) → t.value_string n ≡ some s → t.value_string_or n d ≡ s

module _ (h : Host) (t : Toml) (value_or : ValueOr t) where
  read_remote-read_local :
      (table : t.Table) (m : Mode) {r : String × ℕ}
      → read_remote h t table m ≡ ok r
      → read_local h t table (remote m) ≡ ok r
  unfolding read_remote read_local
  read_remote-read_local table m e = grind (arith, value_or)

  -- When both ends are configured from the same file in the same environment, which is the same file
  -- system, the same resolver and the same bytes in memory behind the text of the file, each one's remote
  -- address and port are the other's local ones, and their policies are equal.
  pub create_mirror :
      (path : FilePath) {a b : Config}
      → create h t path client ≡ ok a
      → create h t path server ≡ ok b
      → (a.remote_ip ≡ b.local_ip)
        × (a.remote_port ≡ b.local_port)
        × (b.remote_ip ≡ a.local_ip)
        × (b.remote_port ≡ a.local_port)
        × (a.connection ≡ b.connection)
  unfolding create remote
  create_mirror path ea eb = grind (arith, read_remote-read_local)
