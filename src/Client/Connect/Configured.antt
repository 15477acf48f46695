-- ===== src/Client/Connect/Configured.antt =====
-- A client that is constructed with a policy from the configuration (src/main.cpp joins src/config.cpp
-- and src/client.cpp).
use audpipe_cpp.Prelude.{ℕ, ◌+◌, ◌≤◌, ◌≡◌, Bool, true, some, ok, subst}
use audpipe_cpp.Config
use audpipe_cpp.Config.{Config, client}
use audpipe_cpp.Config.Environment.{Host, Toml, FilePath}
use audpipe_cpp.Config.Ports.{create-IsValid}
use audpipe_cpp.Rtp.{Rtp, Callback, is_initialised}
use audpipe_cpp.Rtp.Library.{Uvg}
use audpipe_cpp.Rtp.Lifecycle.{is_initialised-IsOpen}
use audpipe_cpp.Rtp.Tries.{tries}
use audpipe_cpp.Client.State.{Client}
use audpipe_cpp.Client.Connect.{World, constructed, create}
use audpipe_cpp.Client.Connect.Attempts.{Settled, create-Settled}

-- When the client is constructed from a configuration that was read, its `Rtp` member is there and
-- initialised, and it took at most `max_retries` attempts. (A policy of 0 attempts, which the
-- configuration refuses, would return a client without one.)
configured_client :
    (h : Host) (t : Toml) (path : FilePath) (shutdown : ℕ → Bool) (u : Uvg) (cb : Callback)
    (w w' : World) {cfg : Config} {c : Client}
    → Config.create h t path client ≡ ok cfg
    → create shutdown u
        (cfg.local_ip, cfg.local_port)
        (cfg.remote_ip, cfg.remote_port)
        cb
        true
        cfg.connection
        w
      ≡ constructed c w'
    → (r : Rtp) × (c.rtp ≡ some r)
      × (is_initialised r ≡ true)
      × (tries w'.log ≤ tries w.log + cfg.connection.max_retries)
configured_client h t path shutdown u cb w w' {cfg} {c} read made =
    let valid = create-IsValid h t path client read in
    let settled =
      create-Settled shutdown u (cfg.local_ip, cfg.local_port) (cfg.remote_ip, cfg.remote_port) cb
        cfg.connection w valid.connection.some_retry in
    let last = cfg.connection.max_retries in
    let ended =
      subst
        (λ o.
          Settled shutdown u (cfg.local_ip, cfg.local_port) (cfg.remote_ip, cfg.remote_port) cb last
            last w.log o)
        made settled in
    let (r, session, stream, there, open_now, few, enough) = ended in
    (r, there, is_initialised-IsOpen r session stream open_now, enough)
