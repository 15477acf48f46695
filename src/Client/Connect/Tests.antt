-- ===== src/Client/Connect/Tests.antt =====
-- The connection attempts of src/client.cpp at concrete libraries.
use audpipe_cpp.Prelude.{
  ℕ, zero, suc, String, ◌+◌, ◌≡◌, refl, Bool, true, false, none, some, [], arith,
}
use audpipe_cpp.Config.{default_policy}
use audpipe_cpp.Rtp.{Rtp, Callback}
use audpipe_cpp.Rtp.Library.{Uvg}
use audpipe_cpp.Rtp.Sessions.{sessions}
use audpipe_cpp.Backend
use audpipe_cpp.Client.State.{rtp_failed}
use audpipe_cpp.Client.Connect.{World, threw, wait, back_off, create}
use audpipe_cpp.Client.Connect.Attempts.{Settled, create-Settled}
use audpipe_cpp.Client.Connect.Leaks.{create_leaks}

abbrev never : ℕ → Bool
never n = false

-- The signal comes between the second and the third read of the flag.
abbrev third : ℕ → Bool
third zero = false
third (suc zero) = false
third (suc (suc n)) = true

back_off_runs : (back_off never 250 0 ≡ (300, 3)) × (back_off third 250 0 ≡ (200, 3))
unfolding back_off wait
back_off_runs = (refl, refl)

abbrev no_streams : Uvg
no_streams = record { crypto_enabled = true; new_session = λ log. some 5; new_stream = λ log. none }

abbrev hook : Callback
hook = record { hook = some 1; userdata = 2 }

abbrev here : String × ℕ
here = ("::1", 7981)

abbrev there : String × ℕ
there = ("::1", 8179)

abbrev world : World
world = record { backend = Backend.initial; log = []; reads = 0 }

create-Settled_example :
    Settled never no_streams here there hook 3 3 []
      (create never no_streams here there hook true default_policy world)
create-Settled_example =
    create-Settled never no_streams here there hook default_policy world (omega arith)

create_leaks_example :
    (w : World) × (create never no_streams here there hook true default_policy world
      ≡ threw (rtp_failed 3) w)
    × (sessions w.log ≡ sessions [] + 3)
create_leaks_example =
    create_leaks never no_streams here there hook (λ n. refl) (λ log. 5) 1 refl refl (λ log. refl)
      (λ log. refl) default_policy world (omega arith)

abbrev working : Uvg
working = record { crypto_enabled = true; new_session = λ log. some 5; new_stream = λ log. some 6 }

abbrev connected : Rtp
connected = record { recv_callback = hook; session = some 5; stream = some 6; stopped = false }
