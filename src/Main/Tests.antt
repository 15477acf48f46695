-- ===== src/Main/Tests.antt =====
-- Runs of `main` at concrete arguments and libraries (src/main.cpp).
use audpipe_cpp.Prelude.{
  ℕ, ◌+◌, arith, ◌≡◌, ◌≢◌, refl, true, false, none, some, [], ◌∷◌, pos, inl, inr,
}
use audpipe_cpp.Config.{Config, default_policy}
use audpipe_cpp.Config.Sample.{host, sample_toml}
use audpipe_cpp.Keys.Manager.{Disk}
use audpipe_cpp.Keys.Manager.Kept.{Extends}
use audpipe_cpp.Keys.Sample.{crypto}
use audpipe_cpp.Backend.Context
use audpipe_cpp.Backend.Context.{
  connecting, ready, wait_for_context_ready, tell_waiting, pa_state_cb,
}
use audpipe_cpp.Backend.Devices.{DeviceInfo}
use audpipe_cpp.Backend.Recording
use audpipe_cpp.Client.Connect
use audpipe_cpp.Client.Connect.{Outcome, World}
use audpipe_cpp.Backend.{Backend}
use audpipe_cpp.Backend.VirtualInput.{unload_done, no_load, die, setup_virtual_input, ask_all}
use audpipe_cpp.Backend.CreateInput.{after_setup, create_virtual_input}
use audpipe_cpp.Backend.WriteLoop.{callback_failed, run_virtual_input, take_turns, take_turn}
use audpipe_cpp.Client.Life.{is_over}
use audpipe_cpp.Main.ClientRun.{input_ending}
use audpipe_cpp.Main.{waiting}
use audpipe_cpp.Backend.{initial}
use audpipe_cpp.Rtp.Sessions.{sessions}
use audpipe_cpp.Main.ClientRun.{run_client}
use audpipe_cpp.Main.ClientRun.Leaks.{LeavesAtMost, run_client-LeavesAtMost}
use audpipe_cpp.Main.ClientRun.Ending.{IsAnswered}
use audpipe_cpp.Main.Program.{Machine, Script, exit_log, main}
use audpipe_cpp.Main.Program.ServerEnd.{IsClean, main_server-IsClean}
use audpipe_cpp.Main.Program.ServerStop.{main_server-ends}
use audpipe_cpp.Rtp.Handles.{IsSafe}
use audpipe_cpp.Main.Program.Handles.{main-IsSafe}
use audpipe_cpp.Main.Program.Keys.{main-Extends}
use audpipe_cpp.Main.Program.ClientEnd.{IsEnded, IsStopped, main_client-IsEnded}

abbrev machine : Machine
machine = record {
  host = host;
  toml = sample_toml;
  crypto = crypto;
  uvg = record { crypto_enabled = true; new_session = λ log. some 5; new_stream = λ log. some 6 };
  encoder = record { Encoder = ℕ; encode = λ enc input out size. (enc, pos 2, 8 ∷ 9 ∷ []) };
  decoder = record { Decoder = ℕ; decode = λ dec frame out. (dec, pos 1, out) };
}

abbrev microphone : DeviceInfo
microphone = record {
  name = "mic";
  description = "Microphone";
  index = 3;
  rate = 48000;
  channels = 1;
  monitor_of_sink = 4294967295;
}

-- One fragment, and then a shutdown.
abbrev recording : Recording.Script
recording = record {
  old_state = Recording.unconnected;
  created = some 1;
  connects = true;
  unconnected_state = Recording.unconnected;
  states = Recording.creating ∷ Recording.ready ∷ [];
  turns =
      record {
        stopped = false;
        shutdown = false;
        dispatched = Recording.readable (Recording.bytes_at (1 ∷ 0 ∷ []) ∷ []) ∷ [];
      }
      ∷ record { stopped = false; shutdown = true; dispatched = [] }
      ∷ [];
  last_state = Recording.ready;
}

abbrev script : Script machine
script = record {
  key = 5;
  context = (connecting ∷ ready ∷ []) ∷ [];
  hook = record { hook = some 1; userdata = 2 };
  client_script = record {
    connecting = λ n. false;
    decoder_created = true;
    opusdec = 0;
    turns =
        record { shutdown = false; happenings = [] }
        ∷ record { shutdown = true; happenings = [] }
        ∷ [];
    input_host = record {
      modules = none;
      stale = λ idx. unload_done;
      made = false;
      loading = no_load;
      attempts = [];
    };
    input_turns =
        record { stopped = true; shutdown = false; production = callback_failed; writes = [] } ∷ [];
  };
  server_script = record {
    devices = some (microphone ∷ [], pos 1);
    listing_ends = true;
    line = some (49 ∷ []);
    encoder = some 0;
    recording = recording;
  };
}

abbrev disk : Disk
disk = record {
  has_dir = true;
  can_make_dir = false;
  can_open = λ file. true;
  pubkey_text = none;
  privkey_text = none;
  trusted_peers_text = none;
}

main_server-IsClean_example :
    IsClean machine script disk [] (exit_log (main machine script ("server" ∷ []) (disk, [])))
main_server-IsClean_example = main_server-IsClean machine script disk [] []

settles : (Context.create script.context []).0 ≢ Context.waiting
unfolding Context.create wait_for_context_ready tell_waiting pa_state_cb
settles h = cc

over :
    (b : Backend)
    → is_over (
        input_ending machine.decoder script.client_script
          (record { backend = b; log = []; reads = 0 }))
      ≡ true
unfolding create_virtual_input after_setup setup_virtual_input die run_virtual_input take_turns
    take_turn ask_all
over b = ground arith

stopped : (cfg : Config) → IsStopped machine script disk [] cfg
stopped cfg backend = answered (
    Connect.create script.client_script.connecting machine.uvg (cfg.local_ip, cfg.local_port)
      (cfg.remote_ip, cfg.remote_port) script.hook true cfg.connection
      (record { backend = backend; log = []; reads = 0 }))
  where
    answered :
        (o : Outcome)
        → IsAnswered machine.decoder machine.uvg
            (cfg.local_ip, cfg.local_port)
            (cfg.remote_ip, cfg.remote_port)
            script.hook
            script.client_script
            cfg.connection
            (record { backend = backend; log = []; reads = 0 })
            o
    answered (Connect.constructed c w) = (inr (inl refl), over w.backend)
    answered (Connect.threw failure w) = tt
    answered (Connect.aborted w) = tt

main_client-IsEnded_example :
    IsEnded machine script disk [] (exit_log (main machine script ("client" ∷ []) (disk, [])))
main_client-IsEnded_example =
    main_client-IsEnded machine script disk [] refl [] settles (λ cfg read. stopped cfg)

typed : script.server_script.line ≢ none
typed h = cc

main_server-ends_example : (main machine script ("server" ∷ []) (disk, [])).0 ≢ waiting
main_server-ends_example =
    main_server-ends machine script disk [] (inr (inl (inl refl))) (inr (inr (inr (inl refl)))) refl
      typed settles []

main-IsSafe_example : IsSafe (exit_log (main machine script ("client" ∷ "-v" ∷ []) (disk, []))).1
main-IsSafe_example = main-IsSafe machine script disk [] tt ("client" ∷ "-v" ∷ [])

run_client-LeavesAtMost_example : LeavesAtMost machine.decoder (sessions [] + 3) (
    run_client machine.decoder machine.uvg
      ("::1", 7981)
      ("::1", 8179)
      script.hook
      script.client_script
      default_policy
      (record { backend = initial; log = []; reads = 0 }))
run_client-LeavesAtMost_example =
    run_client-LeavesAtMost machine.decoder machine.uvg ("::1", 7981) ("::1", 8179) script.hook
      script.client_script default_policy (record { backend = initial; log = []; reads = 0 })
      (omega arith) refl

main-Extends_example : Extends disk (main machine script ("server" ∷ []) (disk, [])).1
main-Extends_example = main-Extends machine script disk [] ("server" ∷ [])
