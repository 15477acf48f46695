-- ===== src/Backend/CreateInput/Tests.antt =====
-- A virtual input that is created (src/audio/pulseaudio_backend.cpp).
use audpipe_cpp.Prelude.{true, false, some, List, [], ◌∷◌}
use audpipe_cpp.Backend.VirtualInput.{opened, no_reader, unload_done, answered, Host}
use audpipe_cpp.Backend.WriteLoop.{wrote, broken, produced, Turn}

abbrev working : Host
working = record {
  modules = some [];
  stale = λ idx. unload_done;
  made = true;
  loading = answered 7;
  attempts =
      record { opening = no_reader; shutdown = false; rollback = unload_done }
      ∷ record { opening = opened 9; shutdown = false; rollback = unload_done }
      ∷ [];
}

-- A chunk that is written, and then a reader that is gone.
abbrev turns : List Turn
turns =
    record {
      stopped = false;
      shutdown = false;
      production = produced (1 ∷ 2 ∷ []);
      writes = wrote 2 ∷ [];
    }
    ∷ record {
      stopped = false;
      shutdown = false;
      production = produced (3 ∷ []);
      writes = broken ∷ [];
    }
    ∷ []
