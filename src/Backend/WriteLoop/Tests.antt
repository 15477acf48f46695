-- ===== src/Backend/WriteLoop/Tests.antt =====
-- The write loop at concrete turns.
use audpipe_cpp.Prelude.{ℕ, ◌≡◌, refl, true, false, some, List, [], ◌∷◌, map}
use audpipe_cpp.Backend.{
  Backend, initial, is_virtual_input_ready, set_virtual_input_error, reader_disconnected,
}
use audpipe_cpp.Backend.VirtualInput.{threw}
use audpipe_cpp.Backend.WriteLoop.{
  wrote, interrupted, broken, would_block, produced, Turn, write_chunk, after_chunk,
  write_production, take_turn, take_turns, run_virtual_input,
}
use audpipe_cpp.Backend.WriteLoop.Chunks.{AreBeginnings, chunk_of, run-AreBeginnings}

abbrev ready : Backend
ready = record initial {
  virtual_source_loaded = true;
  virtual_source_mod_idx = 7;
  virtual_source_fd = some 9;
}

-- A chunk in two writes, one that is cut by a full FIFO, and a reader that is gone.
abbrev turns : List Turn
turns =
    record {
      stopped = false;
      shutdown = false;
      production = produced (1 ∷ 2 ∷ 3 ∷ []);
      writes = wrote 1 ∷ interrupted ∷ wrote 2 ∷ [];
    }
    ∷ record {
      stopped = false;
      shutdown = false;
      production = produced (4 ∷ 5 ∷ []);
      writes = wrote 1 ∷ would_block false ∷ [];
    }
    ∷ record {
      stopped = false;
      shutdown = false;
      production = produced (6 ∷ []);
      writes = broken ∷ [];
    }
    ∷ []

piped : run_virtual_input turns (ready, []) ≡ (
  threw reader_disconnected,
  (set_virtual_input_error reader_disconnected ready, 1 ∷ 2 ∷ 3 ∷ 4 ∷ []),
)
unfolding run_virtual_input is_virtual_input_ready take_turns take_turn write_production write_chunk
    after_chunk set_virtual_input_error
piped = refl

run-AreBeginnings_example :
    (sent : List ℕ) × ((run_virtual_input turns (ready, [])).1.1 ≡ sent)
    × AreBeginnings (map chunk_of turns) sent
run-AreBeginnings_example = run-AreBeginnings turns ready []
