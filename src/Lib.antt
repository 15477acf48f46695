-- ===== src/Lib.antt =====
-- audpipe: a verification library of the repository's C++ code. audpipe forwards a microphone
-- from one machine, the server, to another, the client, over RTP. The code of the program is in
-- src and include; the libraries that it calls (uvgRTP, libopus, PulseAudio, toml++, the
-- resolver, the operating system) are parameters of the model.
--
-- The parts and how they interact. The program takes a subcommand, reads its configuration, loads
-- or creates its keys, which nothing else uses yet, and runs as a client or as a server. A
-- configuration file gives both ends their addresses, ports and connection policy. The server
-- records fragments of audio from a device through the audio backend, encodes one Opus frame of
-- each and hands it to its RTP session. The client receives frames into a bounded queue; the
-- audio backend asks it for bytes through the write callback, which decodes queued frames as it
-- needs them, and writes these bytes into a FIFO that a module of the audio server reads as a
-- virtual microphone. A signal sets a flag that the loops of both ends read.
--
-- Which file models which part:
--
-- - Prelude: shared names, tests, sequences, machine integers, exceptions as values.
-- - Config: src/config.cpp and include/config.hxx. `Config.create` is the constructor;
--   `validate_port`, `validate_ip`, `file_to_str` keep their names; `read_keys`, `read_remote`
--   and `read_local` are its sections. Config.Environment has the file system, the resolver and
--   toml++ as records of functions.
-- - Rtp: src/rtp.cpp and include/rtp.hxx. `create_sender` and `create_receiver` are the two
--   constructors, `init_rtp`, `write_frames` and `stop` the methods, `run` a sequence of calls in
--   the order in which they get the mutex. Each call of uvgRTP is an event of a log
--   (Rtp.Library).
-- - Client: src/client.cpp and include/client.hxx. Client.State has the members, `set_error` and
--   `request_shutdown`; Client.Receive the receive callback; Client.Playback the write callback;
--   Client.Connect the constructor with its attempts; Client.Life what reaches a client while it
--   lives, and its destructor; Client.Teardown the two threads of a client that ends, as a step
--   relation.
-- - Server: src/server.cpp and include/server.hxx. Server.Encode has `bytes_to_opus` and the data
--   callback, Server.Choose the interactive choice, Server.Object the constructor, `run`, `stop`
--   and the destructor.
-- - Audio: include/audio.hxx. AudioDevice, and in Audio.Interface the abstract `AudioBackend` as
--   a record of operations, with what the comments promise of the virtual input as a record of
--   laws; Audio.Interface.Cycles uses any backend that keeps them.
-- - Backend: src/audio/pulseaudio_backend.cpp and its header, with those callbacks of
--   src/audio/pulseaudio_callbacks.cpp that it uses. Backend.VirtualInput has
--   `setup_virtual_input` and `destroy_virtual_input`, Backend.WriteLoop `run_virtual_input`,
--   Backend.Recording `record` with the callbacks of its stream, Backend.Devices the enumeration
--   of devices, Backend.Modules the cleanup of stale modules, Backend.Context the constructor
--   with its wait for the context and the destructor, Backend.CreateInput `create_virtual_input`,
--   Backend.StreamWrite the callback that writes to a stream, which nothing installs.
--   Backend.Interface makes it an `AudioBackend`.
-- - Keys: src/keys.cpp and include/keys.hxx. Keys.Peers has `TrustedPeer` with its validation and
--   its JSON model, Keys.Manager the `KeyManager` over the files of its directory, Keys.Crypto
--   what both take from Crypto++.
-- - Shutdown: src/shutdown.cpp.
-- - Main: src/main.cpp. `read_arguments` chooses the command, Main.Program has `main` with the
--   configuration, the keys and the audio backend in front of the run; Main.ClientRun and
--   Main.ServerRun are the two runs, Main.Signals is the signal handler. Main.Forwarding joins
--   the audio path of the server to one call of the write callback of the client, Main.Streaming
--   to many turns of the virtual input and its FIFO, with packets that come at any time.
--   Rtp.Handles says which pointers are alive in the log of uvgRTP, and Main.Program.Handles
--   follows them through the program; Keys.Manager.Kept and Main.Program.Keys do so with what the
--   files of the keys hold.
--
-- How state and failure are written. A class is a record of its members; a method is a function
-- that gives the new record. Handles and pointers are `Option`, `none` for null. An exception is
-- `err` of a `Result`, or a constructor of an outcome where a call may also die by `assert` or
-- wait on. Log lines are left out; an error keeps what its message reports. Threads are explicit:
-- the calls of an `Rtp` come as a sequence, the frames that arrive during a write callback as a
-- list per round, each read of the shutdown flag as the answer of a function of its number or as
-- an entry of a script; the two threads of a client that ends are a step relation.
--
-- Bounds and loops. Machine integers are natural numbers with their wrap-around written out:
-- ports and retries modulo 2^16, times modulo 2^32, the frame counter modulo 2^64. Buffers have
-- the sizes of the source: 3840 bytes for a decoded frame and for an encoded one, 1920 samples
-- for a doubled mono capture; a theorem about them has as its hypothesis what libopus documents
-- of its two calls. The wait between two connection attempts has fuel one more than the backoff,
-- and each round waits 100 ms, so the fuel never runs out. The connection loop and the playback
-- loop recurse on what they consume. The loops that wait for the operating system recurse on a
-- script of its answers, and a script that ends leaves the outcome `waiting`. A theorem that a
-- run ends has as its hypothesis that the script settles: that a state is told or a shutdown is
-- read. An operation that unloads a module and those on streams are taken to end; the load of a
-- module, the listing of the devices, the line that is typed and the join of the thread of the
-- virtual input may wait on, and their ends are hypotheses of the theorems that the program ends.
-- What an unload of a module came to stands in the log of the virtual input, and a module counts
-- as gone only when an unload succeeded.
--
-- What is not modelled: what is printed and logged, the unused handshake types, and in
-- src/rtp.cpp the handshake methods, which are empty, and `dhka`, which makes a pair of keys and
-- drops it. The Opus codec, encryption and the scheduling of threads inside the libraries are
-- outside the code.
pub mod Prelude
pub mod Shutdown
pub mod Config
pub mod Keys
pub mod Rtp
pub mod Audio
pub mod Backend
pub mod Client
pub mod Server
pub mod Main
