-- ===== src/Client.antt =====
-- include/client.hxx and src/client.cpp: the receiving end, which queues compressed frames from RTP
-- and feeds decoded audio to the virtual input.
pub mod State
pub mod Receive
pub mod Playback
pub mod Connect
pub mod Life
pub mod Teardown
