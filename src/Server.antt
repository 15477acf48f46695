-- ===== src/Server.antt =====
-- include/server.hxx and src/server.cpp: the recording end, which encodes what the audio backend
-- captures and hands it to RTP.
pub mod Encode
pub mod Choose
pub mod Object
