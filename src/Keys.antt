-- ===== src/Keys.antt =====
-- include/keys.hxx and src/keys.cpp: the long-term key pair and the peers that are trusted.
pub mod Crypto
pub mod Sample
pub mod Peers
pub mod Manager
