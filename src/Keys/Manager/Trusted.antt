-- ===== src/Keys/Manager/Trusted.antt =====
-- The trusted peers that a key manager reads (src/keys.cpp).
use audpipe_cpp.Prelude.{ℕ, ◌≡◌, refl, ap, ◌∙◌, some, List, [], ◌∷◌, map, length, ok}
use audpipe_cpp.Keys.Crypto.{Crypto, IsLawful}
use audpipe_cpp.Keys.Peers.{TrustedPeer, to_json}
use audpipe_cpp.Keys.Peers.Validation.{from_json-to_json}
use audpipe_cpp.Keys.Manager.{
  Disk, KeyManager, State, Json, join_peers, peers_of, peers_behind, read_peers, get_trusted_peers,
}

module _ (c : Crypto) where
  abbrev pub HaveIds : List (TrustedPeer c) → Type 0
  HaveIds [] = Unit
  HaveIds (p ∷ peers) = (length p.signer_id ≡ 32) × HaveIds peers

  module _ (lawful : IsLawful c) where
    read_peers-to_json :
        (peers : List (TrustedPeer c))
        → HaveIds peers
        → read_peers c (map (to_json c) peers) ≡ ok peers
    unfolding read_peers
    read_peers-to_json [] h = refl
    read_peers-to_json (p ∷ peers) (id, h) =
        ap (λ r. join_peers c r (read_peers c (map (to_json c) peers)))
          (from_json-to_json c lawful p id)
        ∙ ap (join_peers c (ok p)) (read_peers-to_json peers h)

    -- Peers whose JSON models stand in the unread part of the file, with identifiers of 32 bytes, are
    -- read back as they are, and a second reading goes on behind them.
    pub trusted_peers_read :
        (json : Json c) (peers : List (TrustedPeer c)) (d : Disk) (m : KeyManager c)
        (value : json.Value) (rest : List ℕ)
        → HaveIds peers
        → json.parse m.peers_unread ≡ some (value, rest)
        → json.models value ≡ some (map (to_json c) peers)
        → get_trusted_peers c json (d, m) ≡ (ok peers, (d, record m { peers_unread = rest }))
    unfolding get_trusted_peers
    trusted_peers_read json peers d m value rest ids parsed models =
        let after : State c = (d, record m { peers_unread = rest }) in
        ap (λ found. peers_behind c json found (d, m)) parsed
        ∙ ap (λ found. peers_of c found after) models
        ∙ ap (λ r. (r, after)) (read_peers-to_json peers ids)
