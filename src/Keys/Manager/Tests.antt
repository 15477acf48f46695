-- ===== src/Keys/Manager/Tests.antt =====
-- The key manager with a concrete library (src/keys.cpp).
use audpipe_cpp.Prelude.{
  ℕ, ◌≡◌, ◌≢◌, refl, true, false, Option, none, some, List, [], map, length-replicate, ◌∷◌,
  replicate, ok, err, ap,
}
use audpipe_cpp.Keys.Sample.{crypto, crypto-IsLawful}
use audpipe_cpp.Keys.Manager.{
  Json, KeyManager, get_trusted_peers, Disk, no_directory, key_manager, ensure_file_open, create,
  create_pubkey, load_or_create_pair, open_files, load_or_create,
}
use audpipe_cpp.Keys.Peers.{PeerModel, TrustedPeer, to_json}
use audpipe_cpp.Keys.Manager.Trusted.{trusted_peers_read}
use audpipe_cpp.Keys.Manager.Again.{load_or_create_again}
use audpipe_cpp.Keys.Manager.Run.{private_text}
use audpipe_cpp.Keys.Manager.Outcome.{expected, load_or_create-expected}
use audpipe_cpp.Keys.Manager.Pairing.{TwoRuns, created_pair_loads, lost_pubkey_mismatch}

abbrev empty_disk : Disk
empty_disk = record {
  has_dir = true;
  can_make_dir = false;
  can_open = λ file. true;
  pubkey_text = none;
  privkey_text = none;
  trusted_peers_text = none;
}

abbrev half_disk : Disk
half_disk = record empty_disk { privkey_text = some (private_text crypto 3) }

no_dir :
    (load_or_create crypto 5 (record empty_disk { has_dir = false }, key_manager crypto)).0
    ≡ err no_directory
unfolding load_or_create open_files ensure_file_open
no_dir = refl

returned : (load_or_create crypto 5 (empty_disk, key_manager crypto)).0 ≡ ok tt
unfolding load_or_create open_files ensure_file_open load_or_create_pair create create_pubkey
returned = refl

load_or_create_again_example :
    (load_or_create crypto 6 (load_or_create crypto 5 (empty_disk, key_manager crypto)).1).0 ≢ ok tt
load_or_create_again_example =
    load_or_create_again crypto 5 6 empty_disk (key_manager crypto)
      {s = (load_or_create crypto 5 (empty_disk, key_manager crypto)).1} refl
      (ap (λ r. (r, (load_or_create crypto 5 (empty_disk, key_manager crypto)).1)) returned)

created_pair_loads_example : TwoRuns crypto 5 6 empty_disk 5
created_pair_loads_example =
    created_pair_loads crypto crypto-IsLawful 5 6 empty_disk (refl, refl, refl, refl) refl refl

lost_pubkey_mismatch_example : TwoRuns crypto 5 6 half_disk 3
lost_pubkey_mismatch_example =
    lost_pubkey_mismatch crypto crypto-IsLawful 5 6 half_disk (refl, refl, refl, refl) 3 refl refl

abbrev peer : TrustedPeer crypto
peer = record { signer_id = replicate 32 7; pubkey = 9; label = "desk"; revoked = true }

-- A text of one character is the list with this peer.
abbrev parse_one : List ℕ → Option (List PeerModel × List ℕ)
parse_one [] = none
parse_one (x ∷ rest) = some (map (to_json crypto) (peer ∷ []), rest)

abbrev one_peer : Json crypto
one_peer = record { Value = List PeerModel; parse = parse_one; models = λ value. some value }

abbrev with_peers : KeyManager crypto
with_peers = record (key_manager crypto) { trusted_peers_is_open = true; peers_unread = 1 ∷ [] }

trusted_peers_read_example :
    get_trusted_peers crypto one_peer (empty_disk, with_peers)
    ≡ (ok (peer ∷ []), (empty_disk, record with_peers { peers_unread = [] }))
trusted_peers_read_example =
    trusted_peers_read crypto crypto-IsLawful one_peer (peer ∷ []) empty_disk with_peers
      (map (to_json crypto) (peer ∷ [])) [] (length-replicate {A = ℕ} 32 7, tt) refl refl

-- A directory whose two texts are there.
abbrev full_disk : Disk
full_disk = record half_disk { pubkey_text = some (1 ∷ []) }

load_or_create-expected_example :
    (load_or_create crypto 5 (full_disk, key_manager crypto)).0 ≡ expected crypto full_disk
load_or_create-expected_example = load_or_create-expected crypto 5 full_disk
