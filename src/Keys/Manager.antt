-- ===== src/Keys/Manager.antt =====
-- `KeyManager` (include/keys.hxx, src/keys.cpp) over the three files of its directory.
-- The paths are fixed and distinct: `<prefix>_ed25519.pub`, `<prefix>_ed25519`, `trusted_peers.json`.
-- Bytes that are written to a stream count as written to its file.
pub mod Loading
pub mod Again
pub mod Run
pub mod Pairing
pub mod Trusted
pub mod Kept
pub mod Outcome
mod Tests
use audpipe_cpp.Prelude.{
  ℕ, Bool, true, false, not, ◌==◌, ◌&&◌, ◌||◌, if◌then◌else◌, Option, none, some, List, [], ◌∷◌,
  ◌++◌, length, Result, ok, err,
}
use audpipe_cpp.Prelude.Effects.{Effect, ◌>>=◌, ◌>>◌, return, throw, modify, get}
use audpipe_cpp.Keys.Crypto.{Crypto}
use audpipe_cpp.Keys.Peers
use audpipe_cpp.Keys.Peers.{PeerModel, TrustedPeer, from_json}

pub data File : Type 0 where
  pubkey_file privkey_file trusted_peers_file : File

-- The directory: whether it is there or `create_directory` would make it, which files can be opened, and what they
-- hold (`none`: no such file).
pub record Disk : Type 0 where
  pub has_dir : Bool
  pub can_make_dir : Bool
  pub can_open : File → Bool
  pub pubkey_text : Option (List ℕ)
  pub privkey_text : Option (List ℕ)
  pub trusted_peers_text : Option (List ℕ)

pub data Error : Type 0 where
  no_directory not_opened bad_key no_signer bad_json : Error
  bad_peer : Peers.Error → Error

-- `create_directory`, which does nothing where the directory is there.
abbrev pub dir_ready : Disk → Bool
dir_ready d = d.has_dir || d.can_make_dir

abbrev pub with_dir : Disk → Disk
with_dir d = record d { has_dir = true }

abbrev pub or_empty : Option (List ℕ) → List ℕ
or_empty none = []
or_empty (some text) = text

-- `open` in append mode creates a file that is not there; the directory has been made.
abbrev pub touch : File → Disk → Disk
touch pubkey_file d = record d { has_dir = true; pubkey_text = some (or_empty d.pubkey_text) }
touch privkey_file d = record d { has_dir = true; privkey_text = some (or_empty d.privkey_text) }
touch trusted_peers_file d = record d {
  has_dir = true;
  trusted_peers_text = some (or_empty d.trusted_peers_text);
}

module _ (c : Crypto) where
  -- A stream is open or not; `peers_unread` is what stands behind the position of the third one. Keys
  -- that are default-constructed are `none`.
  pub record KeyManager : Type 0 where
    pub loaded : Bool
    pub signer : Option c.PrivateKey
    pub verifier : Option c.PublicKey
    pub privkey : Option c.PrivateKey
    pub pubkey : Option c.PublicKey
    pub pubkey_is_open : Bool
    pub privkey_is_open : Bool
    pub trusted_peers_is_open : Bool
    pub peers_unread : List ℕ

  -- The constructor.
  abbrev pub key_manager : KeyManager
  key_manager = record {
    loaded = false;
    signer = none;
    verifier = none;
    privkey = none;
    pubkey = none;
    pubkey_is_open = false;
    privkey_is_open = false;
    trusted_peers_is_open = false;
    peers_unread = [];
  }

  abbrev pub State : Type 0
  State = Disk × KeyManager

  abbrev pub M : Type 0 → Type 0
  M A = Effect State Error A

  abbrev pub is_open : File → KeyManager → Bool
  is_open pubkey_file m = m.pubkey_is_open
  is_open privkey_file m = m.privkey_is_open
  is_open trusted_peers_file m = m.trusted_peers_is_open

  abbrev pub opened : File → State → State
  opened pubkey_file (d, m) = (touch pubkey_file d, record m { pubkey_is_open = true })
  opened privkey_file (d, m) = (touch privkey_file d, record m { privkey_is_open = true })
  opened trusted_peers_file (d, m) = (
    touch trusted_peers_file d,
    record m { trusted_peers_is_open = true; peers_unread = or_empty d.trusted_peers_text },
  )

  -- `ensure_file_open`: it makes the directory; opening a stream that is open already fails, and the failure is thrown.
  unfoldable pub ensure_file_open : File → M (Unit {0})
  ensure_file_open file (d, m) =
      if not (dir_ready d)
      then (err no_directory, (d, m))
      else (if is_open file m || not (d.can_open file)
          then (err not_opened, (with_dir d, m))
          else (ok tt, opened file (d, m)))

  abbrev pub append_privkey : List ℕ → State → State
  append_privkey text (d, m) =
      (record d { privkey_text = some (or_empty d.privkey_text ++ text) }, m)

  abbrev pub append_pubkey : List ℕ → State → State
  append_pubkey text (d, m) = (record d { pubkey_text = some (or_empty d.pubkey_text ++ text) }, m)

  abbrev pub public_key_set : c.PublicKey → State → State
  public_key_set key (d, m) = (d, record m { verifier = some key; pubkey = some key })

  -- `create_pubkey`
  unfoldable pub create_pubkey : M (Unit {0})
  create_pubkey (d, m) = elim m.signer as (λ _. Result Error (Unit {0}) × State) [
    | none ↦ (err no_signer, (d, m))
    | some key ↦
        let public = c.public_of key in
        (
          ok tt,
          append_pubkey (c.base64_encode true (c.save_public public))
              (public_key_set public (d, m)),
        )
  ]

  abbrev pub signer_set : c.PrivateKey → State → State
  signer_set key (d, m) = (d, record m { signer = some key })

  abbrev pub privkey_set : c.PrivateKey → State → State
  privkey_set key (d, m) = (d, record m { privkey = some key })

  -- `create`; the key is the one that the random generator gives.
  unfoldable pub create : c.PrivateKey → M (Unit {0})
  create key = do
    modify (signer_set key)
    modify (append_privkey (c.base64_encode true (c.save_private key)))
    create_pubkey
    modify (privkey_set key)

  abbrev pub close_keys : State → State
  close_keys (d, m) = (d, record m { privkey_is_open = false; pubkey_is_open = false })

  abbrev pub loaded_pubkey : Option c.PublicKey → M (Unit {0})
  loaded_pubkey none = throw bad_key
  loaded_pubkey (some key) = modify (λ (s : State). (s.0, record s.1 { pubkey = some key }))

  abbrev pub loaded_privkey : Option c.PrivateKey → M (Unit {0})
  loaded_privkey none = throw bad_key
  loaded_privkey (some key) = modify (privkey_set key)

  -- `load`
  unfoldable pub load : M (Unit {0})
  load = do
    modify close_keys
    s ← get
    loaded_pubkey (c.load_public (c.base64_decode (or_empty s.0.pubkey_text)))
    loaded_privkey (c.load_private (c.base64_decode (or_empty s.0.privkey_text)))

  abbrev pub has_no_text : Option (List ℕ) → Bool
  has_no_text text = length (or_empty text) == 0

  unfoldable pub load_or_create_pair : c.PrivateKey → M (Unit {0})
  load_or_create_pair key = do
    s ← get
    if has_no_text s.0.privkey_text || has_no_text s.0.pubkey_text then create key else load

  unfoldable pub open_files : M (Unit {0})
  open_files = do
    ensure_file_open pubkey_file
    ensure_file_open privkey_file
    ensure_file_open trusted_peers_file

  -- `load_or_create`
  unfoldable pub load_or_create : c.PrivateKey → M (Unit {0})
  load_or_create key (d, m) =
      if m.loaded then (ok tt, (d, m)) else (open_files >> load_or_create_pair key) (d, m)

  abbrev pub is_some {ℓ} : {A : Type ℓ} → Option A → Bool
  is_some none = false
  is_some (some a) = true

  -- `ensure_loaded`
  unfoldable pub ensure_loaded : c.PrivateKey → M (Unit {0})
  ensure_loaded key (d, m) =
      if m.loaded && is_some m.signer && is_some m.verifier
      then (ok tt, (d, m))
      else load_or_create key (d, m)

  -- The destructor; the third stream closes itself.
  abbrev pub destroy : State → Disk
  destroy (d, m) = d

  abbrev pub join_peers :
      Result Peers.Error (TrustedPeer c)
      → Result Error (List (TrustedPeer c))
      → Result Error (List (TrustedPeer c))
  join_peers (err e) rest = err (bad_peer e)
  join_peers (ok peer) (err e) = err e
  join_peers (ok peer) (ok peers) = ok (peer ∷ peers)

  -- The models in order; the first that is not valid throws.
  unfoldable pub read_peers : List PeerModel → Result Error (List (TrustedPeer c))
  read_peers [] = ok []
  read_peers (model ∷ rest) = join_peers (from_json c model) (read_peers rest)

  -- nlohmann/json: a value in front of a text, with what follows it; and the models that it holds. Both
  -- throw (`none`) on anything else.
  pub record Json : Type 1 where
    pub Value : Type 0
    pub parse : List ℕ → Option (Value × List ℕ)
    pub models : Value → Option (List PeerModel)

  abbrev pub peers_of : Option (List PeerModel) → M (List (TrustedPeer c))
  peers_of none s = (err bad_json, s)
  peers_of (some models) s = (read_peers models, s)

  abbrev pub peers_behind : (json : Json) → Option (json.Value × List ℕ) → M (List (TrustedPeer c))
  peers_behind json none s = (err bad_json, s)
  peers_behind json (some (value, rest)) (d, m) =
      peers_of (json.models value) (d, record m { peers_unread = rest })

  -- `get_trusted_peers`, which reads on from where the stream stands.
  unfoldable pub get_trusted_peers : Json → M (List (TrustedPeer c))
  get_trusted_peers json (d, m) = peers_behind json (json.parse m.peers_unread) (d, m)
