-- ===== src/Keys/Manager/Kept.antt =====
-- That the files of a key manager lose nothing (src/keys.cpp).
use audpipe_cpp.Prelude.{
  ℕ, ◌≡◌, refl, sym, ap, ◌∙◌, true, not, ◌||◌, if_both, Option, none, some, List, [], ◌++◌,
  append_assoc, append-nil, Result, ok, err,
}
use audpipe_cpp.Prelude.Effects.{◌>>=◌, ◌>>◌}
use audpipe_cpp.Keys.Crypto.{Crypto}
use audpipe_cpp.Keys.Manager.{
  dir_ready, with_dir, File, pubkey_file, privkey_file, trusted_peers_file, Disk, Error, or_empty,
  KeyManager, State, M, is_open, touch, opened, ensure_file_open, create_pubkey, create, load,
  close_keys, loaded_pubkey, loaded_privkey, has_no_text, load_or_create_pair, open_files,
  load_or_create,
}

-- Each file still starts with what it held; that of the trusted peers holds just this.
pub record Extends (d d' : Disk) : Type 0 where
  pub public_added : List ℕ
  pub private_added : List ℕ
  pub pubkey : or_empty d'.pubkey_text ≡ or_empty d.pubkey_text ++ public_added
  pub privkey : or_empty d'.privkey_text ≡ or_empty d.privkey_text ++ private_added
  pub trusted_peers : or_empty d'.trusted_peers_text ≡ or_empty d.trusted_peers_text

same-Extends :
    (d d' : Disk)
    → or_empty d'.pubkey_text ≡ or_empty d.pubkey_text
    → or_empty d'.privkey_text ≡ or_empty d.privkey_text
    → or_empty d'.trusted_peers_text ≡ or_empty d.trusted_peers_text
    → Extends d d'
same-Extends d d' public private peers = record {
  public_added = [];
  private_added = [];
  pubkey = public ∙ sym (append-nil (or_empty d.pubkey_text));
  privkey = private ∙ sym (append-nil (or_empty d.privkey_text));
  trusted_peers = peers;
}

pub Extends-refl : (d : Disk) → Extends d d
Extends-refl d = same-Extends d d refl refl refl

Extends-trans : (d d' d'' : Disk) → Extends d d' → Extends d' d'' → Extends d d''
Extends-trans d d' d'' first later = record {
  public_added = first.public_added ++ later.public_added;
  private_added = first.private_added ++ later.private_added;
  pubkey =
      later.pubkey
      ∙ ap (λ text. text ++ later.public_added) first.pubkey
      ∙ append_assoc (or_empty d.pubkey_text) first.public_added later.public_added;
  privkey =
      later.privkey
      ∙ ap (λ text. text ++ later.private_added) first.privkey
      ∙ append_assoc (or_empty d.privkey_text) first.private_added later.private_added;
  trusted_peers = later.trusted_peers ∙ first.trusted_peers;
}

module _ (c : Crypto) where
  -- A computation that only appends, also where it throws.
  abbrev OnlyAppends : {A : Type 0} → M c A → Type 0
  OnlyAppends m = (s : State c) → Extends s.0 (m s).1.0

  >>=-OnlyAppends :
      {A B : Type 0} (m : M c A) (next : A → M c B)
      → OnlyAppends m
      → ((a : A) → OnlyAppends (next a))
      → OnlyAppends (m >>= next)
  >>=-OnlyAppends {A} {B} m next first later s = after (m s) (first s)
    where
      after :
          (out : Result Error A × State c)
          → Extends s.0 out.1.0
          → Extends s.0
              (elim out.0 as (λ _. Result Error B × State c) [
                | err e ↦ (err e, out.1)
                | ok a ↦ next a out.1
              ]).1.0
      after (err e, s') kept = kept
      after (ok a, s') kept = Extends-trans s.0 s'.0 (next a s').1.0 kept (later a s')

  opened-Extends : (file : File) (s : State c) → Extends s.0 (opened c file s).0
  opened-Extends pubkey_file (d, m) = same-Extends d (touch pubkey_file d) refl refl refl
  opened-Extends privkey_file (d, m) = same-Extends d (touch privkey_file d) refl refl refl
  opened-Extends trusted_peers_file (d, m) =
      same-Extends d (touch trusted_peers_file d) refl refl refl

  ensure_file_open-OnlyAppends : (file : File) → OnlyAppends (ensure_file_open c file)
  unfolding ensure_file_open
  ensure_file_open-OnlyAppends file s =
      if_both (λ (r : Result Error (Unit {0}) × State c). Extends s.0 r.1.0) (not (dir_ready s.0))
        (Extends-refl s.0)
        (if_both (λ (r : Result Error (Unit {0}) × State c). Extends s.0 r.1.0)
          (is_open c file s.1 || not (s.0.can_open file))
          (same-Extends s.0 (with_dir s.0) refl refl refl) (opened-Extends file s))

  create-OnlyAppends : (key : c.PrivateKey) → OnlyAppends (create c key)
  unfolding create create_pubkey
  create-OnlyAppends key s = record {
    public_added = c.base64_encode true (c.save_public (c.public_of key));
    private_added = c.base64_encode true (c.save_private key);
    pubkey = refl;
    privkey = refl;
    trusted_peers = refl;
  }

  load-OnlyAppends : OnlyAppends (load c)
  unfolding load
  load-OnlyAppends (d, m) =
      by_keys (c.load_public (c.base64_decode (or_empty d.pubkey_text)))
        (c.load_private (c.base64_decode (or_empty d.privkey_text))) (close_keys c (d, m))
    where
      by_keys :
          (public : Option c.PublicKey) (private : Option c.PrivateKey) (s : State c)
          → Extends s.0 ((loaded_pubkey c public >> loaded_privkey c private) s).1.0
      by_keys none private s = Extends-refl s.0
      by_keys (some public) none s = Extends-refl s.0
      by_keys (some public) (some private) s = Extends-refl s.0

  open_files-OnlyAppends : OnlyAppends (open_files c)
  unfolding open_files
  open_files-OnlyAppends =
      >>=-OnlyAppends (ensure_file_open c pubkey_file)
        (λ _. ensure_file_open c privkey_file >> ensure_file_open c trusted_peers_file)
        (ensure_file_open-OnlyAppends pubkey_file)
        (λ _.
          >>=-OnlyAppends (ensure_file_open c privkey_file)
            (λ _. ensure_file_open c trusted_peers_file) (ensure_file_open-OnlyAppends privkey_file)
            (λ _. ensure_file_open-OnlyAppends trusted_peers_file))

  load_or_create_pair-OnlyAppends : (key : c.PrivateKey) → OnlyAppends (load_or_create_pair c key)
  unfolding load_or_create_pair
  load_or_create_pair-OnlyAppends key s =
      if_both (λ (m : M c (Unit {0})). Extends s.0 (m s).1.0)
        (has_no_text c s.0.privkey_text || has_no_text c s.0.pubkey_text) (create-OnlyAppends key s)
        (load-OnlyAppends s)

  -- Whatever the directory and the manager are, and also when it throws.
  pub load_or_create-Extends :
      (key : c.PrivateKey) (d : Disk) (m : KeyManager c)
      → Extends d (load_or_create c key (d, m)).1.0
  unfolding load_or_create
  load_or_create-Extends key d m =
      if_both (λ (r : Result Error (Unit {0}) × State c). Extends d r.1.0) m.loaded (Extends-refl d)
        (>>=-OnlyAppends (open_files c) (λ _. load_or_create_pair c key) open_files-OnlyAppends
          (λ _. load_or_create_pair-OnlyAppends key) (d, m))
