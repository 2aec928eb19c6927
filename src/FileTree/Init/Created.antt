-- ===== src/FileTree/Init/Created.antt =====
-- `Init` of filetree/filetree.go with a configuration that `Create` of
-- gocrypt/configfile/config_file.go has made.
use gocryptsftp.Base.{
  ℕ, ◌≡◌, ◌≢◌, ◌≤◌, ◌<◌, ◌⊎◌, refl, ap, Bool, none, some, [], ◌∷◌, arith, Bytes, codes,
  bytes_eq_iff, lookup, insert, lookup-insert, length, replicate, not,
}
use gocryptsftp.Gocrypt.Content.Recover.{IsReady}
use gocryptsftp.Gocrypt.Content.Sizes.{IsGeometry}
use gocryptsftp.Gocrypt.Core.Made.{AreCiphers}
use gocryptsftp.Gocrypt.Conf.File.{ConfFile, gives_key, load_and_decrypt, create}
use gocryptsftp.Gocrypt.Conf.Keys.{IsScrypt}
use gocryptsftp.Gocrypt.Conf.Created.{IsJson, load_and_decrypt-create, create-HasFlags}
use gocryptsftp.FileTree.Paths.{join}
use gocryptsftp.FileTree.Defs.{gives}
use gocryptsftp.FileTree.Setup.{Crypto, set_up, set_up-IsReady, IsKeyed}
use gocryptsftp.Requester.System.{new_requester}
use gocryptsftp.Requester.Lifecycle.{begun}
use gocryptsftp.FileTree.Init.{Libraries, Disk, Started, started, removing, wipe, build, init}

wipe_zero : (key : Bytes) → wipe key ≡ replicate (length key) 0
unfolding wipe
wipe_zero [] = refl
wipe_zero (b ∷ bs) = ap (λ t. 0 ∷ t) (wipe_zero bs)

lookup_written : (name conf : Bytes) (d : Disk) → lookup name (insert name conf d) ≡ some conf
lookup_written name conf d = ground (arith, lookup-insert name name conf d, bytes_eq_iff name name)

module _ (l : Libraries) (num_workers : ℕ) (root password : Bytes) where
  -- The configuration is there, and its copy is written.
  pub record CopiesConf (text name : Bytes) : Type 0 where
    pub remote : l.remote_file (join root (codes "gocryptfs.conf")) ≡ gives text
    pub temp : l.temp_file ≡ gives name
    pub written_ok : l.write_error ≡ none
    pub closed_ok : l.close_error ≡ none

  init-unlocked :
      (text name key : Bytes) (conf : ConfFile) (m : Crypto) (d : Disk)
      → CopiesConf text name
      → load_and_decrypt l.ciphers l.scrypt_key l.unmarshal (some text) password
        ≡ gives_key (some key) conf
      → set_up l.ciphers l.packages key conf ≡ some m
      → (init l num_workers root password d).0 ≡ started (build num_workers root key m)
  unfolding init removing
  init-unlocked text name key conf m d c loads makes =
      rw
        (
          c.remote,
          c.temp,
          c.written_ok,
          c.closed_ok,
          lookup_written name text (insert name [] d),
          loads,
          makes,
        )
        refl

-- The tree that `Init` returns, and what it leaves of the key.
pub record IsUsable (l : Libraries) (plaintext_names : Bool) (root : Bytes) (num_workers : ℕ)
    (key : Bytes) (t : Started) : Type 0 where
  pub at_root : t.tree.encrypted_root ≡ root
  pub no_key : t.tree.master_key ≡ []
  pub wiped : t.key_memory ≡ replicate (length key) 0
  pub running : t.tree.requester ≡ begun (new_requester num_workers)
  pub keyed :
      IsKeyed l.ciphers l.packages
        (l.ciphers.hkdf_derive key (codes "EME filename encryption") 32)
        (l.ciphers.hkdf_derive key (codes "AES-GCM file content encryption") 32)
        (not plaintext_names)
        (not plaintext_names)
        t.tree.crypto
  pub ready : IsReady t.tree.crypto.content_enc
  pub sizes : IsGeometry t.tree.crypto.content_enc.geometry

build-IsUsable :
    (l : Libraries) (plaintext_names : Bool) (num_workers : ℕ) (root key : Bytes) (m : Crypto)
    → IsKeyed l.ciphers l.packages
        (l.ciphers.hkdf_derive key (codes "EME filename encryption") 32)
        (l.ciphers.hkdf_derive key (codes "AES-GCM file content encryption") 32)
        (not plaintext_names)
        (not plaintext_names)
        m
    → IsReady m.content_enc
    → IsGeometry m.content_enc.geometry
    → IsUsable l plaintext_names root num_workers key (build num_workers root key m)
unfolding build
build-IsUsable l plaintext_names num_workers root key m keyed ready sizes = record {
  at_root = refl;
  no_key = refl;
  wiped = wipe_zero key;
  running = refl;
  keyed = keyed;
  ready = ready;
  sizes = sizes;
}

-- Let a configuration be made by `Create` for a password that is not empty (its cost the default or 10
-- to 52, salt and key of 32 bytes, a nonce of 16 bytes that are not all 0), let it lie on the remote,
-- and let its copy be written. Then `Init` with that password returns a tree at its root whose workers
-- run. Its names are encrypted by EME under the first 32 bytes that HKDF derives of the very key that
-- `Create` was given, for "EME filename encryption", and are long and without padding unless `Create`
-- was asked for plaintext names; its contents by GCM with nonces of 16 bytes under those for
-- "AES-GCM file content encryption", also if `Create` was asked for AES-SIV. What GCM seals it opens,
-- the block sizes are as `decryptFile` needs them, and only zeros are left of the key.
pub init-create :
    (l : Libraries) (num_workers : ℕ) (root password : Bytes) (d : Disk) (name : Bytes)
    (marshal : ConfFile → Bytes) (plaintext_names : Bool) (log_n : ℕ) (creator : Bytes)
    (aessiv : Bool) (trezor_payload key salt nonce : Bytes)
    → AreCiphers l.ciphers
    → IsScrypt l.scrypt_key
    → IsJson marshal l.unmarshal (
        create l.ciphers l.scrypt_key password plaintext_names log_n creator aessiv trezor_payload
          key salt nonce)
    → 0 < length password
    → (log_n ≡ 0) ⊎ ((10 ≤ log_n) × (log_n ≤ 52))
    → length key ≡ 32
    → length salt ≡ 32
    → length nonce ≡ 16
    → nonce ≢ replicate 16 0
    → ((cf : ConfFile)
        → create l.ciphers l.scrypt_key password plaintext_names log_n creator aessiv trezor_payload
            key salt nonce
          ≡ some cf
        → CopiesConf l num_workers root password (marshal cf) name)
    → (t : Started) × ((init l num_workers root password d).0 ≡ started t)
      × IsUsable l plaintext_names root num_workers key t
init-create l num_workers root password d name marshal plaintext_names log_n creator aessiv
      trezor_payload key salt nonce a s j some_pw cost key_len salt_len nonce_len nonce_ok copies =
    let (cf, made, opens) =
      load_and_decrypt-create l.ciphers l.scrypt_key marshal l.unmarshal password plaintext_names
        log_n creator aessiv trezor_payload key salt nonce a s j some_pw cost key_len salt_len
        nonce_len nonce_ok in
    let (m, makes, ready, sizes, _, _, by_flags) =
      set_up-IsReady l.ciphers l.packages key cf a key_len in
    let flags =
      create-HasFlags l.ciphers l.scrypt_key password plaintext_names log_n creator aessiv
        trezor_payload key salt nonce cf made in
    let keyed = rw (flags.hkdf, flags.long_names, flags.raw64) at by_flags in
    (
      build num_workers root key m,
      init-unlocked l num_workers root password (marshal cf) name key cf m d (copies cf made) opens
          makes,
      build-IsUsable l plaintext_names num_workers root key m keyed ready sizes,
    )
