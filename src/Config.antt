-- ===== src/Config.antt =====
-- config/config.go. The file system, the JSON decoder, the PEM and SSH parsers and the terminal
-- are not part of the repository: they enter as functions, and what the terminal gives next is a
-- state that is passed on.
pub mod Passphrase
mod Tests
use gocryptsftp.Base.{
  ℕ, zero, suc, Bool, true, false, Option, none, some, List, [], ◌∷◌, ◌++◌, Bytes, codes,
  if◌then◌else◌,
}
use gocryptsftp.Requester.Defs.{ErrorCode}
use gocryptsftp.FileTree.Defs.{Answer, gives, fails}

pub record RemoteConfig : Type 0 where
  pub addr : Bytes
  pub file_root : Bytes
  pub user : Bytes
  pub private_key_path : Bytes

pub record Config : Type 0 where
  pub proxy_user : Bytes
  pub proxy_password : Bytes
  pub known_hosts_path : Bytes
  pub remote : RemoteConfig

-- How `ssh.ParsePrivateKeyWithPassphrase` ends.
pub data Parsed (Signer : Type 0) : Type 0 where
  signer : Signer → Parsed Signer
  incorrect_password : Parsed Signer
  other_error : ErrorCode → Parsed Signer

pub data KeyError : Type 0 where
  cannot_load : ErrorCode → KeyError
  no_passphrase : ErrorCode → KeyError
  wrong_passphrases : KeyError
  bad_key : ErrorCode → KeyError

pub data KeyResult (Signer : Type 0) : Type 0 where
  loaded : Signer → KeyResult Signer
  no_key : KeyError → KeyResult Signer
  key_panics : KeyResult Signer

pub record Libraries : Type 1 where
  pub Signer : Type 0
  pub Terminal : Type 0
  pub read_file : Bytes → Answer Bytes
  pub unmarshal : Bytes → Answer Config
  pub read_password : Bytes → Terminal → Answer Bytes × Terminal
  pub Block : Type 0
  pub decode_pem : Bytes → Option Block  -- `pem.Decode`; `none` is `nil`
  pub is_encrypted : Block → Bool  -- `x509.IsEncryptedPEMBlock`
  pub parse_with_passphrase : Bytes → Bytes → Parsed Signer
  pub parse : Bytes → Answer Signer

module _ (l : Libraries) where
  abbrev unmarshalled : Answer Bytes → Answer Config
  unmarshalled (fails e) = fails e
  unmarshalled (gives b) = l.unmarshal b

  unfoldable pub load_config : Bytes → Answer Config
  load_config path = unmarshalled (l.read_file path)

  -- `none` is a panic: `x509.IsEncryptedPEMBlock` reads a field of its block, which may be `nil`.
  unfoldable pub is_private_key_encrypted : Bytes → Option Bool
  is_private_key_encrypted key = elim (l.decode_pem key) [
    | none ↦ none
    | some block ↦ some (l.is_encrypted block)
  ]

  unfoldable pub key_prompt : Bytes → Bytes
  key_prompt path = codes "Enter passphrase for key '" ++ (path ++ codes "': ")

  abbrev pub prompt_attempts : ℕ
  prompt_attempts = 3

  abbrev tried :
      l.Terminal
      → KeyResult l.Signer × l.Terminal
      → Parsed l.Signer
      → KeyResult l.Signer × l.Terminal
  tried s more (signer k) = (loaded k, s)
  tried s more incorrect_password = more
  tried s more (other_error e) = (no_key (bad_key e), s)

  abbrev prompted :
      (l.Terminal → KeyResult l.Signer × l.Terminal)
      → Bytes
      → Answer Bytes × l.Terminal
      → KeyResult l.Signer × l.Terminal
  prompted again key (fails e, s) = (no_key (no_passphrase e), s)
  prompted again key (gives p, s) = tried s (again s) (l.parse_with_passphrase key p)

  -- The loop of `LoadSSHKey`, with the rounds that are left.
  unfoldable pub ask_passphrase : ℕ → Bytes → Bytes → l.Terminal → KeyResult l.Signer × l.Terminal
  ask_passphrase zero path key s = (no_key wrong_passphrases, s)
  ask_passphrase (suc n) path key s =
      prompted (ask_passphrase n path key) key (l.read_password (key_prompt path) s)

  abbrev parsed : Answer l.Signer → KeyResult l.Signer
  parsed (gives k) = loaded k
  parsed (fails e) = no_key (bad_key e)

  abbrev pub load_pem : Bytes → Bytes → Option Bool → l.Terminal → KeyResult l.Signer × l.Terminal
  load_pem path key none s = (key_panics, s)
  load_pem path key (some true) s = ask_passphrase prompt_attempts path key s
  load_pem path key (some false) s = (parsed (l.parse key), s)

  abbrev pub load_key : Bytes → Answer Bytes → l.Terminal → KeyResult l.Signer × l.Terminal
  load_key path (fails e) s = (no_key (cannot_load e), s)
  load_key path (gives key) s = load_pem path key (is_private_key_encrypted key) s

  unfoldable pub load_ssh_key : Config → l.Terminal → KeyResult l.Signer × l.Terminal
  load_ssh_key c s = load_key c.remote.private_key_path (l.read_file c.remote.private_key_path) s

  unfoldable pub get_decryption_passphrase : Config → l.Terminal → Answer Bytes × l.Terminal
  get_decryption_passphrase c s =
      l.read_password
        (codes "Enter passphrase for gocryptfs root at '" ++ (c.remote.file_root ++ codes "': ")) s
