-- ===== src/FileTree/Init.antt =====
-- filetree/filetree.go: `Init`, with the disk on which it leaves the configuration for the package
-- configfile to read.
pub mod Disk
pub mod Created
use gocryptsftp.Base.{
  ℕ, ◌≡◌, ◌≢◌, refl, sym, Bool, false, Option, none, some, List, [], arith, Bytes, codes, bytes_eq,
  lookup, insert, delete, lookup-insert, lookup-delete, map, bytes_eq_iff,
}
use gocryptsftp.FastCache.{FastCache, new_fast_cache}
use gocryptsftp.Requester.Defs.{ErrorCode}
use gocryptsftp.Requester.System.{System, new_requester}
use gocryptsftp.Requester.Lifecycle.{begun}
use gocryptsftp.Gocrypt.Core.{Ciphers}
use gocryptsftp.Gocrypt.Names.Transform.{Packages}
use gocryptsftp.Gocrypt.Conf.Scrypt.{ScryptKdf}
use gocryptsftp.Gocrypt.Conf.File.{
  ConfFile, ConfError, Unlocked, gives_key, load_error, load_exits, load_panics, load_and_decrypt,
}
use gocryptsftp.FileTree.Paths.{join}
use gocryptsftp.FileTree.Defs.{Answer, gives, fails}
use gocryptsftp.FileTree.Setup.{Crypto, set_up}

abbrev pub cache_size : ℕ
cache_size = 16

-- The remote's answer to a read, what the operating system answers, and the libraries that
-- gocrypt/configfile and gocrypt/cryptocore use.
pub record Libraries : Type 0 where
  pub remote_file : Bytes → Answer Bytes
  pub temp_file : Answer Bytes  -- the name of a file that is new
  pub write_error : Option ErrorCode
  pub close_error : Option ErrorCode
  pub ciphers : Ciphers
  pub packages : Packages
  pub scrypt_key : ScryptKdf → Bytes → Option Bytes
  pub unmarshal : Bytes → Option ConfFile

pub record FileTree : Type 0 where
  pub encrypted_root : Bytes
  pub master_key : Bytes
  pub fast_cache : FastCache
  pub crypto : Crypto
  pub requester : System

abbrev pub Disk : Type 0
Disk = List (Bytes × Bytes)

-- `for i := range masterKey { masterKey[i] = 0 }`, on the key that configfile returned.
unfoldable pub wipe : Bytes → Bytes
wipe key = map (λ _. 0) key

-- What `Init` returns, with the bytes that stand where the key was.
pub record Started : Type 0 where
  pub tree : FileTree
  pub key_memory : Bytes

-- How `Init` ends: with a tree, an error of the remote or the disk, an error of configfile, a panic,
-- or the end of the process by `os.Exit`.
pub data InitResult : Type 0 where
  started : Started → InitResult
  failed : ErrorCode → InitResult
  refused : ConfError → InitResult
  init_panics init_exits : InitResult

unfoldable pub build : ℕ → Bytes → Bytes → Crypto → Started
unfolding wipe
build num_workers root key crypto = record {
  tree = record {
    encrypted_root = root;
    master_key = [];
    fast_cache = new_fast_cache cache_size;
    crypto = crypto;
    requester = begun (new_requester num_workers);
  };
  key_memory = wipe key;
}

-- The bytes of a slice, of which `nil` has none.
abbrev pub key_bytes : Option Bytes → Bytes
key_bytes none = []
key_bytes (some key) = key

-- `defer os.Remove(f.Name())`, which `os.Exit` does not run.
unfoldable pub removing : Bytes → InitResult × Disk → InitResult × Disk
removing name (init_exits, d) = (init_exits, d)
removing name (r, d) = (r, delete name d)

module _ (l : Libraries) (num_workers : ℕ) (root password : Bytes) where
  abbrev pub built_with : Bytes → Option Crypto → InitResult
  built_with key none = init_panics
  built_with key (some crypto) = started (build num_workers root key crypto)

  abbrev pub built : Unlocked → InitResult
  built (gives_key k conf) =
      built_with (key_bytes k) (set_up l.ciphers l.packages (key_bytes k) conf)
  built (load_error x) = refused x
  built load_exits = init_exits
  built load_panics = init_panics

  abbrev pub closed : Option ErrorCode → Bytes → Disk → InitResult × Disk
  closed (some e) name d = (failed e, d)
  closed none name d =
      (built (load_and_decrypt l.ciphers l.scrypt_key l.unmarshal (lookup name d) password), d)

  abbrev pub written : Option ErrorCode → Bytes → Bytes → Disk → InitResult × Disk
  written (some e) name conf d = (failed e, d)
  written none name conf d = closed l.close_error name (insert name conf d)

  abbrev pub with_temp : Answer Bytes → Bytes → Disk → InitResult × Disk
  with_temp (fails e) conf d = (failed e, d)
  with_temp (gives name) conf d = removing name (written l.write_error name conf (insert name [] d))

  abbrev pub with_conf : Answer Bytes → Disk → InitResult × Disk
  with_conf (fails e) d = (failed e, d)
  with_conf (gives conf) d = with_temp l.temp_file conf d

  unfoldable pub init : Disk → InitResult × Disk
  init d = with_conf (l.remote_file (join root (codes "gocryptfs.conf"))) d
