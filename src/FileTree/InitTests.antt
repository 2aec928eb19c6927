-- ===== src/FileTree/InitTests.antt =====
-- `Init` with a configuration that `Create` has made, and one whose copy cannot be closed.
use gocryptsftp.Base.{
  ◌≡◌, refl, inl, false, none, some, [], ◌∷◌, Bytes, codes, arith, replicate, lookup, insert,
  delete, bytes_eq,
}
use gocryptsftp.FileTree.Paths.{is_rooted, split, push, push_all, render, clean, join}
use gocryptsftp.FileTree.Defs.{Answer, gives}
use gocryptsftp.Gocrypt.Conf.Sample.{
  ciphers, ciphers-AreCiphers, scrypt, scrypt-IsScrypt, password, key, made, text, made-IsJson,
  packages,
}
use gocryptsftp.FileTree.Init.{Libraries, Disk, Started, started, removing, init}
use gocryptsftp.FileTree.Init.Disk.{init-disk}
use gocryptsftp.FileTree.Init.Created.{CopiesConf, IsUsable, init-create}

abbrev root : Bytes
root = codes "R"

abbrev libraries : Libraries
libraries = record {
  remote_file = λ p. gives text;
  temp_file = gives (codes "/tmp/x");
  write_error = none;
  close_error = none;
  ciphers = ciphers;
  packages = packages;
  scrypt_key = scrypt;
  unmarshal = λ t. made;
}

abbrev unclosed : Libraries
unclosed = record libraries { close_error = some 5 }

abbrev disk : Disk
disk = (codes "/etc/y", codes "y") ∷ []

copies : CopiesConf libraries 2 root password text (codes "/tmp/x")
copies = record { remote = refl; temp = refl; written_ok = refl; closed_ok = refl }

init-create_example :
    (t : Started) × ((init libraries 2 root password disk).0 ≡ started t)
    × IsUsable libraries false root 2 key t
init-create_example =
    init-create libraries 2 root password disk (codes "/tmp/x") (λ cf. text) false 0 (codes "test")
      false [] key (replicate 32 2) (replicate 16 6) ciphers-AreCiphers scrypt-IsScrypt made-IsJson
      (omega arith) (inl refl) refl refl refl (λ h. cc) (λ cf e. copies)

temp_name :
    (name : Bytes)
    → ◌≡◌ {A = Answer Bytes} (gives (codes "/tmp/x")) (gives name)
    → codes "/tmp/x" ≡ name
temp_name name e = cc

init-disk_example :
    lookup (codes "/tmp/x") (init unclosed 2 root password disk).1 ≡ lookup (codes "/tmp/x") disk
unfolding init removing is_rooted split push push_all render clean join lookup insert delete
    bytes_eq
init-disk_example =
    init-disk unclosed 2 root password disk (codes "/tmp/x")
      (λ name e. rw (← temp_name name e) refl) (λ e. cc)
