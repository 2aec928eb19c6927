-- ===== src/Config/Tests.antt =====
-- Passphrases from a terminal that gives the lines of a list.
use gocryptsftp.Base.{
  ℕ, ◌≡◌, refl, true, List, [], ◌∷◌, arith, Bytes, codes, bytes_eq, if◌then◌else◌, some,
}
use gocryptsftp.FileTree.Defs.{Answer, gives, fails}
use gocryptsftp.Config.{
  Config, signer, incorrect_password, loaded, Libraries, is_private_key_encrypted, load_ssh_key,
}
use gocryptsftp.Config.Passphrase.{nothing_typed, types, load_ssh_key-right}

program : Unit {0}
unfolding is_private_key_encrypted bytes_eq
program = tt

abbrev config : Config
config = record {
  proxy_user = codes "u";
  proxy_password = codes "p";
  known_hosts_path = codes "/h";
  remote = record {
    addr = codes "a";
    file_root = codes "/r";
    user = codes "u";
    private_key_path = codes "/k";
  };
}

abbrev next_line : List Bytes → Answer Bytes × List Bytes
next_line [] = (fails 1, [])
next_line (x ∷ xs) = (gives x, xs)

-- The key opens with the passphrase `x`.
abbrev libraries : Libraries
libraries = record {
  Signer = ℕ;
  Terminal = List Bytes;
  read_file = λ p. gives (codes "key");
  unmarshal = λ b. gives config;
  read_password = λ p s. next_line s;
  Block = Bytes;
  decode_pem = λ b. some b;
  is_encrypted = λ b. true;
  parse_with_passphrase = λ k p. if bytes_eq p (codes "x") then signer 7 else incorrect_password;
  parse = λ b. fails 2;
}

abbrev typed : List Bytes
typed = codes "a" ∷ codes "b" ∷ codes "x" ∷ codes "y" ∷ []

load_ssh_key-right_example : load_ssh_key libraries config typed ≡ (loaded 7, codes "y" ∷ [])
unfolding program
load_ssh_key-right_example =
    load_ssh_key-right libraries config (codes "key") refl refl {ps = codes "a" ∷ codes "b" ∷ []}
      (codes "x") 7 (omega arith) (refl, (refl, tt)) (types refl (types refl nothing_typed)) refl
      refl
