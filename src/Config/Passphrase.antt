-- ===== src/Config/Passphrase.antt =====
-- Which passphrase `LoadSSHKey` takes, and how often it asks.
use gocryptsftp.Base.{ℕ, zero, suc, ◌<◌, ◌≡◌, refl, true, List, [], ◌∷◌, arith, Bytes, length, some}
use gocryptsftp.FileTree.Defs.{gives}
use gocryptsftp.Config.{
  Config, signer, incorrect_password, loaded, no_key, wrong_passphrases, Libraries,
  is_private_key_encrypted, ask_passphrase, load_ssh_key, key_prompt,
}

module _ (l : Libraries) (path key : Bytes) where
  -- The terminal gives these passphrases, one per prompt, and stands at the second state then.
  pub data Types : List Bytes → l.Terminal → l.Terminal → Type 0 where
    nothing_typed : {s : l.Terminal} → Types [] s s
    types :
        {p : Bytes} {ps : List Bytes} {s s' s'' : l.Terminal}
        → l.read_password (key_prompt l path) s ≡ (gives p, s')
        → Types ps s' s''
        → Types (p ∷ ps) s s''

  abbrev pub AllWrong : List Bytes → Type 0
  AllWrong [] = Unit
  AllWrong (p ∷ ps) = (l.parse_with_passphrase key p ≡ incorrect_password) × AllWrong ps

  ask_passphrase-right :
      (n : ℕ) {ps : List Bytes} {s s' s'' : l.Terminal} (p : Bytes) (k : l.Signer)
      → length ps < n
      → AllWrong ps
      → Types ps s s'
      → l.read_password (key_prompt l path) s' ≡ (gives p, s'')
      → l.parse_with_passphrase key p ≡ signer k
      → ask_passphrase l n path key s ≡ (loaded k, s'')
  unfolding ask_passphrase
  ask_passphrase-right zero p k less w t e h = absurd (omega (arith, less))
  ask_passphrase-right (suc n) p k less w nothing_typed e h = rw (e, h) refl
  ask_passphrase-right (suc n) p k less w (types q t) e h =
      rw (q, w.0) (ask_passphrase-right n p k (omega (arith, less)) w.1 t e h)

  ask_passphrase-wrong :
      (n : ℕ) {ps : List Bytes} {s s' : l.Terminal}
      → length ps ≡ n
      → AllWrong ps
      → Types ps s s'
      → ask_passphrase l n path key s ≡ (no_key wrong_passphrases, s')
  unfolding ask_passphrase
  ask_passphrase-wrong zero less w nothing_typed = refl
  ask_passphrase-wrong zero less w (types q t) = absurd (omega (arith, less))
  ask_passphrase-wrong (suc n) less w nothing_typed = absurd (omega (arith, less))
  ask_passphrase-wrong (suc n) less w (types q t) =
      rw (q, w.0) (ask_passphrase-wrong n (omega (arith, less)) w.1 t)

module _ (l : Libraries) (c : Config) (key : Bytes)
    (read : l.read_file c.remote.private_key_path ≡ gives key)
    (locked : is_private_key_encrypted l key ≡ some true) where
  -- If the private key is encrypted, `LoadSSHKey` takes the first passphrase that fits, when no
  -- more than two wrong ones are typed before it, and then asks no more.
  pub load_ssh_key-right :
      {ps : List Bytes} {s s' s'' : l.Terminal} (p : Bytes) (k : l.Signer)
      → length ps < 3
      → AllWrong l c.remote.private_key_path key ps
      → Types l c.remote.private_key_path key ps s s'
      → l.read_password (key_prompt l c.remote.private_key_path) s' ≡ (gives p, s'')
      → l.parse_with_passphrase key p ≡ signer k
      → load_ssh_key l c s ≡ (loaded k, s'')
  unfolding load_ssh_key
  load_ssh_key-right p k less w t e h =
      rw (read, locked) (ask_passphrase-right l c.remote.private_key_path key 3 p k less w t e h)

  -- If the private key is encrypted, `LoadSSHKey` fails after three wrong passphrases, and asks no
  -- more than three times.
  pub load_ssh_key-wrong :
      {ps : List Bytes} {s s' : l.Terminal}
      → length ps ≡ 3
      → AllWrong l c.remote.private_key_path key ps
      → Types l c.remote.private_key_path key ps s s'
      → load_ssh_key l c s ≡ (no_key wrong_passphrases, s')
  unfolding load_ssh_key
  load_ssh_key-wrong three w t =
      rw (read, locked) (ask_passphrase-wrong l c.remote.private_key_path key 3 three w t)
