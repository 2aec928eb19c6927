-- ===== src/FileTree/Spec.antt =====
-- What a path stands for in a remote tree that does not change, with no cache.
use gocryptsftp.Base.{
  ◌≡◌, ◌≢◌, ◌∙◌, Option-cases, refl, inl, inr, true, Option, none, some, List, [], ◌∷◌, arith,
  Bytes, bytes_eq, if◌then◌else◌,
}
use gocryptsftp.Requester.Defs.{FileInfo}
use gocryptsftp.FileTree.Paths.{slash, clean, dir, base, join}
use gocryptsftp.FileTree.Defs.{
  Answer, gives, fails, Remote, Error, reading_iv, listing_directory, iterating, not_found, Tree,
  Run, ok, err, and_then, wrap,
}
use gocryptsftp.FileTree.Walk.{
  iv_name, range_loop, range_in_dir, match_name, chosen, find_in_dir, looped,
}

-- The content of the remote.
pub record Content : Type 0 where
  pub file : Bytes → Answer Bytes
  pub listing : Bytes → Answer (List FileInfo)
  pub plain_name : Bytes → Bytes → Answer Bytes

-- The remote answers by its content, whatever its state, and no name that it is asked for makes
-- `DecryptName` panic.
pub record Stable {S : Type 0} (r : Remote S) (a : Content) : Type 0 where
  pub reads : (p : Bytes) (s : S) → (r.read_file p s).0 ≡ a.file p
  pub lists : (p : Bytes) (s : S) → (r.read_dir p s).0 ≡ a.listing p
  pub decrypts : (n iv : Bytes) (s : S) → (r.decrypt_name n iv s).0 ≡ some (a.plain_name n iv)

module _ (a : Content) where
  abbrev matches : Bytes → FileInfo → Answer Bytes → Option FileInfo → Option FileInfo
  matches name info (fails _) other = other
  matches name info (gives n) other = if bytes_eq name n then some info else other

  -- The first entry whose decrypted name is the one wanted.
  abbrev pub first_match : Bytes → Bytes → List FileInfo → Option FileInfo
  first_match iv name [] = none
  first_match iv name (info ∷ rest) =
      matches name info (a.plain_name info.name iv) (first_match iv name rest)

  abbrev match_listing : Bytes → Bytes → Answer (List FileInfo) → Option FileInfo
  match_listing iv name (fails _) = none
  match_listing iv name (gives l) = first_match iv name l

  abbrev match_iv : Bytes → Bytes → Answer Bytes → Option FileInfo
  match_iv path name (fails _) = none
  match_iv path name (gives iv) = match_listing iv name (a.listing path)

  -- The entry of a plaintext name in a ciphertext directory.
  unfoldable pub child : Bytes → Bytes → Option FileInfo
  child path name = match_iv path name (a.file (join path iv_name))

  -- A clean plaintext path and the ciphertext path of its directory.
  pub data Resolves (root : Bytes) : Bytes → Bytes → Type 0 where
    at_root : {p v : Bytes} → p ≡ slash → v ≡ root → Resolves root p v
    below :
        {p v : Bytes} (u : Bytes) (info : FileInfo)
        → p ≢ slash
        → Resolves root (clean (dir p)) u
        → child u (base p) ≡ some info
        → info.is_dir ≡ true
        → v ≡ join u info.name
        → Resolves root p v

  -- A path stands for at most one directory.
  pub Resolves-unique : {root p v w : Bytes} → Resolves root p v → Resolves root p w → v ≡ w
  Resolves-unique (at_root e x) (at_root e' y) = cc
  Resolves-unique (at_root e x) (below u i ne r c d y) = absurd (ne e)
  Resolves-unique (below u i ne r c d y) (at_root e x) = absurd (ne e)
  Resolves-unique (below u i ne r c d x) (below u' i' ne' r' c' d' y) =
      let q : u ≡ u' = Resolves-unique r r' in ground arith

  module _ {S : Type 0} {r : Remote S} (st : Stable r a) where
    range_loop-first_match :
        (iv name : Bytes) (l : List FileInfo) (s : S)
        → (range_loop r iv (match_name r name) l none s).0 ≡ some (first_match iv name l)
    unfolding range_loop
    range_loop-first_match iv name [] s = refl
    range_loop-first_match iv name (info ∷ rest) s = ground (
      arith,
      st.decrypts info.name iv s,
      range_loop-first_match iv name rest (r.decrypt_name info.name iv s).1,
    )

    -- A run that looks for an entry ends with the entry or an error, and leaves the cache alone.
    abbrev pub LooksUp : Tree S → Option FileInfo → Run S FileInfo → Type 0
    LooksUp t (some i) x = (s : S) × (x ≡ ok i (record t { remote = s }))
    LooksUp t none x = (s : S) × (e : Error) × (x ≡ err e (record t { remote = s }))

    -- `findInDir` behind its two reads.
    find_in_listing :
        (path name iv : Bytes) (l : List FileInfo) (t : Tree S)
        → LooksUp t (first_match iv name l) (
            and_then
              (wrap (iterating path) (
                looped
                  (range_loop r iv (match_name r name) l none t.remote).0
                  (range_loop r iv (match_name r name) l none t.remote).1
                  t))
              (chosen path name))
    find_in_listing path name iv l t = elim (Option-cases (first_match iv name l)) [
      | inl q ↦
          rw (range_loop-first_match iv name l t.remote, q)
            ((range_loop r iv (match_name r name) l none t.remote).1, not_found name path, refl)
      | inr (i, q) ↦
          rw (range_loop-first_match iv name l t.remote, q)
            ((range_loop r iv (match_name r name) l none t.remote).1, refl)
    ]

    find_in_dir-answers :
        (path name : Bytes) (t : Tree S) (x : Answer Bytes)
        → a.file (join path iv_name) ≡ x
        → (y : Answer (List FileInfo)) → a.listing path ≡ y
        → LooksUp t (match_iv path name x) (find_in_dir r path name t)
    unfolding find_in_dir range_in_dir
    find_in_dir-answers path name t (fails e) p y q =
        rw (st.reads (join path iv_name) t.remote ∙ p, find_in_dir)
          ((r.read_file (join path iv_name) t.remote).1, iterating path (reading_iv e), refl)
    find_in_dir-answers path name t (gives iv) p (fails e) q =
        let s₁ : S = (r.read_file (join path iv_name) t.remote).1 in
        rw (q, st.reads (join path iv_name) t.remote ∙ p, st.lists path s₁ ∙ q)
          ((r.read_dir path s₁).1, iterating path (listing_directory e), refl)
    find_in_dir-answers path name t (gives iv) p (gives l) q =
        let s₁ : S = (r.read_file (join path iv_name) t.remote).1 in
        rw (q, st.reads (join path iv_name) t.remote ∙ p, st.lists path s₁ ∙ q)
          (find_in_listing path name iv l (record t { remote = (r.read_dir path s₁).1 }))

    -- `findInDir` finds the first entry whose decrypted name is the one wanted, if the directory
    -- has its initialization vector and can be listed, and fails otherwise.
    pub find_in_dir-child :
        (path name : Bytes) (t : Tree S) → LooksUp t (child path name) (find_in_dir r path name t)
    unfolding child
    find_in_dir-child path name t =
        find_in_dir-answers path name t (a.file (join path iv_name)) refl (a.listing path) refl
