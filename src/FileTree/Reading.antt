-- ===== src/FileTree/Reading.antt =====
-- `ReadFile` against the file that the path stands for.
use gocryptsftp.Base.{
  ℕ, ◌<◌, ◌≡◌, ◌≢◌, ◌∙◌, refl, inl, inr, Bool, true, false, Option, none, some, arith, Bytes,
  bytes_eq, bytes_eq_iff, if◌then◌else◌, Bool-cases, length,
}
use gocryptsftp.Requester.Defs.{FileInfo}
use gocryptsftp.FileTree.Paths.{slash, is_rooted, clean, dir, base, join}
use gocryptsftp.FileTree.Paths.Shorter.{parent_shorter, length-clean-le}
use mathlib.Core.Path.{subst}
use gocryptsftp.FileTree.Plaintext.{Opens, Crashes, CannotOpen, decrypt_file-Means}
use gocryptsftp.FileTree.Defs.{
  Answer, gives, fails, Remote, ContentEnc, finding_parent, is_directory, reading_file, Tree, Run,
  ok, err, panic, out_of_fuel, M, and_then, wrap, ask, reply, throw,
}
use gocryptsftp.FileTree.Walk.{find_in_dir, find_path}
use gocryptsftp.FileTree.Calls.{
  Decrypted, plain, failed, crashed, decrypt_file, decrypted, read_file,
}
use gocryptsftp.FileTree.Spec.{
  Content, Stable, child, Resolves, Resolves-unique, LooksUp, find_in_dir-child,
}
use gocryptsftp.FileTree.Resolution.{TreeOk, Finds, find_path-Finds, with_remote-TreeOk}

module _ (a : Content) (root : Bytes) where
  -- The encrypted content of the file that a clean path stands for.
  pub record Contains (q b : Bytes) : Type 0 where
    pub no_root : q ≢ slash
    pub parent : Bytes
    pub parent_found : Resolves a root (clean (dir q)) parent
    pub info : FileInfo
    pub listed : child a parent (base q) ≡ some info
    pub no_dir : info.is_dir ≡ false
    pub content : a.file (join parent info.name) ≡ gives b

  -- A path stands for at most one file.
  pub Contains-unique : {q b c : Bytes} → Contains q b → Contains q c → b ≡ c
  Contains-unique x y =
      let p : x.parent ≡ y.parent = Resolves-unique a x.parent_found y.parent_found in
      ground (arith, p, x.listed, y.listed, x.content, y.content)

module _ (a : Content) (root : Bytes) (e : ContentEnc) (big : Bytes → Bool) {S : Type 0} where
  -- The outcome of reading a clean path.
  abbrev pub ReadsFile : Bytes → Run S Bytes → Type 0
  ReadsFile q (ok text t) =
      TreeOk a root t × ((b : Bytes) × Contains a root q b × Opens e big b text)
  ReadsFile q (err x t) = TreeOk a root t × ((b : Bytes) → Contains a root q b → CannotOpen e big b)
  ReadsFile q panic = (b : Bytes) × Contains a root q b × Crashes e big b
  ReadsFile q out_of_fuel = ⊥

  module _ {r : Remote S} (st : Stable r a) (fuel : ℕ) where
    decrypted-ReadsFile :
        (q path b : Bytes) (t : Tree S)
        → TreeOk a root t
        → Contains a root q b
        → (d : Decrypted) → decrypt_file e big b ≡ d
        → ReadsFile q (decrypted e big r fuel path d t)
    decrypted-ReadsFile q path b t k c (plain text) h =
        (k, (b, c, decrypt_file-Means e big b (plain text) h))
    decrypted-ReadsFile q path b t k c (failed x) h = (
      k,
      λ b' c'.
          subst (CannotOpen e big) (Contains-unique a root c c')
            (decrypt_file-Means e big b (failed x) h),
    )
    decrypted-ReadsFile q path b t k c crashed h = (b, c, decrypt_file-Means e big b crashed h)

    -- `ReadFile` from the entry on.
    abbrev pub fetch : Bytes → FileInfo → M S Bytes
    fetch u item t =
        and_then (reply (reading_file (join u item.name)) (ask (r.read_file (join u item.name)) t))
          (λ b. decrypted e big r fuel (join u item.name) (decrypt_file e big b))

    fetch-ReadsFile :
        (q u : Bytes) (i : FileInfo) (t : Tree S)
        → TreeOk a root t
        → (no_root : q ≢ slash) → (up : Resolves a root (clean (dir q)) u)
        → (listed : child a u (base q) ≡ some i) → (no_dir : i.is_dir ≡ false) → (x : Answer Bytes)
        → a.file (join u i.name) ≡ x
        → ReadsFile q (fetch u i t)
    fetch-ReadsFile q u i t k no_root up listed no_dir (fails c) h =
        rw (st.reads (join u i.name) t.remote ∙ h) (
          with_remote-TreeOk a root t (r.read_file (join u i.name) t.remote).1 k,
          λ b y. absurd (no_content y),
        )
      where
        no_content : {b : Bytes} → Contains a root q b → ⊥
        no_content y =
            let p : u ≡ y.parent = Resolves-unique a up y.parent_found in
            ground (arith, p, listed, h, y.listed, y.content)
    fetch-ReadsFile q u i t k no_root up listed no_dir (gives b) h =
        rw (st.reads (join u i.name) t.remote ∙ h) (
          decrypted-ReadsFile q (join u i.name) b
            (record t { remote = (r.read_file (join u i.name) t.remote).1 })
            (with_remote-TreeOk a root t (r.read_file (join u i.name) t.remote).1 k)
            (record {
              no_root = no_root;
              parent = u;
              parent_found = up;
              info = i;
              listed = listed;
              no_dir = no_dir;
              content = h;
            })
            (decrypt_file e big b) refl)

    -- What is done in the parent directory.
    abbrev pub in_parent : Bytes → Bytes → M S Bytes
    in_parent q u t =
        and_then (find_in_dir r u (base q) t)
          (λ item. if item.is_dir then throw (is_directory (join u item.name)) else fetch u item)

    in_parent-ReadsFile :
        (q u : Bytes) (t : Tree S)
        → TreeOk a root t
        → q ≢ slash
        → Resolves a root (clean (dir q)) u
        → (o : Option FileInfo) → child a u (base q) ≡ o
        → LooksUp a st t o (find_in_dir r u (base q) t)
        → ReadsFile q (in_parent q u t)
    in_parent-ReadsFile q u t k no_root up none c (s, x, looked) =
        rw looked (with_remote-TreeOk a root t s k, λ b y. absurd (no_entry y))
      where
        no_entry : {b : Bytes} → Contains a root q b → ⊥
        no_entry y =
            let p : u ≡ y.parent = Resolves-unique a up y.parent_found in
            ground (arith, p, c, y.listed)
    in_parent-ReadsFile q u t k no_root up (some i) c (s, looked) = elim (Bool-cases i.is_dir) [
      | inl d ↦ rw (looked, d) (with_remote-TreeOk a root t s k, λ b y. absurd (no_file d y))
      | inr d ↦
          rw (looked, d)
            (fetch-ReadsFile q u i (record t { remote = s }) (with_remote-TreeOk a root t s k)
              no_root up c d (a.file (join u i.name)) refl)
    ]
      where
        no_file : {b : Bytes} → i.is_dir ≡ true → Contains a root q b → ⊥
        no_file d y =
            let p : u ≡ y.parent = Resolves-unique a up y.parent_found in
            ground (arith, p, c, d, y.listed, y.no_dir)

    -- On a remote that does not change and no name of which makes `DecryptName` panic, `ReadFile`
    -- of an absolute path ends. With a text, it is the plaintext of the file that the path stands
    -- for: what the package contentenc opens its blocks to, under the id of its header, cut or
    -- padded to the plaintext's size, or as it is if its buffer is too big to be used again. With
    -- an error, there is no such file or its content cannot be had, or it has no plaintext and does
    -- not crash. With a panic, the file has a header, but no blocks, blocks behind its end, or
    -- blocks over which contentenc panics. The cache is coherent unless the run panics.
    pub read_file-ReadsFile :
        (p : Bytes) (t : Tree S)
        → is_rooted p ≡ true
        → length p < fuel
        → TreeOk a root t
        → ReadsFile (clean p) (read_file e big r fuel p t)
    unfolding read_file
    read_file-ReadsFile p t abs enough k = elim (Bool-cases (bytes_eq (clean p) slash)) [
      | inl top ↦ rw top (k, λ b y. absurd (y.no_root ((bytes_eq_iff (clean p) slash).0 top)))
      | inr sub ↦
          let ne : clean p ≢ slash = ground (arith, bytes_eq_iff (clean p) slash) in
          let (abs', shorter) = parent_shorter p abs ne in
          rw sub (
            after ne (find_path r fuel (dir (clean p)) t) (
              find_path-Finds a root st fuel (dir (clean p)) t abs'
                (omega (arith, shorter, enough, length-clean-le p abs)) k))
    ]
      where
        after :
            clean p ≢ slash
            → (x : Run S Bytes) → Finds a root (clean (dir (clean p))) x
            → ReadsFile (clean p) (and_then (wrap finding_parent x) (in_parent (clean p)))
        after ne (ok u t') (k', up) =
            in_parent-ReadsFile (clean p) u t' k' ne up (child a u (base (clean p))) refl
              (find_in_dir-child a st u (base (clean p)) t')
        after ne (err x t') (k', none_up) = (k', λ b y. absurd (none_up y.parent y.parent_found))
        after ne panic h = absurd h
        after ne out_of_fuel h = h
