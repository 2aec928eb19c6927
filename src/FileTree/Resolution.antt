-- ===== src/FileTree/Resolution.antt =====
-- `findPath` against the walk without a cache.
use gocryptsftp.Base.{
  ℕ, zero, suc, ◌≡◌, ◌≢◌, ◌∙◌, refl, sym, inl, inr, true, Option, none, some, arith, Bytes,
  bytes_eq, bytes_eq_iff, Bool-cases, Option-cases, Bytes-cases, ◌<◌, length,
}
use mathlib.Core.Path.{subst}
use gocryptsftp.FastCache.{FastCache, DirMapping}
use gocryptsftp.FastCache.Invariant.{IsValid, mapping}
use gocryptsftp.FastCache.Calls.{Found, find-Found}
use gocryptsftp.FastCache.Stored.{Stored, victim}
use gocryptsftp.FastCache.Stores.{store-Stored}
use gocryptsftp.Requester.Defs.{FileInfo}
use gocryptsftp.FileTree.Paths.{slash, is_rooted, clean, dir, base, join}
use gocryptsftp.FileTree.Paths.Shorter.{parent_shorter}
use gocryptsftp.FileTree.Defs.{Remote, Tree, Run, ok, err, panic, out_of_fuel, and_then}
use gocryptsftp.FileTree.Walk.{cache_find, cache_store, find_in_dir, enter, find_path}
use gocryptsftp.FileTree.Spec.{
  Content, Stable, child, Resolves, at_root, below, Resolves-unique, LooksUp, find_in_dir-child,
}

module _ (a : Content) (root : Bytes) where
  -- No entry, or one that is no directory: the path stands for nothing.
  not_child :
      (q u : Bytes)
      → q ≢ slash
      → Resolves a root (clean (dir q)) u
      → ((i : FileInfo) → child a u (base q) ≡ some i → i.is_dir ≡ true → ⊥)
      → (v : Bytes) → ¬ Resolves a root q v
  not_child q u ne up none_up v (at_root e x) = ne e
  not_child q u ne up none_up v (below u' i ne' up' c d x) =
      none_up i (rw (Resolves-unique a up up') c) d

module _ (a : Content) (root : Bytes) {S : Type 0} where
  -- Every cached answer is the one that the walk gives.
  pub record TreeOk (t : Tree S) : Type 0 where
    pub valid : IsValid t.fast_cache
    pub room : 0 < t.fast_cache.cache_size
    pub coherent : (j v : Bytes) → mapping t.fast_cache j ≡ some v → Resolves a root j v
    pub rooted : t.encrypted_root ≡ root

  -- The outcome of a call that should find the ciphertext path of a clean path: that path, or an
  -- error if there is none, and in both cases a coherent tree. It neither panics nor runs on.
  abbrev pub Finds : Bytes → Run S Bytes → Type 0
  Finds q (ok v t) = TreeOk t × Resolves a root q v
  Finds q (err e t) = TreeOk t × ((v : Bytes) → ¬ Resolves a root q v)
  Finds q panic = ⊥
  Finds q out_of_fuel = ⊥

  pub with_remote-TreeOk : (t : Tree S) (s : S) → TreeOk t → TreeOk (record t { remote = s })
  with_remote-TreeOk t s k = record {
    valid = k.valid;
    room = k.room;
    coherent = k.coherent;
    rooted = k.rooted;
  }

  -- After `Store` of a path with its answer the tree is coherent.
  store-TreeOk :
      (t : Tree S) (c : FastCache) (q v : Bytes)
      → TreeOk t
      → Resolves a root q v
      → Stored t.fast_cache q v (victim t.fast_cache q) c
      → TreeOk (record t { fast_cache = c })
  store-TreeOk t c q v k res s = record {
    valid = s.valid;
    room = rw s.size k.room;
    coherent = λ j w e. elim (Bytes-cases q j) [
      | inl same ↦
          let is_v : v ≡ w = ground (arith, s.answer j, bytes_eq_iff q j) in
          subst (λ x. Resolves a root x w) same (subst (Resolves a root q) is_v res)
      | inr ne ↦ k.coherent j w (ground (arith, s.answer j, bytes_eq_iff q j))
    ];
    rooted = k.rooted;
  }

  -- After `Find` too.
  Found-TreeOk :
      (t : Tree S) (c : FastCache) (d : Option DirMapping) (q : Bytes)
      → TreeOk t
      → Found t.fast_cache q d c
      → TreeOk (record t { fast_cache = c })
  Found-TreeOk t c d q k found = record {
    valid = found.valid;
    room = rw found.size k.room;
    coherent = λ j v h. k.coherent j v (sym (found.kept j) ∙ h);
    rooted = k.rooted;
  }

  cache_store-Finds :
      (t : Tree S) (q v : Bytes)
      → TreeOk t
      → Resolves a root q v
      → Finds q (and_then (cache_store q v t) (λ _. ok v))
  unfolding cache_store
  cache_store-Finds t q v k res =
      let (c, e, s) = store-Stored q v k.valid k.room in
      rw (e, cache_store) (store-TreeOk t c q v k res s, res)

  module _ {r : Remote S} (st : Stable r a) where
    enter-Finds :
        (q u : Bytes) (t : Tree S)
        → q ≢ slash
        → TreeOk t
        → Resolves a root (clean (dir q)) u
        → (o : Option FileInfo) → child a u (base q) ≡ o
        → LooksUp a st t o (find_in_dir r u (base q) t)
        → Finds q (enter r q u t)
    unfolding enter
    enter-Finds q u t ne k up none c (s, e, looked) =
        rw looked (with_remote-TreeOk t s k, not_child a root q u ne up (λ i c' d. ground arith))
    enter-Finds q u t ne k up (some i) c (s, looked) = elim (Bool-cases i.is_dir) [
      | inl d ↦
          rw (looked, d)
            (cache_store-Finds (record t { remote = s }) q (join u i.name)
              (with_remote-TreeOk t s k) (below u i ne up c d refl))
      | inr d ↦
          rw (looked, d)
            (with_remote-TreeOk t s k, not_child a root q u ne up (λ i' c' d'. ground arith))
    ]

    -- After the walk to the parent.
    entered-Finds :
        (q : Bytes) (x : Run S Bytes)
        → q ≢ slash
        → Finds (clean (dir q)) x
        → Finds q (and_then x (enter r q))
    entered-Finds q (ok u t) ne (k, up) =
        enter-Finds q u t ne k up (child a u (base q)) refl (find_in_dir-child a st u (base q) t)
    entered-Finds q (err e t) ne (k, none_up) = (k, none_below)
      where
        none_below : (v : Bytes) → ¬ Resolves a root q v
        none_below v (at_root e' x) = ne e'
        none_below v (below u i ne' up c d x) = none_up u up
    entered-Finds q panic ne h = h
    entered-Finds q out_of_fuel ne h = h

    -- On a remote that does not change and no name of which makes `DecryptName` panic, `findPath`
    -- of an absolute path returns, with a coherent cache: the ciphertext path that the walk from
    -- the root without a cache gives, or an error exactly if there is none. It does not panic, and
    -- as many steps as the path has bytes are enough for it.
    pub find_path-Finds :
        (fuel : ℕ) (p : Bytes) (t : Tree S)
        → is_rooted p ≡ true
        → length (clean p) < fuel
        → TreeOk t
        → Finds (clean p) (find_path r fuel p t)
    unfolding find_path cache_find
    find_path-Finds zero p t abs enough k = absurd (omega (arith, enough))
    find_path-Finds (suc f) p t abs enough k = elim (Bool-cases (bytes_eq (clean p) slash)) [
      | inl top ↦ rw top (k, at_root ((bytes_eq_iff (clean p) slash).0 top) k.rooted)
      | inr sub ↦
          let ne : clean p ≢ slash = ground (arith, bytes_eq_iff (clean p) slash) in
          let (abs', shorter) = parent_shorter p abs ne in
          let (c, d, e, found) = find-Found (clean p) k.valid in
          let t₁ : Tree S = record t { fast_cache = c } in
          let k₁ = Found-TreeOk t c d (clean p) k found in
          let up : Finds (clean (dir (clean p))) (find_path r f (dir (clean p)) t₁) =
            find_path-Finds f (dir (clean p)) t₁ abs' (omega (arith, shorter, enough)) k₁ in
          rw sub (
            rw (e, cache_find)
              (elim (Option-cases d) [
                | inl missed ↦
                    rw missed (entered-Finds (clean p) (find_path r f (dir (clean p)) t₁) ne up)
                | inr (m, hit) ↦
                    rw hit
                      (k₁, k.coherent (clean p) m.ciphertext_path (ground (arith, found.answer)))
              ]))
    ]
