-- ===== src/FileTree/Walk.antt =====
-- filetree/filetree.go: `rangeInDir`, `findInDir` and `findPath`.
use gocryptsftp.Base.{
  ℕ, zero, suc, Bool, true, false, Option, none, some, List, [], ◌∷◌, Bytes, bytes_eq, codes,
  if◌then◌else◌,
}
use gocryptsftp.FastCache
use gocryptsftp.FastCache.{FastCache, DirMapping}
use gocryptsftp.Requester.Defs.{FileInfo}
use gocryptsftp.FileTree.Paths.{slash, clean, dir, base, join}
use gocryptsftp.FileTree.Defs.{
  gives, fails, Remote, not_a_directory, reading_iv, listing_directory, iterating, not_found, ok,
  panic, out_of_fuel, M, pure, throw, ◌>>=◌, ◌>>◌, wrap, ask, reply,
}

-- `f.fastCache.Find`
unfoldable pub cache_find : {S : Type 0} → Bytes → M S (Option DirMapping)
cache_find p t = elim (FastCache.find t.fast_cache p) [
  | none ↦ panic
  | some (c, d) ↦ ok d (record t { fast_cache = c })
]

-- `f.fastCache.Store`
unfoldable pub cache_store : {S : Type 0} → Bytes → Bytes → M S (Unit {0})
cache_store p q t = elim (FastCache.store t.fast_cache p q) [
  | none ↦ panic
  | some c ↦ ok tt (record t { fast_cache = c })
]

abbrev pub iv_name : Bytes
iv_name = codes "gocryptfs.diriv"

-- `if item == nil { return nil, … }; return`
abbrev pub chosen : {S : Type 0} → Bytes → Bytes → Option FileInfo → M S FileInfo
chosen cipher_path plain_name none = throw (not_found plain_name cipher_path)
chosen cipher_path plain_name (some info) = pure info

-- What the loop leaves, as a result of the call.
abbrev pub looped : {S A : Type 0} → Option A → S → M S A
looped none s t = panic
looped (some a) s t = ok a (record t { remote = s })

module _ {S : Type 0} (r : Remote S) where
  -- The loop of `rangeInDir`. The variables that the closure captures are its state `a`; a name
  -- that does not decrypt is skipped, and `none` is a panic.
  unfoldable pub range_loop :
      {A : Type 0}
      → Bytes
      → (FileInfo → Bytes → A → A × Bool)
      → List FileInfo
      → A
      → S
      → Option A × S
  range_loop iv fn [] a s = (some a, s)
  range_loop {A} iv fn (info ∷ rest) a s =
      let more : A → S → Option A × S = range_loop iv fn rest in
      let (answer, s') = r.decrypt_name info.name iv s in
      elim answer [
        | none ↦ (none, s')
        | some (fails _) ↦ more a s'
        | some (gives name) ↦
            let (a', exit) = fn info name a in
            elim exit [ true ↦ (some a', s') | false ↦ more a' s' ]
      ]

  unfoldable pub range_in_dir : {A : Type 0} → Bytes → (FileInfo → Bytes → A → A × Bool) → A → M S A
  unfolding range_loop
  range_in_dir cipher_path fn a = do
    iv ← λ t. reply reading_iv (ask (r.read_file (join cipher_path iv_name)) t)
    listing ← λ t. reply listing_directory (ask (r.read_dir cipher_path) t)
    λ t. let (a', s) = range_loop iv fn listing a t.remote in looped a' s t

  -- `if plainName == decryptedName { item = info; return true }; return false`
  abbrev pub match_name : Bytes → FileInfo → Bytes → Option FileInfo → Option FileInfo × Bool
  match_name plain_name info name item =
      if bytes_eq plain_name name then (some info, true) else (item, false)

  unfoldable pub find_in_dir : Bytes → Bytes → M S FileInfo
  unfolding range_in_dir
  find_in_dir cipher_path plain_name = do
    item ←
        λ t. wrap (iterating cipher_path) (range_in_dir cipher_path (match_name plain_name) none t)
    chosen cipher_path plain_name item

  -- The end of `findPath`, with the parent's ciphertext path.
  unfoldable pub enter : Bytes → Bytes → M S Bytes
  unfolding find_in_dir cache_store
  enter clean_path parent = do
    item ← find_in_dir parent (base clean_path)
    let path = join parent item.name
    if item.is_dir
        then (do cache_store clean_path path; pure path)
        else throw (not_a_directory path)

  unfoldable pub find_path : ℕ → Bytes → M S Bytes
  unfolding enter cache_find
  find_path zero plain_path = λ t. out_of_fuel
  find_path (suc fuel) plain_path =
      let clean_path = clean plain_path in
      let up : M S Bytes = find_path fuel (dir clean_path) in
      let walk : M S Bytes = up >>= enter clean_path in
      if bytes_eq clean_path slash then (λ t. ok t.encrypted_root t) else do
        hit ← cache_find clean_path
        elim hit [ some d ↦ pure d.ciphertext_path | none ↦ walk ]
