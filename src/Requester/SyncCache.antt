-- ===== src/Requester/SyncCache.antt =====
-- requester/synccache.go: a map behind a lock. Each method is one critical section, except
-- `ClearCache`, which has two: it copies the keys, and then deletes those.
use gocryptsftp.Base.{
  ◌≡◌, Bool, false, Option, none, some, List, [], ◌∷◌, Bytes, lookup, insert, delete, map, bytes_eq,
  if◌then◌else◌, arith, lookup-delete, refl, ◌||◌, ◌≢◌, Bool-cases, inl, inr,
}
use gocryptsftp.Requester.Defs.{Entry}

abbrev pub SyncCache : Type 0
SyncCache = List (Bytes × Entry)

abbrev pub new_sync_cache : SyncCache
new_sync_cache = []

unfoldable pub get : SyncCache → Bytes → Option Entry
get m key = lookup key m

-- The entry is `none` where the code returns `false`.
unfoldable pub get_or_insert : SyncCache → Bytes → Entry → SyncCache × Option Entry
get_or_insert m key value = elim (lookup key m) [
  | some e ↦ (m, some e)
  | none ↦ (insert key value m, none)
]

pub get_or_insert-absent :
    (m : SyncCache) (k : Bytes) (v : Entry)
    → get m k ≡ none
    → get_or_insert m k v ≡ (insert k v m, none)
unfolding get get_or_insert
get_or_insert-absent m k v h = ground (arith, h)

pub get_or_insert-found :
    (m : SyncCache) (k : Bytes) (v e : Entry) → get m k ≡ some e → get_or_insert m k v ≡ (m, some e)
unfolding get get_or_insert
get_or_insert-found m k v e h = ground (arith, h)

-- `Set` and `Delete`
unfoldable pub put : SyncCache → Bytes → Entry → SyncCache
put m key value = insert key value m

unfoldable pub remove : SyncCache → Bytes → SyncCache
remove m key = delete key m

-- The first critical section of `ClearCache`, and the second.
unfoldable pub keys_to_delete : SyncCache → List Bytes
keys_to_delete m = map (λ e. e.0) m

unfoldable pub delete_keys : SyncCache → List Bytes → SyncCache
delete_keys m [] = m
delete_keys m (k ∷ ks) = delete_keys (delete k m) ks

unfoldable pub clear_cache : SyncCache → SyncCache
unfolding keys_to_delete delete_keys
clear_cache m = delete_keys m (keys_to_delete m)

unfoldable pub holds : Bytes → List Bytes → Bool
holds k [] = false
holds k (j ∷ js) = bytes_eq j k || holds k js

-- The second critical section deletes the copied keys and keeps every other entry, whatever was
-- done to the map in between.
pub get-delete_keys :
    (m : SyncCache) (ks : List Bytes) (k : Bytes)
    → get (delete_keys m ks) k ≡ (if holds k ks then none else get m k)
unfolding get delete_keys holds
get-delete_keys m [] k = refl
get-delete_keys m (j ∷ js) k =
    ground (arith, get-delete_keys (delete j m) js k, lookup-delete j k m)

holds-keys : (m : SyncCache) (k : Bytes) → holds k (keys_to_delete m) ≡ false → get m k ≡ none
unfolding holds keys_to_delete get lookup
holds-keys [] k h = refl
holds-keys ((j, e) ∷ m) k h = ground (arith, holds-keys m k)

-- With nothing between its two critical sections, `ClearCache` leaves no entry.
pub get-clear_cache : (m : SyncCache) (k : Bytes) → get (clear_cache m) k ≡ none
unfolding clear_cache
get-clear_cache m k = ground (arith, get-delete_keys m (keys_to_delete m) k, holds-keys m k)

keys-absent : (m : SyncCache) (k : Bytes) → get m k ≡ none → holds k (keys_to_delete m) ≡ false
unfolding holds keys_to_delete get lookup
keys-absent [] k h = refl
keys-absent ((j, e) ∷ m) k h = ground (arith, keys-absent m k)

-- The critical sections of the other methods.
pub data Section : Type 0 where
  inserts sets : Bytes → Entry → Section
  removes : Bytes → Section
  deletes : List Bytes → Section  -- the second of another `ClearCache`

unfoldable pub section : SyncCache → Section → SyncCache
unfolding get_or_insert put remove delete_keys
section m (inserts k e) = (get_or_insert m k e).0
section m (sets k e) = put m k e
section m (removes k) = remove m k
section m (deletes ks) = delete_keys m ks

unfoldable pub sections : SyncCache → List Section → SyncCache
unfolding section
sections m [] = m
sections m (x ∷ xs) = sections (section m x) xs

-- `ClearCache`, with other methods between its two critical sections.
unfoldable pub clear_around : SyncCache → List Section → SyncCache
unfolding keys_to_delete delete_keys sections
clear_around m between = delete_keys (sections m between) (keys_to_delete m)

-- Whatever other methods do to the map between the two critical sections of `ClearCache`, afterwards
-- every key that the map had before them is gone, also if it has been set anew in between, and every
-- other key is as those methods left it: entries that are new survive. With nothing in between no
-- entry is left.
pub clear_interleaved :
    (m : SyncCache) (between : List Section) (k : Bytes)
    → (get m k ≢ none → get (clear_around m between) k ≡ none)
      × (get m k ≡ none → get (clear_around m between) k ≡ get (sections m between) k)
      × (get (clear_around m []) k ≡ none)
unfolding clear_around sections clear_cache
clear_interleaved m between k = (
  λ had. elim (Bool-cases (holds k (keys_to_delete m))) [
    | inl t ↦ ground (arith, t, get-delete_keys (sections m between) (keys_to_delete m) k)
    | inr f ↦ absurd (had (holds-keys m k f))
  ],
  λ new.
      ground
        (arith, keys-absent m k new, get-delete_keys (sections m between) (keys_to_delete m) k),
  get-clear_cache m k,
)
