-- ===== src/FastCache/Calls.antt =====
-- `Find` as a client sees it: it does not panic, keeps the invariant and changes no answer.
use gocryptsftp.Base.{◌≡◌, refl, Option, none, some, Bytes, lookup, Option-cases, inl, inr}
use mathlib.Core.Option
use gocryptsftp.FastCache.{DirMapping, FastCache, load, find}
use gocryptsftp.FastCache.Invariant.{Linked, IsValid, SameEntries, mapping}
use gocryptsftp.FastCache.Refresh.{refresh_node-Linked, mapping-SameEntries}

pub refreshed-IsValid : {c c' : FastCache} → IsValid c → Linked c' → SameEntries c c' → IsValid c'
refreshed-IsValid v linked s = record {
  linked = linked;
  distinct = rw s.storage_eq v.distinct;
  counted = rw (s.storage_eq, s.count_eq) v.counted;
  bounded = rw (s.count_eq, s.size_eq) v.bounded;
}

-- After `Find`: what the call returned, and the cache that it left.
pub record Found (c : FastCache) (k : Bytes) (r : Option DirMapping) (c' : FastCache) : Type 0 where
  pub valid : IsValid c'
  pub answer : Option.map (λ (d : DirMapping). d.ciphertext_path) r ≡ mapping c k
  pub kept : (j : Bytes) → mapping c' j ≡ mapping c j
  pub size : c'.cache_size ≡ c.cache_size
  pub count : c'.count ≡ c.count

-- On a valid cache `Find` does not panic, returns the ciphertext path that is stored for the
-- path, or nothing if there is none, and changes no answer.
pub find-Found :
    {c : FastCache} (k : Bytes)
    → IsValid c
    → (c' : FastCache) × (r : Option DirMapping) × (find c k ≡ some (c', r)) × Found c k r c'
unfolding find load mapping
find-Found {c} k v = elim (Option-cases (lookup k c.storage)) [
  | inl missing ↦ (
    c,
    none,
    rw (missing, find),
    record { valid = v; answer = rw missing; kept = λ j. refl; size = refl; count = refl },
  )
  | inr (p, here) ↦
      let (c', e, (linked, s)) = refresh_node-Linked v.linked k p here in
      let (d, at_p, _) = v.linked.stored k p here in
      let (d', at_p', _, same) = s.paths p d at_p in
      (
        c',
        some d',
        rw (here, find) (rw (e, at_p')),
        record {
          valid = refreshed-IsValid v linked s;
          answer = rw (here, at_p, same);
          kept = mapping-SameEntries v.linked s;
          size = s.size_eq;
          count = s.count_eq;
        },
      )
]
