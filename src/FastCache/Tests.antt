-- ===== src/FastCache/Tests.antt =====
-- The cache on concrete paths, and the theorems at them.
use gocryptsftp.Base.{
  ℕ, ◌≡◌, refl, none, some, Option, List, [], ◌∷◌, ◌≤◌, arith, Bytes, codes, bytes_eq, lookup,
  insert, delete,
}
use mathlib.Core.Path.{subst}
use gocryptsftp.FastCache.{
  DirMapping, FastCache, load, refresh_node, find, clear, store, new_fast_cache,
}
use gocryptsftp.FastCache.Invariant.{IsValid, mapping}
use gocryptsftp.FastCache.Stored.{Stored, victim}
use gocryptsftp.FastCache.Stores.{store-Stored}
use gocryptsftp.FastCache.Runs.{
  Call, finds, stores, step, run, last_stored, Finds, FindsStored, run_new,
}
use gocryptsftp.FastCache.Lru.{stale_head_evicted}

program : Unit {0}
unfolding load refresh_node find clear store new_fast_cache step run lookup insert delete bytes_eq
    mapping
program = tt

abbrev a : Bytes
a = codes "/a"

abbrev b : Bytes
b = codes "/b"

abbrev c : Bytes
c = codes "/c"

-- Two paths are stored and the older one is found: both are still there, `/a` last.
abbrev calls : List Call
calls = stores a (codes "A") ∷ stores b (codes "B") ∷ finds a ∷ []

abbrev node : Bytes → Bytes → Option ℕ → Option ℕ → DirMapping
node p q v n = record { plaintext_path = p; ciphertext_path = q; prev = v; next = n }

abbrev two : FastCache
two = record {
  storage = (a, 0) ∷ (b, 1) ∷ [];
  cache_size = 2;
  count = 2;
  head = some 1;
  last = some 0;
  nodes = node a (codes "A") (some 1) none ∷ node b (codes "B") (some 0) (some 0) ∷ [];
}

run-two : run calls (new_fast_cache 2) ≡ some two
unfolding program
run-two = refl

two-IsValid : IsValid two
two-IsValid =
    let (last, e, v, _, _, _) = run_new calls 2 (omega arith) in
    let q : last ≡ two = ground (arith, run-two) in subst IsValid q v

store-Stored_example :
    (c' : FastCache) × (store two c (codes "C") ≡ some c')
    × Stored two c (codes "C") (victim two c) c'
store-Stored_example = store-Stored c (codes "C") two-IsValid (omega arith)

run_new_example :
    (c' : FastCache) × (run calls (new_fast_cache 2) ≡ some c')
    × IsValid c'
    × (c'.count ≤ 2)
    × ((j : Bytes) → Finds c' (last_stored calls (λ _. none)) j)
    × FindsStored c'
run_new_example = run_new calls 2 (omega arith)

-- `/b`, just found, is evicted, although `/a` has not been used for longer.
stale_head_evicted_example :
    (c₁ c₂ : FastCache) × (r : Option DirMapping) × (find two b ≡ some (c₁, r))
    × (store c₁ c (codes "C") ≡ some c₂)
    × (mapping c₂ b ≡ none)
unfolding lookup bytes_eq
stale_head_evicted_example =
    stale_head_evicted b c (codes "C") 1 0 (node b (codes "B") (some 0) (some 0)) two-IsValid
      (omega arith) refl refl refl refl refl refl

-- A cache of size 0 panics at its first `Store`: its head is `nil`.
store_size_zero : store (new_fast_cache 0) a (codes "A") ≡ none
unfolding program
store_size_zero = refl
