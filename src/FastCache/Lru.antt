-- ===== src/FastCache/Lru.antt =====
-- The order of eviction. `refreshNode` never writes the `prev` pointer of the node behind the one
-- that it moves, so that pointer goes on naming the moved node.
use gocryptsftp.Base.{
  ℕ, ◌+◌, ◌<◌, ◌≡◌, ◌∙◌, true, false, lt→ltb, bytes_eq, bytes_eq_iff, bytes_eq_refl, Option, none,
  some, arith, ltb, get_elem?, Bytes, lookup,
}
use gocryptsftp.FastCache.{
  DirMapping, FastCache, load, modify, set_next, set_prev, unlink, move_to_end, refresh_node, find,
  store,
}
use gocryptsftp.FastCache.Invariant.{IsValid, mapping}
use gocryptsftp.FastCache.Calls.{find-Found}
use gocryptsftp.FastCache.Stored.{victim}
use gocryptsftp.FastCache.Stores.{store-Stored}

modify-head :
    (c c' : FastCache) (p : Option ℕ) (f : DirMapping → DirMapping)
    → modify c p f ≡ some c'
    → (c'.head ≡ c.head) × (c'.storage ≡ c.storage)
unfolding modify load
modify-head c c' none f e = cc
modify-head c c' (some p) f e = ground arith

-- A moved node with a `prev` pointer leaves the head where it is.
refresh_node-head :
    (c c' : FastCache) (p q : ℕ) (d : DirMapping)
    → get_elem? c.nodes p ≡ some d
    → d.prev ≡ some q
    → refresh_node c p ≡ some c'
    → (c'.head ≡ c.head) × (c'.storage ≡ c.storage)
unfolding refresh_node move_to_end unlink set_next set_prev modify load
refresh_node-head c c' p q d at_p stale e = ground arith

-- The call of `refreshNode` inside a `Find` that returns.
find-refresh_node :
    (c c' : FastCache) (k : Bytes) (p : ℕ) (r : Option DirMapping)
    → lookup k c.storage ≡ some p
    → find c k ≡ some (c', r)
    → refresh_node c p ≡ some c'
unfolding find load
find-refresh_node c c' k p r here e = ground arith

-- In a full cache, let the head node hold path `k` and have a `prev` pointer that is not `nil`.
-- Then `Find` of `k`, which makes `k` the path used last, and `Store` of a path that the cache
-- does not hold return, and the `Store` evicts `k`.
pub stale_head_evicted :
    {c : FastCache} (k j v : Bytes) (p q : ℕ) (d : DirMapping)
    → IsValid c
    → 0 < c.cache_size
    → c.count ≡ c.cache_size
    → c.head ≡ some p
    → lookup k c.storage ≡ some p
    → get_elem? c.nodes p ≡ some d
    → d.prev ≡ some q
    → lookup j c.storage ≡ none
    → (c₁ c₂ : FastCache) × (r : Option DirMapping) × (find c k ≡ some (c₁, r))
      × (store c₁ j v ≡ some c₂)
      × (mapping c₂ k ≡ none)
unfolding victim load
stale_head_evicted {c} k j v p q d valid pos full is_p here at_p stale fresh =
    let (c₁, r, e, found) = find-Found k valid in
    let (head, storage) =
      refresh_node-head c c₁ p q d at_p stale (find-refresh_node c c₁ k p r here e) in
    let (c₂, e₂, stored) = store-Stored j v found.valid (rw found.size pos) in
    let here₁ : lookup k c₁.storage ≡ some p = rw storage here in
    let fresh₁ : lookup j c₁.storage ≡ none = rw storage fresh in
    let (d₁, at_p₁, path₁) = found.valid.linked.stored k p here₁ in
    let more : ltb c₁.cache_size (c₁.count + 1) ≡ true =
      lt→ltb _ _ (omega (arith, found.size, found.count)) in
    let gone : victim c₁ j ≡ some k = ground (arith, fresh₁, more, head, is_p, at_p₁, path₁) in
    let other : bytes_eq j k ≡ false = ground (arith, bytes_eq_iff j k, here₁, fresh₁) in
    (c₁, c₂, r, e, e₂, stored.answer k ∙ rw (other, gone) (rw (bytes_eq_refl k)))
