-- ===== src/FastCache/Stores.antt =====
-- `Store` as a client sees it: it does not panic, keeps the invariant, and what the cache answers
-- changes as a map with eviction does.
use gocryptsftp.FastCache.Stored.{victim, Stored, store_found-Stored, store_evicting-Stored}
use gocryptsftp.Base.{
  ℕ, ◌+◌, ◌<◌, ◌≡◌, ◌∙◌, refl, false, none, some, [], ◌∷◌, ◌++◌, arith, ltb, length, Bytes, lookup,
  insert, insert-Distinct, length-insert_new, Option-cases, Bool-cases, inl, inr,
}
use gocryptsftp.FastCache.{Ptr, FastCache, set_next, store_new, store}
use gocryptsftp.FastCache.Invariant.{InMap, Linked, IsValid, mapping}
use gocryptsftp.FastCache.Refresh.{mapping-SameEntries, set_next_last-Linked, with_last, keep_in}
use gocryptsftp.FastCache.Alloc.{
  at_new, new_node, allocated, allocated-Linked, allocated-InMap, mapping-allocated,
}
use gocryptsftp.FastCache.Calls.{refreshed-IsValid}

store_new_behind :
    (c c₁ : FastCache) (k v : Bytes) (h : ℕ)
    → c.head ≡ some h
    → set_next
        (record c {
          count = c.count + 1;
          storage = insert k (length c.nodes) c.storage;
          nodes = c.nodes ++ (new_node k v c.last ∷ []);
        })
        c.last
        (some (length c.nodes))
      ≡ some c₁
    → store_new c k v ≡ some (record c₁ { last = some (length c.nodes) })
unfolding store_new
store_new_behind c c₁ k v h is_h e = ground (arith, is_h, e)

module _ {c : FastCache} (k v : Bytes) (valid : IsValid c) (fresh : lookup k c.storage ≡ none)
    (room : ltb c.cache_size (c.count + 1) ≡ false) where
  abbrev p : ℕ
  p = length c.nodes

  abbrev grown : Ptr → Ptr → Ptr → FastCache
  grown prev head last = allocated valid.linked k v fresh (c.count + 1) prev head last

  new_in : InMap (insert k p c.storage) (some p)
  new_in = at_new valid.linked k v fresh

  grown-IsValid :
      (prev head last : Ptr) → Linked (grown prev head last) → IsValid (grown prev head last)
  grown-IsValid prev head last linked = record {
    linked = linked;
    distinct = insert-Distinct k p c.storage valid.distinct;
    counted = omega (arith, length-insert_new k p c.storage fresh, valid.counted);
    bounded = ground arith;
  }

  store_first-Stored :
      c.head ≡ none → (c' : FastCache) × (store_new c k v ≡ some c') × Stored c k v none c'
  unfolding store_new
  store_first-Stored is_none =
      let linked =
        allocated-Linked valid.linked k v fresh (c.count + 1) none (some p) (some p) p p tt new_in
          new_in refl refl in
      (
        grown none (some p) (some p),
        ground (arith, is_none),
        record {
          valid = grown-IsValid none (some p) (some p) linked;
          answer = mapping-allocated valid.linked k v fresh (c.count + 1) none (some p) (some p);
          size = refl;
        },
      )

  store_behind-Stored :
      (h l : ℕ)
      → c.head ≡ some h
      → c.last ≡ some l
      → (c' : FastCache) × (store_new c k v ≡ some c') × Stored c k v none c'
  unfolding mapping
  store_behind-Stored h l is_h is_l =
      let keep = allocated-InMap valid.linked k v fresh in
      let linked =
        allocated-Linked valid.linked k v fresh (c.count + 1) c.last c.head c.last h l
          valid.linked.last_in (keep c.head valid.linked.head_in) (keep c.last valid.linked.last_in)
          is_h is_l in
      let (c₁, e, (linked₁, s, _)) = set_next_last-Linked linked p new_in in
      let v₁ = refreshed-IsValid (grown-IsValid c.last c.head c.last linked) linked₁ s in
      (
        record c₁ { last = some p },
        store_new_behind c c₁ k v h is_h e,
        record {
          valid = record {
            linked = with_last linked₁ p (keep_in (some p) s new_in);
            distinct = v₁.distinct;
            counted = v₁.counted;
            bounded = v₁.bounded;
          };
          answer = λ j.
              mapping-SameEntries linked s j
              ∙ mapping-allocated valid.linked k v fresh (c.count + 1) c.last c.head c.last j;
          size = s.size_eq;
        },
      )

  store_new-Stored : (c' : FastCache) × (store_new c k v ≡ some c') × Stored c k v none c'
  store_new-Stored = elim (Option-cases c.head) [
    | inl is_none ↦ store_first-Stored is_none
    | inr (h, is_h) ↦
        let (j, at_j) : InMap c.storage (some h) = rw is_h at valid.linked.head_in in
        let (l, is_l) = (valid.linked.started j h at_j).1 in store_behind-Stored h l is_h is_l
  ]

-- On a valid cache with room for an entry `Store` does not panic. Afterwards the path has the new
-- answer; a new path in a full cache evicts the path of the head node and no other; and every
-- path that is neither stored nor evicted has the answer that it had.
pub store-Stored :
    {c : FastCache} (k v : Bytes)
    → IsValid c
    → 0 < c.cache_size
    → (c' : FastCache) × (store c k v ≡ some c') × Stored c k v (victim c k) c'
unfolding store victim
store-Stored {c} k v valid pos = elim (Option-cases (lookup k c.storage)) [
  | inr (p, here) ↦
      let (c', e, s) = store_found-Stored k v p valid here in
      let gone : victim c k ≡ none = rw (here, victim) in (c', rw (here, store) e, rw gone s)
  | inl fresh ↦ elim (Bool-cases (ltb c.cache_size (c.count + 1))) [
    | inl full ↦
        let (c', e, s) = store_evicting-Stored k v valid pos fresh full in
        (c', rw (fresh, store) (rw full e), s)
    | inr room ↦
        let (c', e, s) = store_new-Stored k v valid fresh room in
        let gone : victim c k ≡ none = rw (fresh, victim) (rw room) in
        (c', rw (fresh, store) (rw room e), rw gone s)
  ]
]
