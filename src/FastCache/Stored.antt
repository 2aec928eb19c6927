-- ===== src/FastCache/Stored.antt =====
-- What `Store` leaves, and the branches that reuse a node.
use gocryptsftp.Base.{
  ℕ, ◌+◌, ◌<◌, ◌≡◌, ◌∙◌, ap, refl, sym, Bool, true, false, Option, none, some, List, [], ◌∷◌, arith,
  ltb, if◌then◌else◌, length, get_elem?, Bytes, bytes_eq, bytes_eq_refl, bytes_eq-false, lookup,
  delete, lookup-delete, insert-Distinct, delete-Distinct, length-insert_new, length-delete,
  Bytes-cases, inl, inr,
}
use mathlib.Core.Option
use gocryptsftp.FastCache.{DirMapping, FastCache, load, modify, store_found, store_evicting}
use gocryptsftp.FastCache.Invariant.{InMap, IsValid, mapping, modify-Linked}
use gocryptsftp.FastCache.Refresh.{refresh_node-Linked, mapping-SameEntries}
use gocryptsftp.FastCache.Writes.{mapping-write, renamed-Linked, mapping-renamed}
use gocryptsftp.FastCache.Calls.{refreshed-IsValid}

-- The path that a `Store` of `k` evicts: that of the head node, if `k` is new and the cache full.
unfoldable pub victim : FastCache → Bytes → Option Bytes
victim c k = elim (lookup k c.storage) [
  | some _ ↦ none
  | none ↦
      if ltb c.cache_size (c.count + 1)
      then Option.map (λ (d : DirMapping). d.plaintext_path) (load c c.head)
      else none
]

abbrev pub is_path : Option Bytes → Bytes → Bool
is_path none j = false
is_path (some k) j = bytes_eq k j

-- After `Store`: the cache is valid and of the same size, the path has the new answer, the evicted
-- path has none, and every other path has its old one.
pub record Stored (c : FastCache) (k v : Bytes) (gone : Option Bytes) (c' : FastCache)
    : Type 0 where
  pub valid : IsValid c'
  pub answer :
      (j : Bytes)
      → mapping c' j
        ≡ (if bytes_eq k j then some v else (if is_path gone j then none else mapping c j))
  pub size : c'.cache_size ≡ c.cache_size

pub store_found-Stored :
    {c : FastCache} (k v : Bytes) (p : ℕ)
    → IsValid c
    → lookup k c.storage ≡ some p
    → (c' : FastCache) × (store_found c p v ≡ some c') × Stored c k v none c'
unfolding store_found
store_found-Stored {c} k v p valid here =
    let (c₁, e, (linked, s)) = refresh_node-Linked valid.linked k p here in
    let here₁ : lookup k c₁.storage ≡ some p = rw s.storage_eq here in
    let (d, at_p, e', linked') =
      modify-Linked linked k p here₁ (λ d. record d { ciphertext_path = v }) (λ d. refl)
        (λ d (n, u). (n, u)) in
    let (new, old) = mapping-write linked k p d v here₁ at_p in
    let v₁ = refreshed-IsValid valid linked s in
    (
      _,
      rw e e',
      record {
        valid = record {
          linked = linked';
          distinct = v₁.distinct;
          counted = v₁.counted;
          bounded = v₁.bounded;
        };
        answer = λ j. elim (Bytes-cases k j) [
          | inl same ↦ rw (← same) (rw (bytes_eq_refl k) new)
          | inr ne ↦
              rw (bytes_eq-false k j ne)
                (old j (λ x. ne (sym x)) ∙ mapping-SameEntries valid.linked s j)
        ];
        size = s.size_eq;
      },
    )

-- A cache with an entry has a head node.
pub head_of_count : {c : FastCache} → IsValid c → 0 < c.count → (h : ℕ) × (c.head ≡ some h)
unfolding lookup
head_of_count {c} v pos = go c.storage refl
  where
    go : (m : List (Bytes × ℕ)) → c.storage ≡ m → (h : ℕ) × (c.head ≡ some h)
    go [] e = absurd (omega (arith, v.counted, ap length e))
    go ((k, p) ∷ m) e = (v.linked.started k p (rw e (ground (arith, bytes_eq_refl k)))).0

-- The reuse of the head node `h`, which holds the path `old`.
store_evicting_at :
    {c : FastCache} (k v : Bytes) (h : ℕ) (old : Bytes) (d₀ : DirMapping)
    → IsValid c
    → lookup k c.storage ≡ none
    → c.count ≡ c.cache_size
    → c.head ≡ some h
    → lookup old c.storage ≡ some h
    → get_elem? c.nodes h ≡ some d₀
    → d₀.plaintext_path ≡ old
    → (c' : FastCache) × (store_evicting c k v ≡ some c') × Stored c k v (some old) c'
unfolding store_evicting load modify
store_evicting_at {c} k v h old d₀ valid fresh full is_h here at_h path =
    let (c₁, e, (linked, s)) = refresh_node-Linked valid.linked old h here in
    let (d, at_h₁, path₁, _) = s.paths h d₀ at_h in
    let v₁ = refreshed-IsValid valid linked s in
    let here₁ : lookup old c₁.storage ≡ some h = rw s.storage_eq here in
    let fresh₁ : lookup k c₁.storage ≡ none = rw s.storage_eq fresh in
    let fresh₂ : lookup k (delete old c₁.storage) ≡ none =
      ground (arith, lookup-delete old k c₁.storage) in
    (
      _,
      rw (is_h, store_evicting) (rw (at_h, e) (rw (at_h₁, path))),
      record {
        valid = record {
          linked = renamed-Linked linked old k h d v here₁ at_h₁ fresh₁ c.cache_size;
          distinct = insert-Distinct k h _ (delete-Distinct old c₁.storage v₁.distinct);
          counted = omega (
            arith,
            length-insert_new k h (delete old c₁.storage) fresh₂,
            length-delete old h c₁.storage v₁.distinct here₁,
            v₁.counted,
            s.count_eq,
            full,
          );
          bounded = rw s.size_eq (omega arith);
        };
        answer = λ j.
            mapping-renamed linked old k h d v here₁ at_h₁ fresh₁ c.cache_size j
            ∙ ap
                (λ (m : Option Bytes).
                  if bytes_eq k j then some v else (if bytes_eq old j then none else m))
                (mapping-SameEntries valid.linked s j);
        size = s.size_eq;
      },
    )

pub store_evicting-Stored :
    {c : FastCache} (k v : Bytes)
    → IsValid c
    → 0 < c.cache_size
    → lookup k c.storage ≡ none
    → ltb c.cache_size (c.count + 1) ≡ true
    → (c' : FastCache) × (store_evicting c k v ≡ some c') × Stored c k v (victim c k) c'
unfolding victim load
store_evicting-Stored {c} k v valid pos fresh more =
    let full : c.count ≡ c.cache_size = ground (arith, valid.bounded) in
    let (h, is_h) = head_of_count valid (omega arith) in
    let (old, here) : InMap c.storage (some h) = rw is_h at valid.linked.head_in in
    let (d₀, at_h, path) = valid.linked.stored old h here in
    let gone : victim c k ≡ some old = rw (fresh, victim) (rw (more, is_h) (rw at_h (rw path))) in
    let (c', e, stored) = store_evicting_at k v h old d₀ valid fresh full is_h here at_h path in
    (c', e, rw gone stored)
