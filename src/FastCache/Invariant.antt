-- ===== src/FastCache/Invariant.antt =====
-- What holds of a `FastCache` between calls, and what one write to a node keeps.
use gocryptsftp.Base.{
  ℕ, ◌≤◌, ◌≡◌, refl, Option, none, some, List, arith, length, get_elem?, set, Bytes, lookup,
  Distinct, get_elem?-set_self, get_elem?-set_ne, inl, inr, ◌==◌, Bool-cases, ==_iff, ◌⊎◌,
}
use gocryptsftp.FastCache.{Ptr, DirMapping, FastCache, ◌>>=◌, load, modify}

-- `nil`, or a node that the map holds.
abbrev pub InMap : List (Bytes × ℕ) → Ptr → Type 0
InMap m none = Unit
InMap m (some p) = (k : Bytes) × (lookup k m ≡ some p)

-- The map and the heap fit together, and no pointer of a node in use leaves the nodes in use.
pub record Linked (c : FastCache) : Type 0 where
  pub stored :
      (k : Bytes) (p : ℕ)
      → lookup k c.storage ≡ some p
      → (d : DirMapping) × (get_elem? c.nodes p ≡ some d) × (d.plaintext_path ≡ k)
  pub links :
      (k : Bytes) (p : ℕ) (d : DirMapping)
      → lookup k c.storage ≡ some p
      → get_elem? c.nodes p ≡ some d
      → InMap c.storage d.next × InMap c.storage d.prev
  pub head_in : InMap c.storage c.head
  pub last_in : InMap c.storage c.last
  pub started :
      (k : Bytes) (p : ℕ)
      → lookup k c.storage ≡ some p
      → ((h : ℕ) × (c.head ≡ some h)) × ((l : ℕ) × (c.last ≡ some l))

pub record IsValid (c : FastCache) : Type 0 where
  pub linked : Linked c
  pub distinct : Distinct c.storage
  pub counted : length c.storage ≡ c.count
  pub bounded : c.count ≤ c.cache_size

-- What the cache answers for a path: the ciphertext path of its node.
unfoldable pub mapping : FastCache → Bytes → Option Bytes
mapping c k = do p ← lookup k c.storage; d ← get_elem? c.nodes p; some d.ciphertext_path

-- Only `prev`, `next`, `head` and `last` may differ.
pub record SameEntries (c c' : FastCache) : Type 0 where
  pub storage_eq : c'.storage ≡ c.storage
  pub size_eq : c'.cache_size ≡ c.cache_size
  pub count_eq : c'.count ≡ c.count
  pub paths :
      (p : ℕ) (d : DirMapping)
      → get_elem? c.nodes p ≡ some d
      → (d' : DirMapping) × (get_elem? c'.nodes p ≡ some d')
        × (d'.plaintext_path ≡ d.plaintext_path)
        × (d'.ciphertext_path ≡ d.ciphertext_path)

pub SameEntries-refl : (c : FastCache) → SameEntries c c
SameEntries-refl c = record {
  storage_eq = refl;
  size_eq = refl;
  count_eq = refl;
  paths = λ p d e. (d, e, refl, refl);
}

pub SameEntries-trans :
    {c c' c″ : FastCache} → SameEntries c c' → SameEntries c' c″ → SameEntries c c″
SameEntries-trans s t = record {
  storage_eq = cc (s.storage_eq, t.storage_eq);
  size_eq = cc (s.size_eq, t.size_eq);
  count_eq = cc (s.count_eq, t.count_eq);
  paths = λ p d e.
      let (d', e', x, y) = s.paths p d e in
      let (d″, e″, x', y') = t.paths p d' e' in (d″, e″, cc (x, x'), cc (y, y'));
}

-- A write to one node, read back at any node.
pub get_elem?-set :
    (xs : List DirMapping) (i j : ℕ) (v w u : DirMapping)
    → get_elem? xs i ≡ some w
    → get_elem? (set xs i v) j ≡ some u
    → ((i ≡ j) × (u ≡ v)) ⊎ (get_elem? xs j ≡ some u)
get_elem?-set xs i j v w u h e = elim (Bool-cases (i == j)) [
  | inl same ↦
      let q : i ≡ j = (==_iff i j).0 same in inl (q, ground (arith, get_elem?-set_self xs i v w h))
  | inr other ↦ inr (ground (arith, get_elem?-set_ne xs i j v))
]

pub get_elem?-set_or :
    (xs : List DirMapping) (i j : ℕ) (v w u : DirMapping)
    → get_elem? xs i ≡ some w
    → get_elem? xs j ≡ some u
    → ((i ≡ j) × (get_elem? (set xs i v) j ≡ some v)) ⊎ (get_elem? (set xs i v) j ≡ some u)
get_elem?-set_or xs i j v w u h e = elim (Bool-cases (i == j)) [
  | inl same ↦
      let q : i ≡ j = (==_iff i j).0 same in inl (q, ground (arith, get_elem?-set_self xs i v w h))
  | inr other ↦ inr (ground (arith, get_elem?-set_ne xs i j v))
]

module _ {c : FastCache} (inv : Linked c) (k : Bytes) (p : ℕ) (here : lookup k c.storage ≡ some p)
    (f : DirMapping → DirMapping)
    (path : (d : DirMapping) → (f d).plaintext_path ≡ d.plaintext_path)
    (into : (d : DirMapping)
      → InMap c.storage d.next × InMap c.storage d.prev
      → InMap c.storage (f d).next × InMap c.storage (f d).prev) where
  -- A write to a node in use that keeps its path and its links inside the map.
  pub modify-Linked :
      (d : DirMapping) × (get_elem? c.nodes p ≡ some d)
      × (modify c (some p) f ≡ some (record c { nodes = set c.nodes p (f d) }))
      × Linked (record c { nodes = set c.nodes p (f d) })
  unfolding modify load
  modify-Linked =
      let (d, at_p, path_p) = inv.stored k p here in
      (
        d,
        at_p,
        rw at_p,
        record {
          stored = λ j q e.
              let (u, at_q, path_q) = inv.stored j q e in
              elim (get_elem?-set_or c.nodes p q (f d) d u at_p at_q) [
                | inl (eq, r) ↦ (f d, r, ground (arith, path d))
                | inr r ↦ (u, r, path_q)
              ];
          links = λ j q u e at_q. elim (get_elem?-set c.nodes p q (f d) d u at_p at_q) [
            | inl (eq, r) ↦ rw r (into d (inv.links k p d here at_p))
            | inr r ↦ inv.links j q u e r
          ];
          head_in = inv.head_in;
          last_in = inv.last_in;
          started = inv.started;
        },
      )

-- A write that keeps both paths of the node keeps the entries.
pub set-SameEntries :
    (c : FastCache) (p : ℕ) (d v : DirMapping)
    → get_elem? c.nodes p ≡ some d
    → v.plaintext_path ≡ d.plaintext_path
    → v.ciphertext_path ≡ d.ciphertext_path
    → SameEntries c (record c { nodes = set c.nodes p v })
set-SameEntries c p d v at_p path cipher = record {
  storage_eq = refl;
  size_eq = refl;
  count_eq = refl;
  paths = λ q u at_q. elim (get_elem?-set_or c.nodes p q v d u at_p at_q) [
    | inl (eq, r) ↦ (v, r, ground arith, ground arith)
    | inr r ↦ (u, r, refl, refl)
  ];
}

-- A node belongs to one path only.
pub path_unique :
    {c : FastCache}
    → Linked c
    → (j k : Bytes) (p : ℕ) → lookup j c.storage ≡ some p
    → lookup k c.storage ≡ some p
    → j ≡ k
path_unique inv j k p at_j at_k =
    let (d, e, x) = inv.stored j p at_j in let (d', e', x') = inv.stored k p at_k in ground arith
