-- ===== src/FastCache.antt =====
-- filetree/fastcache.go: a map from plaintext paths to nodes of a doubly linked list. Nodes live on
-- a heap and are named by their index, `nil` is `none`, and a read or write through a pointer that
-- is `nil` or names no node is a panic, `none`. The mutex makes each call one step, so it is left
-- out.
pub mod Invariant
pub mod Refresh
pub mod Writes
pub mod Alloc
pub mod Calls
pub mod Stored
pub mod Stores
pub mod Runs
pub mod Lru
mod Tests
use gocryptsftp.Base.{
  ℕ, ◌+◌, Bool, true, false, Option, none, some, List, [], ◌∷◌, ◌++◌, ltb, if◌then◌else◌, get_elem?,
  set, length, Bytes, lookup, insert, delete,
}

abbrev pub Ptr : Type 0
Ptr = Option ℕ

pub record DirMapping : Type 0 where
  pub plaintext_path : Bytes
  pub ciphertext_path : Bytes
  pub prev : Ptr
  pub next : Ptr

pub record FastCache : Type 0 where
  pub storage : List (Bytes × ℕ)
  pub cache_size : ℕ
  pub count : ℕ
  pub head : Ptr
  pub last : Ptr
  pub nodes : List DirMapping

infixl 5 ◌>>=◌
abbrev pub ◌>>=◌ {ℓ κ} : {A : Type ℓ} {B : Type κ} → Option A → (A → Option B) → Option B
none >>= f = none
some a >>= f = f a

unfoldable pub new_fast_cache : ℕ → FastCache
new_fast_cache cache_size = record {
  storage = [];
  cache_size = cache_size;
  count = 0;
  head = none;
  last = none;
  nodes = [];
}

-- `*p`
unfoldable pub load : FastCache → Ptr → Option DirMapping
load c none = none
load c (some p) = get_elem? c.nodes p

-- A write of fields of `*p`.
unfoldable pub modify : FastCache → Ptr → (DirMapping → DirMapping) → Option FastCache
unfolding load
modify c none f = none
modify c (some p) f = do d ← load c (some p); some (record c { nodes = set c.nodes p (f d) })

unfoldable pub set_next : FastCache → Ptr → Ptr → Option FastCache
unfolding modify
set_next c p q = modify c p (λ d. record d { next = q })

unfoldable pub set_prev : FastCache → Ptr → Ptr → Option FastCache
unfolding modify
set_prev c p q = modify c p (λ d. record d { prev = q })

-- `if d.prev != nil { d.prev.next = d.next } else { f.head = d.next }`
unfoldable pub unlink : FastCache → Ptr → Ptr → Option FastCache
unfolding set_next
unlink c none next = some (record c { head = next })
unlink c (some q) next = set_next c (some q) next

-- The five writes that put node `p` behind the last one.
unfoldable pub move_to_end : FastCache → ℕ → DirMapping → Option FastCache
unfolding unlink set_prev set_next
move_to_end c p d = do
  c₁ ← unlink c d.prev d.next
  c₂ ← set_prev c₁ (some p) c₁.last
  c₃ ← set_next c₂ (some p) none
  c₄ ← set_next c₃ c₃.last (some p)
  some (record c₄ { last = some p })

unfoldable pub refresh_node : FastCache → ℕ → Option FastCache
unfolding load move_to_end
refresh_node c p = do
  d ← load c (some p)
  elim d.next [ none ↦ some c | some _ ↦ move_to_end c p d ]

-- The mapping is `none` where the code returns `DirMapping{}, false`.
unfoldable pub find : FastCache → Bytes → Option (FastCache × Option DirMapping)
find c p_path = elim (lookup p_path c.storage) [
  | none ↦ some (c, none)
  | some p ↦ do c₁ ← refresh_node c p; d ← load c₁ (some p); some (c₁, some d)
]

unfoldable pub clear : FastCache → FastCache
clear c = record c { head = none; last = none; storage = []; count = 0 }

-- The branch of `Store` that finds the path.
unfoldable pub store_found : FastCache → ℕ → Bytes → Option FastCache
unfolding modify
store_found c p c_path = do
  c₁ ← refresh_node c p
  modify c₁ (some p) (λ d. record d { ciphertext_path = c_path })

-- The branch that reuses the head node. `count` has been incremented and is set back.
unfoldable pub store_evicting : FastCache → Bytes → Bytes → Option FastCache
unfolding load modify
store_evicting c p_path c_path = elim c.head [
  | none ↦ none
  | some p ↦ do
    old ← load c (some p)
    c₁ ← refresh_node c p
    c₂ ← modify c₁ (some p) (λ d. record d { plaintext_path = p_path; ciphertext_path = c_path })
    some (record c₂ {
      count = c.cache_size;
      storage = insert p_path p (delete old.plaintext_path c₂.storage);
    })
]

-- The branch that allocates a node.
unfoldable pub store_new : FastCache → Bytes → Bytes → Option FastCache
unfolding set_next
store_new c p_path c_path = elim c.head [
  | none ↦ some (record c {
    count = c.count + 1;
    storage = insert p_path p c.storage;
    head = some p;
    last = some p;
    nodes = c.nodes ++ (node none ∷ []);
  })
  | some _ ↦ do
    c₁ ←
        set_next
          (record c {
            count = c.count + 1;
            storage = insert p_path p c.storage;
            nodes = c.nodes ++ (node c.last ∷ []);
          })
          c.last (some p)
    some (record c₁ { last = some p })
]
  where
    p : ℕ
    p = length c.nodes

    node : Ptr → DirMapping
    node prev = record {
      plaintext_path = p_path;
      ciphertext_path = c_path;
      prev = prev;
      next = none;
    }

unfoldable pub store : FastCache → Bytes → Bytes → Option FastCache
unfolding store_found store_evicting store_new
store c p_path c_path = elim (lookup p_path c.storage) [
  | some p ↦ store_found c p c_path
  | none ↦
      if ltb c.cache_size (c.count + 1)
      then store_evicting c p_path c_path
      else store_new c p_path c_path
]
