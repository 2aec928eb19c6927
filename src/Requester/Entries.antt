-- ===== src/Requester/Entries.antt =====
-- A condition on every entry of the three caches of requester/requester.go, and what keeps it.
use gocryptsftp.Base.{
  ◌≡◌, ◌≢◌, refl, inl, inr, some, List, arith, Bytes, lookup, lookup-insert, lookup-delete,
  bytes_eq_iff, bytes_eq-false, Bytes-cases, sym, ℕ,
}
use gocryptsftp.Requester.Defs.{
  Entry, WorkType, work_none, work_read_file, work_read_dir, work_decrypt_name,
}
use gocryptsftp.Requester.SyncCache.{SyncCache, get, put, remove, delete_keys, get-delete_keys}
use gocryptsftp.Requester.System.{Caches, cache_of, set_cache, new_requester}

no_entry :
    (t : WorkType) (c : Caches) (k : Bytes) (e : Entry)
    → t ≡ work_none
    → get (cache_of t c) k ≢ some e
unfolding get cache_of lookup
no_entry work_none c k e h = λ x. cc
no_entry work_read_file c k e h = cc
no_entry work_read_dir c k e h = cc
no_entry work_decrypt_name c k e h = cc

module _ (P : WorkType → Bytes → Entry → Type 0) where
  abbrev pub EachIn : WorkType → SyncCache → Type 0
  EachIn t m = (k : Bytes) (e : Entry) → get m k ≡ some e → P t k e

  abbrev pub Each : Caches → Type 0
  Each c = (t : WorkType) → EachIn t (cache_of t c)

  set_cache-Each :
      (t : WorkType) (m : SyncCache) (c : Caches)
      → EachIn t m
      → ((u : WorkType) → u ≢ t → EachIn u (cache_of u c))
      → Each (set_cache t m c)
  unfolding set_cache cache_of
  set_cache-Each work_none m c new old work_none = λ k e h. absurd (no_entry work_none c k e refl h)
  set_cache-Each work_read_file m c new old work_read_file = new
  set_cache-Each work_read_dir m c new old work_read_dir = new
  set_cache-Each work_decrypt_name m c new old work_decrypt_name = new
  set_cache-Each work_none m c new old u = old u (λ x. cc)
  set_cache-Each work_read_file m c new old u = old u (λ x. cc)
  set_cache-Each work_read_dir m c new old u = old u (λ x. cc)
  set_cache-Each work_decrypt_name m c new old u = old u (λ x. cc)

  -- The entries that are not at this type and key.
  abbrev pub Others : WorkType → Bytes → Caches → Type 0
  Others t k c =
      (u : WorkType) (j : Bytes) (e : Entry)
      → (u ≡ t → j ≢ k)
      → get (cache_of u c) j ≡ some e
      → P u j e

  pub put-Each :
      (t : WorkType) (k : Bytes) (e : Entry) (c : Caches)
      → P t k e
      → Others t k c
      → Each (set_cache t (put (cache_of t c) k e) c)
  unfolding put get
  put-Each t k e c new old =
      set_cache-Each t _ c here (λ u ne j x at_j. old u j x (λ same. absurd (ne same)) at_j)
    where
      here : EachIn t (put (cache_of t c) k e)
      here j x at_j = elim (Bytes-cases k j) [
        | inl same ↦
            let q : e ≡ x = ground (arith, lookup-insert k j e (cache_of t c), bytes_eq_iff k j) in
            rw (← same, ← q) new
        | inr ne ↦
            old t j x (λ _ same. ne (sym same))
              (ground (arith, lookup-insert k j e (cache_of t c), bytes_eq-false k j ne))
      ]

  pub remove-Each :
      (t : WorkType) (k : Bytes) (c : Caches)
      → Each c
      → Each (set_cache t (remove (cache_of t c) k) c)
  unfolding remove get
  remove-Each t k c old =
      set_cache-Each t _ c
        (λ j e at_j. old t j e (ground (arith, lookup-delete k j (cache_of t c)))) (λ u ne. old u)

  pub delete_keys-Each :
      (t : WorkType) (ks : List Bytes) (c : Caches)
      → Each c
      → Each (set_cache t (delete_keys (cache_of t c) ks) c)
  delete_keys-Each t ks c old =
      set_cache-Each t _ c
        (λ j e at_j. old t j e (ground (arith, get-delete_keys (cache_of t c) ks j)))
        (λ u ne. old u)

-- A new requester has no entries.
pub new-Each :
    (num_workers : ℕ) (P : WorkType → Bytes → Entry → Type 0)
    → Each P (new_requester num_workers).caches
unfolding new_requester cache_of get lookup
new-Each n P work_none k e h = cc
new-Each n P work_read_file k e h = cc
new-Each n P work_read_dir k e h = cc
new-Each n P work_decrypt_name k e h = cc
