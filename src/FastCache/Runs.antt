-- ===== src/FastCache/Runs.antt =====
-- Any sequence of calls, against a map that forgets nothing.
use gocryptsftp.Base.{
  ◌<◌, ◌≡◌, ◌⊎◌, inl, inr, refl, ◌≤◌, ℕ, Option, none, some, List, [], ◌∷◌, arith, Bytes, bytes_eq,
  if◌then◌else◌, lookup, Bool-cases, bytes_eq_iff, sym, ◌∙◌, ap,
}
use mathlib.Core.Option
use gocryptsftp.FastCache.{DirMapping, FastCache, ◌>>=◌, find, store, clear, new_fast_cache}
use gocryptsftp.FastCache.Invariant.{IsValid, mapping}
use gocryptsftp.FastCache.Calls.{find-Found}
use gocryptsftp.FastCache.Stored.{Stored, is_path, victim}
use gocryptsftp.FastCache.Stores.{store-Stored}

pub data Call : Type 0 where
  finds : Bytes → Call
  stores : Bytes → Bytes → Call
  clears : Call

unfoldable pub step : FastCache → Call → Option FastCache
step c (finds k) = do (c', _) ← find c k; some c'
step c (stores k v) = store c k v
step c clears = some (clear c)

unfoldable pub run : List Call → FastCache → Option FastCache
unfolding step
run [] c = some c
run (x ∷ xs) c = do c' ← step c x; run xs c'

-- What was stored last for a path since the last `Clear`.
unfoldable pub last_stored : List Call → (Bytes → Option Bytes) → Bytes → Option Bytes
last_stored [] m j = m j
last_stored (finds k ∷ xs) m j = last_stored xs m j
last_stored (stores k v ∷ xs) m j = last_stored xs (λ i. if bytes_eq k i then some v else m i) j
last_stored (clears ∷ xs) m j = last_stored xs (λ _. none) j

-- The cache answers nothing, or what the map holds.
abbrev pub Agrees : FastCache → (Bytes → Option Bytes) → Type 0
Agrees c m = (j : Bytes) → (mapping c j ≡ none) ⊎ (mapping c j ≡ m j)

pub new-IsValid : (n : ℕ) → IsValid (new_fast_cache n)
unfolding new_fast_cache lookup
new-IsValid n = record {
  linked = record {
    stored = λ k p e. cc;
    links = λ k p d e. cc;
    head_in = tt;
    last_in = tt;
    started = λ k p e. cc;
  };
  distinct = tt;
  counted = refl;
  bounded = omega arith;
}

pub clear-IsValid : (c : FastCache) → IsValid (clear c)
unfolding clear lookup
clear-IsValid c = record {
  linked = record {
    stored = λ k p e. cc;
    links = λ k p d e. cc;
    head_in = tt;
    last_in = tt;
    started = λ k p e. cc;
  };
  distinct = tt;
  counted = refl;
  bounded = omega arith;
}

mapping-clear : (c : FastCache) (j : Bytes) → mapping (clear c) j ≡ none
unfolding clear mapping lookup
mapping-clear c j = refl

Agrees-store :
    (c c' : FastCache) (m : Bytes → Option Bytes) (k v : Bytes) (gone : Option Bytes)
    → Agrees c m
    → Stored c k v gone c'
    → Agrees c' (λ i. if bytes_eq k i then some v else m i)
Agrees-store c c' m k v gone a s j = elim (Bool-cases (bytes_eq k j)) [
  | inl t ↦ ground (arith, s.answer j)
  | inr t ↦ elim (Bool-cases (is_path gone j)) [
    | inl g ↦ inl (ground (arith, s.answer j))
    | inr g ↦ ground (arith, s.answer j, a j)
  ]
]

-- The outcome of a run.
pub record Ran (size : ℕ) (m : Bytes → Option Bytes) (c : FastCache) : Type 0 where
  pub valid : IsValid c
  pub same_size : c.cache_size ≡ size
  pub agrees : Agrees c m

run-Ran :
    (xs : List Call) (c : FastCache) (m : Bytes → Option Bytes) (n : ℕ)
    → 0 < n
    → Ran n m c
    → (c' : FastCache) × (run xs c ≡ some c') × Ran n (last_stored xs m) c'
unfolding run step last_stored
run-Ran [] c m n pos r = (c, refl, r)
run-Ran (finds k ∷ xs) c m n pos r =
    let (c', d, e, found) = find-Found k r.valid in
    let (c″, e', r') = run-Ran xs c' m n pos (record {
      valid = found.valid;
      same_size = ground (arith, found.size, r.same_size);
      agrees = λ j. ground (arith, r.agrees j, found.kept j);
    }) in
    (c″, rw e e', r')
run-Ran (stores k v ∷ xs) c m n pos r =
    let (c', e, s) = store-Stored k v r.valid (rw r.same_size pos) in
    let (c″, e', r') =
      run-Ran xs c' (λ i. if bytes_eq k i then some v else m i) n pos
        (record {
          valid = s.valid;
          same_size = ground (arith, s.size, r.same_size);
          agrees = Agrees-store c c' m k v (victim c k) r.agrees s;
        }) in
    (c″, rw e e', r')
run-Ran (clears ∷ xs) c m n pos r =
    run-Ran xs (clear c) (λ _. none) n pos
      (record {
        valid = clear-IsValid c;
        same_size = unfold clear in r.same_size;
        agrees = λ j. inl (mapping-clear c j);
      })

-- `Find` of a path does not panic, and returns what the cache holds for it: nothing, or the path
-- that the map has.
pub record Finds (c : FastCache) (m : Bytes → Option Bytes) (j : Bytes) : Type 0 where
  pub after : FastCache
  pub found : Option DirMapping
  pub ran : find c j ≡ some (after, found)
  pub held : Option.map (λ (d : DirMapping). d.ciphertext_path) found ≡ mapping c j
  pub right :
      (found ≡ none) ⊎ ((d : DirMapping) × (found ≡ some d) × (m j ≡ some d.ciphertext_path))

mapped : Option DirMapping → Option Bytes
mapped r = Option.map (λ (d : DirMapping). d.ciphertext_path) r

right_of :
    (r : Option DirMapping) (o : Option Bytes)
    → (mapped r ≡ none) ⊎ (mapped r ≡ o)
    → (r ≡ none) ⊎ ((d : DirMapping) × (r ≡ some d) × (o ≡ some d.ciphertext_path))
unfolding mapped
right_of none o h = inl refl
right_of (some d) o (inl h) = absurd (cc)
right_of (some d) o (inr h) = inr (d, refl, sym h)

Agrees-Finds :
    (c : FastCache) (m : Bytes → Option Bytes) (j : Bytes) → IsValid c → Agrees c m → Finds c m j
unfolding mapped
Agrees-Finds c m j v agrees =
    let (c', r, e, f) = find-Found j v in
    record {
      after = c';
      found = r;
      ran = e;
      held = f.answer;
      right = right_of r (m j) (rw f.answer (agrees j));
    }

-- What is stored is found at once.
abbrev pub FindsStored : FastCache → Type 0
FindsStored c =
    (k v : Bytes)
    → (c' : FastCache) × (store c k v ≡ some c')
      × (d : DirMapping) × (found_after : FastCache) × (find c' k ≡ some (found_after, some d))
      × (d.ciphertext_path ≡ v)

some_found :
    (r : Option DirMapping) (v : Bytes)
    → mapped r ≡ some v
    → (d : DirMapping) × (r ≡ some d) × (d.ciphertext_path ≡ v)
unfolding mapped
some_found none v h = absurd (cc)
some_found (some d) v h = (d, refl, cc)

store-found :
    (c : FastCache) (k v : Bytes)
    → IsValid c
    → 0 < c.cache_size
    → (c' : FastCache) × (store c k v ≡ some c')
      × (d : DirMapping) × (found_after : FastCache) × (find c' k ≡ some (found_after, some d))
      × (d.ciphertext_path ≡ v)
unfolding mapped
store-found c k v valid pos =
    let (c', e, s) = store-Stored k v valid pos in
    let (c″, r, e', f) = find-Found k s.valid in
    let here : mapping c' k ≡ some v = ground (arith, s.answer k, bytes_eq_iff k k) in
    let (d, q, same) = some_found r v (f.answer ∙ here) in
    (c', e, d, c″, e' ∙ ap (λ x. some (c″, x)) q, same)

-- No sequence of `Find`, `Store` and `Clear` on a new cache of positive size panics; afterwards
-- the cache is valid and holds at most as many entries as its size, and `Find` of any path does not
-- panic and returns nothing or the ciphertext path that was stored last for that path since the last
-- `Clear`; and a path that is stored then is found, with the ciphertext path that it is stored with.
pub run_new :
    (xs : List Call) (n : ℕ)
    → 0 < n
    → (c : FastCache) × (run xs (new_fast_cache n) ≡ some c)
      × IsValid c
      × (c.count ≤ n)
      × ((j : Bytes) → Finds c (last_stored xs (λ _. none)) j)
      × FindsStored c
unfolding new_fast_cache mapping lookup
run_new xs n pos =
    let (c, e, r) =
      run-Ran xs (new_fast_cache n) (λ _. none) n pos
        (record { valid = new-IsValid n; same_size = refl; agrees = λ j. inl refl }) in
    (
      c,
      e,
      r.valid,
      omega (arith, r.valid.bounded, r.same_size),
      λ j. Agrees-Finds c (last_stored xs (λ _. none)) j r.valid r.agrees,
      λ k v. store-found c k v r.valid (rw r.same_size pos),
    )
