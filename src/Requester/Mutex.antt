-- ===== src/Requester/Mutex.antt =====
-- The mutex of a `workTicket` of requester/requester.go: who stands in its critical section.
pub mod Moves
use gocryptsftp.Base.{
  ℕ, ◌≡◌, ◌≢◌, refl, sym, inl, inr, Bool, true, false, Option, none, some, List, arith, Bytes, ◌==◌,
  Bool-cases, Option-cases,
}
use gocryptsftp.Requester.System.{
  WorkerPc, requesting, setting, broadcasting, unlocking, ClientPc, looking, seen, Owner, by_worker,
  by_client, update, update-elim,
}

-- A worker between `wt.Lock()` and `wt.Unlock()`; its ticket has its own number.
abbrev pub worker_holds : WorkerPc → Bool
worker_holds (requesting w) = true
worker_holds (setting w e) = true
worker_holds broadcasting = true
worker_holds unlocking = true
worker_holds _ = false

-- The ticket whose lock a caller has.
abbrev pub held : ClientPc → Option ℕ
held (looking q n) = some n
held (seen q n o) = some n
held _ = none

abbrev pub Lockers : Type 0
Lockers = ℕ → Option Owner

-- The owner of a ticket's lock is in the critical section.
abbrev pub Holder : (ℕ → Bool) → (ℕ → Option ℕ) → ℕ → Owner → Type 0
Holder wh ch n (by_worker i) = (i ≡ n) × (wh n ≡ true)
Holder wh ch n (by_client c) = ch c ≡ some n

-- The lock of each ticket is held by exactly the goroutine that is in its critical section.
pub record Exclusive (l : Lockers) (wh : ℕ → Bool) (ch : ℕ → Option ℕ) : Type 0 where
  pub workers_own : (i : ℕ) → wh i ≡ true → l i ≡ some (by_worker i)
  pub clients_own : (c n : ℕ) → ch c ≡ some n → l n ≡ some (by_client c)
  pub owners_hold : (n : ℕ) (o : Owner) → l n ≡ some o → Holder wh ch n o

module _ {l : Lockers} {wh : ℕ → Bool} {ch : ℕ → Option ℕ} (inv : Exclusive l wh ch) where
  open inv use {workers_own, clients_own, owners_hold}

  -- Nobody enters or leaves.
  pub same-Exclusive :
      (wh' : ℕ → Bool) (ch' : ℕ → Option ℕ)
      → ((j : ℕ) → wh' j ≡ wh j)
      → ((c : ℕ) → ch' c ≡ ch c)
      → Exclusive l wh' ch'
  same-Exclusive wh' ch' ws cs = record {
    workers_own = λ i h. workers_own i (ground (arith, ws i));
    clients_own = λ c n h. clients_own c n (ground (arith, cs c));
    owners_hold = holds;
  }
    where
      holds : (n : ℕ) (o : Owner) → l n ≡ some o → Holder wh' ch' n o
      holds n (by_worker i) h =
          let (e, w) = owners_hold n (by_worker i) h in (e, ground (arith, ws n))
      holds n (by_client c) h = let w = owners_hold n (by_client c) h in ground (arith, cs c)

  pub worker_enters :
      (i : ℕ) → l i ≡ none → Exclusive (update l i (some (by_worker i))) (update wh i true) ch
  worker_enters i free = record {
    workers_own = λ j h. ground (arith, workers_own j);
    clients_own = λ c n h. ground (arith, clients_own c n);
    owners_hold = holds;
  }
    where
      holds :
          (n : ℕ) (o : Owner)
          → update l i (some (by_worker i)) n ≡ some o
          → Holder (update wh i true) ch n o
      holds n (by_worker j) h = ground (arith, owners_hold n (by_worker j))
      holds n (by_client c) h = ground (arith, owners_hold n (by_client c))

  pub worker_leaves : (i : ℕ) → wh i ≡ true → Exclusive (update l i none) (update wh i false) ch
  worker_leaves i mine = record {
    workers_own = λ j h. ground (arith, workers_own j);
    clients_own = λ c n h. ground (arith, workers_own i mine, clients_own c n);
    owners_hold = holds;
  }
    where
      holds : (n : ℕ) (o : Owner) → update l i none n ≡ some o → Holder (update wh i false) ch n o
      holds n (by_worker j) h = ground (arith, owners_hold n (by_worker j))
      holds n (by_client c) h = ground (arith, owners_hold n (by_client c))

  pub client_enters :
      (c n : ℕ)
      → l n ≡ none
      → ch c ≡ none
      → Exclusive (update l n (some (by_client c))) wh (update ch c (some n))
  client_enters c n free away = record {
    workers_own = λ j h. ground (arith, workers_own j);
    clients_own = λ d m h. ground (arith, clients_own d m);
    owners_hold = holds;
  }
    where
      holds :
          (m : ℕ) (o : Owner)
          → update l n (some (by_client c)) m ≡ some o
          → Holder wh (update ch c (some n)) m o
      holds m (by_worker j) h = ground (arith, owners_hold m (by_worker j))
      holds m (by_client d) h = ground (arith, owners_hold m (by_client d))

  pub client_leaves : (c n : ℕ) → ch c ≡ some n → Exclusive (update l n none) wh (update ch c none)
  client_leaves c n mine = record {
    workers_own = λ j h. ground (arith, workers_own j, clients_own c n mine);
    clients_own = λ d m h. ground (arith, clients_own d m, clients_own c n mine);
    owners_hold = holds;
  }
    where
      holds : (m : ℕ) (o : Owner) → update l n none m ≡ some o → Holder wh (update ch c none) m o
      holds m (by_worker j) h = ground (arith, owners_hold m (by_worker j))
      holds m (by_client d) h = ground (arith, owners_hold m (by_client d), clients_own c n mine)
