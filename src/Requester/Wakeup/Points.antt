-- ===== src/Requester/Wakeup/Points.antt =====
-- What a sleeper's worker serves, at the points that a worker or a caller goes on to.
use mathlib.Core.Path.{subst}
use gocryptsftp.Base.{
  ◌∙◌, ℕ, ◌≡◌, ◌≢◌, refl, sym, ap, inl, inr, true, false, Option, none, some, arith, Bytes, ◌==◌,
  Bool-cases,
}
use gocryptsftp.Requester.Moves.Cases.{after_look_cases}
use gocryptsftp.Requester.Defs.{
  Entry, WorkType, work_read_file, work_read_dir, work_decrypt_name, Work, is_done,
}
use gocryptsftp.Requester.SyncCache.{get, put}
use gocryptsftp.Requester.System.{
  Reply, file_reply, dir_reply, name_reply, reply_entry, WorkerPc, started, offering, requesting,
  setting, broadcasting, unlocking, Request, ClientPc, seen, asleep, System, update, update-elim,
  cache_of, set_cache, update-same,
}
use gocryptsftp.Requester.Lifecycle.{born, born_unseen}
use gocryptsftp.Requester.Worker.{wake}
use gocryptsftp.Requester.Client.{cached}
use gocryptsftp.Requester.Ticket.{after_look, breaks}
use gocryptsftp.Requester.Entries.{Each, put-Each}
use gocryptsftp.Requester.Moves.{key_of, claim_entry}
use gocryptsftp.Requester.Moves.Away.{away, away-settled}
use gocryptsftp.Requester.Mutex.{held, worker_holds}
use gocryptsftp.Requester.Wakeup.{busy, WorkOk, Watched, Serves, Pending, Attended}

pub Watched-away : (ws : ℕ → WorkerPc) (pc : ClientPc) → away pc ≡ true → Watched ws pc
Watched-away ws (asleep q n) h = cc
Watched-away ws (seen q n o) h = cc
Watched-away ws _ h = tt

-- A worker that stays busy keeps its watchers.
Watched-goes :
    (ws : ℕ → WorkerPc) (i : ℕ) (v : WorkerPc) (pc : ClientPc)
    → (busy (ws i) ≡ true → busy v ≡ true)
    → Watched ws pc
    → Watched (update ws i v) pc
Watched-goes ws i v (asleep q n) stays h = ground (arith, stays)
Watched-goes ws i v (seen q n o) stays h = λ b. ground (arith, stays, h b)
Watched-goes ws i v _ stays h = tt

pub Watched-born :
    (n : ℕ) (ws : ℕ → WorkerPc) (pc : ClientPc) → Watched ws pc → Watched (λ j. born n j (ws j)) pc
Watched-born n ws (asleep q k) h = born_unseen busy n k (ws k) refl ∙ h
Watched-born n ws (seen q k o) h = λ b. born_unseen busy n k (ws k) refl ∙ h b
Watched-born n ws _ h = tt

pub reply_entry-WorkOk :
    (t : WorkType) (r : Reply) (e : Entry) → reply_entry t r ≡ some e → e.locker_num ≡ 0
unfolding reply_entry
reply_entry-WorkOk work_read_file (file_reply x y) e h = cc
reply_entry-WorkOk work_read_dir (dir_reply x y) e h = cc
reply_entry-WorkOk work_decrypt_name (name_reply x y) e h = cc
reply_entry-WorkOk t r e h = cc

module _ (siphash : Bytes → ℕ) where
  pub Serves-busy :
      (t : WorkType) (k : Bytes) (pc : WorkerPc) → Serves siphash t k pc → busy pc ≡ true
  Serves-busy t k (offering w) h = refl
  Serves-busy t k (WorkerPc.locking w) h = refl
  Serves-busy t k (requesting w) h = refl
  Serves-busy t k (setting w e) h = refl
  Serves-busy t k _ h = absurd h

  module _ (s : System) (inv : Attended siphash s) where
    open inv use {mutex, pending, work_ok, watched}

    served :
        (t : WorkType) (k : Bytes) (e : Entry)
        → get (cache_of t s.caches) k ≡ some e
        → is_done e ≡ false
        → e.locker_num ≢ 0
        → (j : ℕ) → j ≡ e.locker_num
        → Serves siphash t k (s.workers j)
    served t k e at_k undone numbered j same =
        subst (λ n. Serves siphash t k (s.workers n)) (sym same)
          (pending t k e at_k undone numbered)

    -- The worker goes from one point to another and serves what it served.
    pub pending_goes :
        (i : ℕ) (v : WorkerPc)
        → ((t : WorkType) (k : Bytes) → Serves siphash t k (s.workers i) → Serves siphash t k v)
        → Each (Pending siphash (update s.workers i v)) s.caches
    pending_goes i v stays t k e at_k undone numbered =
        update-elim (λ j pc. j ≡ e.locker_num → Serves siphash t k pc) s.workers i v
          (λ same. stays t k (served t k e at_k undone numbered i same))
          (λ j _ same. served t k e at_k undone numbered j same) e.locker_num refl

    pub worker-WorkOk :
        (i : ℕ) (v : WorkerPc) → WorkOk v → (j : ℕ) → WorkOk (update s.workers i v j)
    worker-WorkOk i v new = update-elim (λ _. WorkOk) s.workers i v new (λ j _. work_ok j)

    pub worker-Watched :
        (i : ℕ) (v : WorkerPc)
        → (busy (s.workers i) ≡ true → busy v ≡ true)
        → (c : ℕ) → Watched (update s.workers i v) (s.clients c)
    worker-Watched i v stays c = Watched-goes s.workers i v (s.clients c) stays (watched c)

    pub client-Watched :
        (c : ℕ) (pc : ClientPc)
        → Watched s.workers pc
        → (d : ℕ) → Watched s.workers (update s.clients c pc d)
    client-Watched c pc new =
        update-elim (λ _. Watched s.workers) s.clients c pc new (λ d _. watched d)

    -- What `cache.Get` returns under the lock, if the loop does not break.
    pub look-Watched :
        (q : Request) (n : ℕ) (o : Option Entry)
        → cached siphash s q ≡ o
        → breaks n o ≡ false
        → busy (s.workers n) ≡ true
    unfolding breaks
    look-Watched q n none at_q b = cc
    look-Watched q n (some e) at_q b =
        let undone : is_done e ≡ false = ground arith in
        let mine : e.locker_num ≡ n = ground arith in
        let numbered : e.locker_num ≢ 0 = ground arith in
        rw (← mine) (Serves-busy _ _ _ (pending q.kind _ e at_q undone numbered))

    -- A caller that has looked goes to sleep only on a busy worker.
    pub decide-Watched :
        (q : Request) (n : ℕ) (o : Option Entry)
        → Watched s.workers (seen q n o)
        → Watched s.workers (after_look q n o)
    decide-Watched q n o h =
        after_look_cases (Watched s.workers) q n o (Watched-away s.workers _ (away-settled q o)) h

    -- The entry that a worker has just claimed is its own.
    pub claim_goes :
        (i : ℕ) (w : Work)
        → s.workers i ≡ started w
        → Each (Pending siphash (update s.workers i (offering w))) (
            set_cache w.request_type
              (put (cache_of w.request_type s.caches) (key_of siphash w) (claim_entry i))
              s.caches)
    claim_goes i w at_i =
        put-Each _ w.request_type (key_of siphash w) (claim_entry i) s.caches
          (λ undone numbered. rw (update-same s.workers i (offering w)) (refl, refl))
          (λ u j e other at_j.
            pending_goes i (offering w) (λ t k h. absurd (rw at_i at h)) u j e at_j)

    -- Once it has stored the reply, no entry has its number.
    pub set_goes :
        (i : ℕ) (w : Work) (x : Entry)
        → s.workers i ≡ setting w x
        → Each (Pending siphash (update s.workers i broadcasting)) (
            set_cache w.request_type
              (put (cache_of w.request_type s.caches) (key_of siphash w) x)
              s.caches)
    set_goes i w x at_i =
        put-Each _ w.request_type (key_of siphash w) x s.caches
          (λ undone numbered. absurd (numbered (rw at_i at (work_ok i))))
          (λ u j e other at_j undone numbered.
            update-elim (λ n pc. n ≡ e.locker_num → Serves siphash u j pc) s.workers i broadcasting
              (λ same.
                let (t, k) = rw at_i at (served u j e at_j undone numbered i same) in
                other (sym t) (sym k))
              (λ n _ same. served u j e at_j undone numbered n same) e.locker_num refl)

    -- While a worker broadcasts, no caller is in the critical section of its ticket.
    pub alone : (i c : ℕ) → s.workers i ≡ broadcasting → held (s.clients c) ≢ some i
    alone i c at_i has =
        let mine = mutex.workers_own i (ap worker_holds at_i) in
        let its = mutex.clients_own c i has in cc

    pub wakes :
        (i : ℕ)
        → s.workers i ≡ broadcasting
        → (pc : ClientPc) → held pc ≢ some i
        → Watched s.workers pc
        → Watched (update s.workers i unlocking) (wake i pc)
    unfolding wake
    wakes i at_i (asleep q n) h w = elim (Bool-cases (i == n)) [
      | inl t ↦ rw t tt
      | inr t ↦ rw (t, t) w
    ]
    wakes i at_i (seen q n o) h w = λ b. ground (arith, h, w b)
    wakes i at_i _ h w = tt
