-- ===== src/Requester/Wakeup/Moves.antt =====
-- Every access leaves each sleeper with a worker that will wake it.
use mathlib.Core.Path.{subst}
use gocryptsftp.Base.{sym, ℕ, ◌≡◌, refl, Bool, true, false, some, List, Bytes}
use gocryptsftp.Requester.Defs.{WorkType}
use gocryptsftp.Requester.System.{
  Caches, WorkerPc, waiting, started, offering, replying, broadcasting, unlocking, Request,
  ClientPc, received, System, update, update-elim, new_requester,
}
use gocryptsftp.Requester.Lifecycle.{born_unseen}
use gocryptsftp.Requester.Client.{cached, rechecked, recheck_with}
use gocryptsftp.Requester.Steps.{Action, run, copy_keys, delete_copied}
use gocryptsftp.Requester.Entries.{Each, remove-Each, delete_keys-Each, new-Each}
use gocryptsftp.Requester.Moves.{Move, take, drop, claim, close, pass_on}
use gocryptsftp.Requester.Moves.Away.{away, away-checked, away-rechecked}
use gocryptsftp.Requester.Moves.Run.{run_keeps}
use gocryptsftp.Requester.Mutex.Moves.{move-MutexOk, new-MutexOk}
use gocryptsftp.Requester.Wakeup.{busy, WorkOk, Watched, Serves, Pending, Attended}
use gocryptsftp.Requester.Wakeup.Points.{
  Watched-away, reply_entry-WorkOk, Serves-busy, pending_goes, worker-WorkOk, worker-Watched,
  client-Watched, look-Watched, decide-Watched, claim_goes, set_goes, alone, wakes, Watched-born,
}

module _ (siphash : Bytes → ℕ) where
  module _ (s : System) (inv : Attended siphash s) where
    open inv use {pending, work_ok, watched}

    abbrev Rest : Caches → (ℕ → WorkerPc) → (ℕ → ClientPc) → Type 0
    Rest m ws cs =
        Each (Pending siphash ws) m × ((j : ℕ) → WorkOk (ws j)) × ((c : ℕ) → Watched ws (cs c))

    -- A worker that goes on and keeps the caches.
    worker_goes :
        (i : ℕ) (v : WorkerPc)
        → ((t : WorkType) (k : Bytes) → Serves siphash t k (s.workers i) → Serves siphash t k v)
        → (busy (s.workers i) ≡ true → busy v ≡ true)
        → WorkOk v
        → Rest s.caches (update s.workers i v) s.clients
    worker_goes i v serves stays new = (
      pending_goes siphash s inv i v serves,
      worker-WorkOk siphash s inv i v new,
      worker-Watched siphash s inv i v stays,
    )

    -- A worker that serves no key and turns to another point.
    idler_goes :
        (i : ℕ) (u v : WorkerPc)
        → s.workers i ≡ u
        → busy u ≡ false
        → WorkOk v
        → Rest s.caches (update s.workers i v) s.clients
    idler_goes i u v at_i idle new =
        worker_goes i v (λ t k h. let b = Serves-busy siphash t k _ h in cc) (λ b. cc) new

    client_goes :
        (c : ℕ) (pc : ClientPc)
        → Watched s.workers pc
        → Rest s.caches s.workers (update s.clients c pc)
    client_goes c pc new = (pending, work_ok, client-Watched siphash s inv c pc new)

    -- A worker and a caller go on together.
    both_go :
        (c : ℕ) (pc : ClientPc) (ws : ℕ → WorkerPc)
        → away pc ≡ true
        → Rest s.caches ws s.clients
        → Rest s.caches ws (update s.clients c pc)
    both_go c pc ws out (p, u, w) =
        (p, u, update-elim (λ _. Watched ws) s.clients c pc (Watched-away ws pc out) (λ d _. w d))

    recheck_goes :
        (c : ℕ) (q : Request) (r : ClientPc × Bool)
        → away r.0 ≡ true
        → let s' = recheck_with siphash s c q r in Rest s'.caches s'.workers s'.clients
    unfolding recheck_with
    recheck_goes c q (pc, false) out = client_goes c pc (Watched-away s.workers pc out)
    recheck_goes c q (pc, true) out = (
      remove-Each _ q.kind _ s.caches pending,
      work_ok,
      client-Watched siphash s inv c pc (Watched-away s.workers pc out),
    )

    move-Rest : (s' : System) → Move siphash s s' → Rest s'.caches s'.workers s'.clients
    unfolding copy_keys delete_copied
    move-Rest _ (take i w rest a b) = idler_goes i waiting _ a refl tt
    move-Rest _ (Move.exit i a b) = idler_goes i waiting _ a refl tt
    move-Rest _ (Move.start a) = (
      (λ t k e at_k undone numbered.
          subst (λ X. X) (sym (born_unseen (Serves siphash t k) s.num_workers _ _ refl))
            (pending t k e at_k undone numbered)),
      (λ j. subst (λ X. X) (sym (born_unseen WorkOk s.num_workers _ _ refl)) (work_ok j)),
      (λ c. Watched-born s.num_workers s.workers (s.clients c) (watched c)),
    )
    move-Rest _ Move.stop = (pending, work_ok, watched)
    move-Rest _ (drop i w a) = idler_goes i (started w) _ a refl tt
    move-Rest _ (claim i w a b d) = (
      claim_goes siphash s inv i w a,
      worker-WorkOk siphash s inv i (offering w) b,
      worker-Watched siphash s inv i (offering w) (λ h. refl),
    )
    move-Rest _ (close i w e a b d) = idler_goes i (started w) _ a refl tt
    move-Rest _ (pass_on i w e a b d) = idler_goes i (started w) _ a refl tt
    move-Rest _ (Move.lock i w a b) =
        worker_goes i _ (λ t k h. rw a at h) (λ h. refl) (rw a at (work_ok i))
    move-Rest _ (Move.request i w r e a b) =
        worker_goes i _ (λ t k h. rw a at h) (λ h. refl) (reply_entry-WorkOk w.request_type r e b)
    move-Rest _ (Move.set i w e a) = (
      set_goes siphash s inv i w e a,
      worker-WorkOk siphash s inv i broadcasting tt,
      worker-Watched siphash s inv i broadcasting (λ h. refl),
    )
    move-Rest _ (Move.broadcast i a) = (
      pending_goes siphash s inv i unlocking (λ t k h. absurd (rw a at h)),
      worker-WorkOk siphash s inv i unlocking tt,
      λ c. wakes siphash s inv i a (s.clients c) (λ h. alone siphash s inv i c a h) (watched c),
    )
    move-Rest _ (Move.unlock i a) = idler_goes i unlocking _ a refl tt
    move-Rest _ (Move.begin c q a b) = client_goes c _ tt
    move-Rest _ (Move.check c q a) =
        client_goes c _ (Watched-away s.workers _ (away-checked siphash q (cached siphash s q)))
    move-Rest _ (Move.send c q a b) = client_goes c _ tt
    move-Rest _ (Move.receive_closed c q ch a b) = client_goes c _ tt
    move-Rest _ (Move.recheck c q t a) =
        recheck_goes c q (rechecked siphash q t (cached siphash s q))
          (away-rechecked siphash q t (cached siphash s q))
    move-Rest _ (Move.time_out c q ch a) = client_goes c _ tt
    move-Rest _ (Move.lock_ticket c q n a b) = client_goes c _ tt
    move-Rest _ (Move.look c q n a) =
        client_goes c _ (λ b. look-Watched siphash s inv q n (cached siphash s q) refl b)
    move-Rest _ (Move.decide c q n o a) =
        client_goes c _ (decide-Watched siphash s inv q n o (rw a at (watched c)))
    move-Rest _ (Move.hand_over i c w q a b) =
        both_go c (received q (some i)) _ refl (
          worker_goes i (WorkerPc.locking w) (λ t k h. rw a at h) (λ h. refl) (rw a at (work_ok i)))
    move-Rest _ (Move.reply i c w n q a b) =
        both_go c (received q (some n)) _ refl (idler_goes i (replying w n) waiting a refl tt)
    move-Rest _ (Move.copy t) = (pending, work_ok, watched)
    move-Rest _ (Move.delete t) =
        (delete_keys-Each _ t (s.snapshot t) s.caches pending, work_ok, watched)

  pub move-Attended : (s s' : System) → Attended siphash s → Move siphash s s' → Attended siphash s'
  move-Attended s s' inv move =
      let (pending', work_ok', watched') = move-Rest s inv s' move in
      record {
        mutex = move-MutexOk siphash s s' inv.mutex move;
        pending = pending';
        work_ok = work_ok';
        watched = watched';
      }

  new-Attended : (num_workers : ℕ) → Attended siphash (new_requester num_workers)
  unfolding new_requester
  new-Attended num_workers = record {
    mutex = new-MutexOk siphash num_workers;
    pending = new-Each num_workers (Pending siphash (new_requester num_workers).workers);
    work_ok = λ i. tt;
    watched = λ c. tt;
  }

  pub run-Attended :
      (num_workers : ℕ) (as' : List Action) {s : System}
      → run siphash as' (new_requester num_workers) ≡ some s
      → Attended siphash s
  run-Attended num_workers as' e =
      run_keeps siphash (Attended siphash) move-Attended as' (new-Attended num_workers) e
