-- ===== src/Requester/Coherence/Moves.antt =====
-- Every access keeps the caches coherent.
use mathlib.Core.Path.{subst}
use gocryptsftp.Base.{sym, ℕ, ◌≡◌, refl, inl, inr, Bool, true, false, ◌∷◌, Bytes}
use gocryptsftp.Requester.System.{
  WorkerPc, waiting, started, offering, replying, requesting, setting, broadcasting, unlocking,
  Request, ClientPc, Answer, System, update, update-elim, request_key, exited,
}
use gocryptsftp.Requester.Lifecycle.{born_unseen}
use gocryptsftp.Requester.Client.{cached, rechecked, recheck_with}
use gocryptsftp.Requester.Steps.{copy_keys, delete_copied}
use gocryptsftp.Requester.Moves.{Move, take, drop, claim, close, pass_on, key_of, claim_entry}
use gocryptsftp.Requester.Entries.{put-Each, remove-Each, delete_keys-Each}
use gocryptsftp.Requester.Coherence.Points.{
  reply_entry-Fits, Held, checked-Good, rechecked-Good, after_look-Good, wake-Good, grow-WorkerOk,
  grow-ClientOk,
}
use gocryptsftp.Requester.Coherence.{Answered, WorkerOk, ClientOk, Coherent}

module _ (siphash : Bytes → ℕ) where
  module _ (s : System) (inv : Coherent siphash s) where
    open inv use {caches_ok, workers_ok, clients_ok}

    -- The payload of a cached entry was a reply.
    cached-Held : (q : Request) → Held siphash s.answers q (cached siphash s q)
    cached-Held q = λ e at_q. caches_ok q.kind (request_key siphash q.arg1 q.arg2) e at_q

    workers_go :
        (i : ℕ) (pc : WorkerPc)
        → WorkerOk siphash s.answers pc
        → (j : ℕ) → WorkerOk siphash s.answers (update s.workers i pc j)
    workers_go i pc new =
        update-elim (λ _. WorkerOk siphash s.answers) s.workers i pc new (λ j _. workers_ok j)

    clients_go :
        (c : ℕ) (pc : ClientPc)
        → ClientOk siphash s.answers pc
        → (d : ℕ) → ClientOk siphash s.answers (update s.clients c pc d)
    clients_go c pc new =
        update-elim (λ _. ClientOk siphash s.answers) s.clients c pc new (λ d _. clients_ok d)

    worker_goes :
        (i : ℕ) (pc : WorkerPc) {s' : System}
        → WorkerOk siphash s.answers pc
        → s'.workers ≡ update s.workers i pc
        → s'.caches ≡ s.caches
        → s'.answers ≡ s.answers
        → s'.clients ≡ s.clients
        → Coherent siphash s'
    worker_goes i pc new ws m log cs = record {
      caches_ok = rw (m, log) caches_ok;
      workers_ok = rw (ws, log) (workers_go i pc new);
      clients_ok = rw (cs, log) clients_ok;
    }

    client_goes :
        (c : ℕ) (pc : ClientPc) {s' : System}
        → ClientOk siphash s.answers pc
        → s'.clients ≡ update s.clients c pc
        → s'.caches ≡ s.caches
        → s'.answers ≡ s.answers
        → s'.workers ≡ s.workers
        → Coherent siphash s'
    client_goes c pc new cs m log ws = record {
      caches_ok = rw (m, log) caches_ok;
      workers_ok = rw (ws, log) workers_ok;
      clients_ok = rw (cs, log) (clients_go c pc new);
    }

    recheck_goes :
        (c : ℕ) (q : Request) (r : ClientPc × Bool)
        → ClientOk siphash s.answers r.0
        → Coherent siphash (recheck_with siphash s c q r)
    unfolding recheck_with
    recheck_goes c q (pc, false) new = client_goes c pc new refl refl refl refl
    recheck_goes c q (pc, true) new = record {
      caches_ok =
          remove-Each (Answered siphash s.answers) q.kind (request_key siphash q.arg1 q.arg2)
            s.caches caches_ok;
      workers_ok = workers_ok;
      clients_ok = clients_go c pc new;
    }

  pub move-Coherent : (s s' : System) → Coherent siphash s → Move siphash s s' → Coherent siphash s'
  unfolding copy_keys delete_copied
  move-Coherent s _ inv (take i w rest a b) = worker_goes s inv i (started w) tt refl refl refl refl
  move-Coherent s _ inv (Move.exit i a b) = worker_goes s inv i exited tt refl refl refl refl
  move-Coherent s _ inv (Move.start a) = record {
    caches_ok = inv.caches_ok;
    workers_ok = λ j.
        subst (λ X. X) (sym (born_unseen (WorkerOk siphash s.answers) s.num_workers _ _ refl))
          (inv.workers_ok j);
    clients_ok = inv.clients_ok;
  }
  move-Coherent s _ inv Move.stop = record {
    caches_ok = inv.caches_ok;
    workers_ok = inv.workers_ok;
    clients_ok = inv.clients_ok;
  }
  move-Coherent s _ inv (drop i w a) = worker_goes s inv i waiting tt refl refl refl refl
  move-Coherent s _ inv (claim i w a b d) = record {
    caches_ok =
        put-Each (Answered siphash s.answers) w.request_type (key_of siphash w) (claim_entry i)
          s.caches (λ p has. cc) (λ u j e _. inv.caches_ok u j e);
    workers_ok = workers_go s inv i (offering w) tt;
    clients_ok = inv.clients_ok;
  }
  move-Coherent s _ inv (close i w e a b d) = worker_goes s inv i waiting tt refl refl refl refl
  move-Coherent s _ inv (pass_on i w e a b d) =
      worker_goes s inv i (replying w e.locker_num) tt refl refl refl refl
  move-Coherent s _ inv (Move.lock i w a b) =
      worker_goes s inv i (requesting w) tt refl refl refl refl
  move-Coherent s _ inv (Move.request i w r e a b) =
      let x : Answer = record { work = w; entry = e } in
      record {
        caches_ok = λ t k y at_k p has. inr (inv.caches_ok t k y at_k p has);
        workers_ok =
            update-elim (λ _. WorkerOk siphash (x ∷ s.answers)) s.workers i (setting w e)
              (λ p has. inl (refl, refl, has, reply_entry-Fits w.request_type r e p b has))
              (λ j _. grow-WorkerOk siphash s.answers x (s.workers j) (inv.workers_ok j));
        clients_ok = λ c. grow-ClientOk siphash s.answers x (s.clients c) (inv.clients_ok c);
      }
  move-Coherent s _ inv (Move.set i w e a) = record {
    caches_ok =
        put-Each (Answered siphash s.answers) w.request_type (key_of siphash w) e s.caches
          (rw a at (inv.workers_ok i)) (λ u j x _. inv.caches_ok u j x);
    workers_ok = workers_go s inv i broadcasting tt;
    clients_ok = inv.clients_ok;
  }
  move-Coherent s _ inv (Move.broadcast i a) = record {
    caches_ok = inv.caches_ok;
    workers_ok = workers_go s inv i unlocking tt;
    clients_ok = λ c. wake-Good siphash s.answers i (s.clients c) (inv.clients_ok c);
  }
  move-Coherent s _ inv (Move.unlock i a) = worker_goes s inv i waiting tt refl refl refl refl
  move-Coherent s _ inv (Move.begin c q a b) = client_goes s inv c _ tt refl refl refl refl
  move-Coherent s _ inv (Move.check c q a) =
      client_goes s inv c _
        (checked-Good siphash s.answers q (cached siphash s q) (cached-Held s inv q)) refl refl refl
        refl
  move-Coherent s _ inv (Move.send c q a b) = client_goes s inv c _ tt refl refl refl refl
  move-Coherent s _ inv (Move.receive_closed c q ch a b) =
      client_goes s inv c _ tt refl refl refl refl
  move-Coherent s _ inv (Move.recheck c q t a) =
      recheck_goes s inv c q (rechecked siphash q t (cached siphash s q))
        (rechecked-Good siphash s.answers q t (cached siphash s q) (cached-Held s inv q))
  move-Coherent s _ inv (Move.time_out c q ch a) = client_goes s inv c _ tt refl refl refl refl
  move-Coherent s _ inv (Move.lock_ticket c q n a b) = client_goes s inv c _ tt refl refl refl refl
  move-Coherent s _ inv (Move.look c q n a) =
      client_goes s inv c _ (cached-Held s inv q) refl refl refl refl
  move-Coherent s _ inv (Move.decide c q n o a) =
      client_goes s inv c _ (after_look-Good siphash s.answers q n o (rw a at (inv.clients_ok c)))
        refl refl refl refl
  move-Coherent s _ inv (Move.hand_over i c w q a b) = record {
    caches_ok = inv.caches_ok;
    workers_ok = workers_go s inv i (WorkerPc.locking w) tt;
    clients_ok = clients_go s inv c _ tt;
  }
  move-Coherent s _ inv (Move.reply i c w n q a b) = record {
    caches_ok = inv.caches_ok;
    workers_ok = workers_go s inv i waiting tt;
    clients_ok = clients_go s inv c _ tt;
  }
  move-Coherent s _ inv (Move.copy t) = record {
    caches_ok = inv.caches_ok;
    workers_ok = inv.workers_ok;
    clients_ok = inv.clients_ok;
  }
  move-Coherent s _ inv (Move.delete t) = record {
    caches_ok =
        delete_keys-Each (Answered siphash s.answers) t (s.snapshot t) s.caches inv.caches_ok;
    workers_ok = inv.workers_ok;
    clients_ok = inv.clients_ok;
  }
