-- ===== src/Requester/Range/Moves.antt =====
-- Every access leaves the numbers of tickets in range.
use mathlib.Core.Path.{subst}
use gocryptsftp.Base.{ℕ, ◌≡◌, refl, ◌∙◌, Bool, true, false, some, List, arith, Bytes}
use gocryptsftp.Requester.System.{
  WorkerPc, waiting, started, offering, replying, requesting, setting, broadcasting, unlocking,
  exited, Request, ClientPc, received, looking, seen, System, update, update-elim, new_requester,
}
use gocryptsftp.Requester.Client.{cached, rechecked, recheck_with}
use gocryptsftp.Requester.Steps.{Action, run, copy_keys, delete_copied}
use gocryptsftp.Requester.Moves.{Move, take, drop, claim, close, pass_on, key_of, claim_entry}
use gocryptsftp.Requester.Moves.Run.{run_keeps}
use gocryptsftp.Requester.Entries.{put-Each, remove-Each, delete_keys-Each, new-Each}
use gocryptsftp.Requester.Wakeup.Points.{reply_entry-WorkOk}
use gocryptsftp.Requester.Range.{WorkerIndexes, ClientIndexes, EntryIndexes, InRange}
use gocryptsftp.Requester.Range.Points.{
  born-WorkerIndexes, wake-ClientIndexes, after_look-ClientIndexes, checked-ClientIndexes,
  rechecked-ClientIndexes,
}

module _ (siphash : Bytes → ℕ) where
  module _ (n : ℕ) (s : System) (inv : InRange n s) where
    open inv use {size, workers_in, clients_in, entries_in}

    at_worker : (i : ℕ) (pc : WorkerPc) → s.workers i ≡ pc → WorkerIndexes n i pc
    at_worker i pc at_i = subst (WorkerIndexes n i) at_i (workers_in i)

    at_client : (c : ℕ) (pc : ClientPc) → s.clients c ≡ pc → ClientIndexes n pc
    at_client c pc at_c = subst (ClientIndexes n) at_c (clients_in c)

    workers_go :
        (i : ℕ) (pc : WorkerPc)
        → WorkerIndexes n i pc
        → (j : ℕ) → WorkerIndexes n j (update s.workers i pc j)
    workers_go i pc new = update-elim (WorkerIndexes n) s.workers i pc new (λ j _. workers_in j)

    clients_go :
        (c : ℕ) (pc : ClientPc)
        → ClientIndexes n pc
        → (d : ℕ) → ClientIndexes n (update s.clients c pc d)
    clients_go c pc new =
        update-elim (λ _. ClientIndexes n) s.clients c pc new (λ d _. clients_in d)

    worker_goes :
        (i : ℕ) (pc : WorkerPc) {s' : System}
        → WorkerIndexes n i pc
        → s'.workers ≡ update s.workers i pc
        → s'.num_workers ≡ s.num_workers
        → s'.clients ≡ s.clients
        → s'.caches ≡ s.caches
        → InRange n s'
    worker_goes i pc new ws k cs m = record {
      size = k ∙ size;
      workers_in = rw ws (workers_go i pc new);
      clients_in = rw cs clients_in;
      entries_in = rw m entries_in;
    }

    client_goes :
        (c : ℕ) (pc : ClientPc) {s' : System}
        → ClientIndexes n pc
        → s'.clients ≡ update s.clients c pc
        → s'.num_workers ≡ s.num_workers
        → s'.workers ≡ s.workers
        → s'.caches ≡ s.caches
        → InRange n s'
    client_goes c pc new cs k ws m = record {
      size = k ∙ size;
      workers_in = rw ws workers_in;
      clients_in = rw cs (clients_go c pc new);
      entries_in = rw m entries_in;
    }

    recheck_goes :
        (c : ℕ) (q : Request) (r : ClientPc × Bool)
        → ClientIndexes n r.0
        → InRange n (recheck_with siphash s c q r)
    unfolding recheck_with
    recheck_goes c q (pc, false) new = client_goes c pc new refl refl refl refl
    recheck_goes c q (pc, true) new = record {
      size = size;
      workers_in = workers_in;
      clients_in = clients_go c pc new;
      entries_in = remove-Each _ q.kind _ s.caches entries_in;
    }

  move-InRange : (n : ℕ) (s s' : System) → InRange n s → Move siphash s s' → InRange n s'
  unfolding copy_keys delete_copied
  move-InRange n s _ inv (take i w rest a b) =
      worker_goes n s inv i (started w) (at_worker n s inv i waiting a) refl refl refl refl
  move-InRange n s _ inv (Move.exit i a b) =
      worker_goes n s inv i exited (at_worker n s inv i waiting a) refl refl refl refl
  move-InRange n s _ inv (drop i w a) =
      worker_goes n s inv i waiting (at_worker n s inv i (started w) a) refl refl refl refl
  move-InRange n s _ inv (claim i w a b d) = record {
    size = inv.size;
    workers_in = workers_go n s inv i (offering w) (at_worker n s inv i (started w) a);
    clients_in = inv.clients_in;
    entries_in =
        put-Each _ w.request_type (key_of siphash w) (claim_entry i) s.caches
          (at_worker n s inv i (started w) a) (λ u j e _. inv.entries_in u j e);
  }
  move-InRange n s _ inv (close i w e a b d) =
      worker_goes n s inv i waiting (at_worker n s inv i (started w) a) refl refl refl refl
  move-InRange n s _ inv (pass_on i w e a b d) =
      worker_goes n s inv i (replying w e.locker_num)
        (at_worker n s inv i (started w) a, inv.entries_in w.request_type (key_of siphash w) e b)
        refl refl refl refl
  move-InRange n s _ inv (Move.lock i w a b) =
      worker_goes n s inv i (requesting w) (at_worker n s inv i (WorkerPc.locking w) a) refl refl
        refl refl
  move-InRange n s _ inv (Move.request i w r e a b) =
      worker_goes n s inv i (setting w e)
        (at_worker n s inv i (requesting w) a, reply_entry-WorkOk w.request_type r e b) refl refl
        refl refl
  move-InRange n s _ inv (Move.set i w e a) =
      let (mine, none_stored) = at_worker n s inv i (setting w e) a in
      record {
        size = inv.size;
        workers_in = workers_go n s inv i broadcasting mine;
        clients_in = inv.clients_in;
        entries_in =
            put-Each _ w.request_type (key_of siphash w) e s.caches (omega (arith, none_stored))
              (λ u j x _. inv.entries_in u j x);
      }
  move-InRange n s _ inv (Move.broadcast i a) = record {
    size = inv.size;
    workers_in = workers_go n s inv i unlocking (at_worker n s inv i broadcasting a);
    clients_in = λ c. wake-ClientIndexes n i (s.clients c) (inv.clients_in c);
    entries_in = inv.entries_in;
  }
  move-InRange n s _ inv (Move.unlock i a) =
      worker_goes n s inv i waiting (at_worker n s inv i unlocking a) refl refl refl refl
  move-InRange n s _ inv (Move.begin c q a b) = client_goes n s inv c _ tt refl refl refl refl
  move-InRange n s _ inv (Move.check c q a) =
      client_goes n s inv c _ (checked-ClientIndexes siphash n q (cached siphash s q)) refl refl
        refl refl
  move-InRange n s _ inv (Move.send c q a b) = client_goes n s inv c _ tt refl refl refl refl
  move-InRange n s _ inv (Move.receive_closed c q ch a b) =
      client_goes n s inv c _ tt refl refl refl refl
  move-InRange n s _ inv (Move.recheck c q t a) =
      recheck_goes n s inv c q (rechecked siphash q t (cached siphash s q)) (
        rechecked-ClientIndexes siphash n q t (cached siphash s q)
          (at_client n s inv c (received q t) a))
  move-InRange n s _ inv (Move.time_out c q ch a) = client_goes n s inv c _ tt refl refl refl refl
  move-InRange n s _ inv (Move.lock_ticket c q m a b) =
      client_goes n s inv c _ (at_client n s inv c (ClientPc.locking q m) a) refl refl refl refl
  move-InRange n s _ inv (Move.look c q m a) =
      client_goes n s inv c _ (at_client n s inv c (looking q m) a) refl refl refl refl
  move-InRange n s _ inv (Move.decide c q m o a) =
      client_goes n s inv c _
        (after_look-ClientIndexes n q m o (at_client n s inv c (seen q m o) a)) refl refl refl refl
  move-InRange n s _ inv (Move.hand_over i c w q a b) = record {
    size = inv.size;
    workers_in = workers_go n s inv i (WorkerPc.locking w) (at_worker n s inv i (offering w) a);
    clients_in = clients_go n s inv c (received q (some i)) (at_worker n s inv i (offering w) a);
    entries_in = inv.entries_in;
  }
  move-InRange n s _ inv (Move.reply i c w m q a b) = record {
    size = inv.size;
    workers_in = workers_go n s inv i waiting (at_worker n s inv i (replying w m) a).0;
    clients_in =
        clients_go n s inv c (received q (some m)) (at_worker n s inv i (replying w m) a).1;
    entries_in = inv.entries_in;
  }
  move-InRange n s _ inv (Move.start a) = record {
    size = inv.size;
    workers_in = λ i. rw inv.size (born-WorkerIndexes n i (s.workers i) (inv.workers_in i));
    clients_in = inv.clients_in;
    entries_in = inv.entries_in;
  }
  move-InRange n s _ inv Move.stop = record {
    size = inv.size;
    workers_in = inv.workers_in;
    clients_in = inv.clients_in;
    entries_in = inv.entries_in;
  }
  move-InRange n s _ inv (Move.copy t) = record {
    size = inv.size;
    workers_in = inv.workers_in;
    clients_in = inv.clients_in;
    entries_in = inv.entries_in;
  }
  move-InRange n s _ inv (Move.delete t) = record {
    size = inv.size;
    workers_in = inv.workers_in;
    clients_in = inv.clients_in;
    entries_in = delete_keys-Each _ t (s.snapshot t) s.caches inv.entries_in;
  }

  new-InRange : (num_workers : ℕ) → InRange num_workers (new_requester num_workers)
  unfolding new_requester
  new-InRange n = record {
    size = refl;
    workers_in = λ i. tt;
    clients_in = λ c. tt;
    entries_in = new-Each n (EntryIndexes n);
  }

  -- In every state that a new requester can reach, each number with which a worker or a caller takes a
  -- ticket out of `lockers`, its own or that of a cache entry, is below the slice's length, which is one
  -- more than the number of workers that the requester was made with.
  pub tickets-InRange :
      (num_workers : ℕ) (as' : List Action) {s : System}
      → run siphash as' (new_requester num_workers) ≡ some s
      → InRange num_workers s
  tickets-InRange n as' e = run_keeps siphash (InRange n) (move-InRange n) as' (new-InRange n) e
