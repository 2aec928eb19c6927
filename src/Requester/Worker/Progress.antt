-- ===== src/Requester/Worker/Progress.antt =====
-- Where a worker stands, its next access can be made.
use gocryptsftp.Base.{ℕ, ◌≡◌, ◌≢◌, refl, none, some, ◌∷◌, [], Bytes}
use gocryptsftp.Requester.Defs.{
  Entry, WorkType, work_none, work_read_file, work_read_dir, work_decrypt_name, Work,
}
use gocryptsftp.Requester.System.{
  Reply, file_reply, dir_reply, name_reply, reply_entry, WorkerPc, waiting, requesting, setting,
  broadcasting, unlocking, by_worker, System, update,
}
use gocryptsftp.Requester.Worker.{
  set_worker, set_at, set_entry, lock_at, lock, request_at, request, wake, broadcast_at, broadcast,
  unlock_at, unlock,
}
use gocryptsftp.Requester.Moves.{store}

-- The environment has an answer to every request.
pub reply_to :
    (t : WorkType) → t ≢ work_none → (r : Reply) × (e : Entry) × (reply_entry t r ≡ some e)
unfolding reply_entry
reply_to work_none h = absurd (h refl)
reply_to work_read_file h = (file_reply [] none, _, refl)
reply_to work_read_dir h = (dir_reply [] none, _, refl)
reply_to work_decrypt_name h = (name_reply [] none, _, refl)

module _ (s : System) (i : ℕ) where
  pub lock_ready :
      (w : Work)
      → s.workers i ≡ WorkerPc.locking w
      → s.lockers i ≡ none
      → lock s i
        ≡ some (record s {
          lockers = update s.lockers i (some (by_worker i));
          workers = update s.workers i (requesting w);
        })
  unfolding lock lock_at
  lock_ready w a b = rw (a, b) refl

  pub request_ready :
      (w : Work) (r : Reply) (e : Entry)
      → s.workers i ≡ requesting w
      → reply_entry w.request_type r ≡ some e
      → request s i r
        ≡ some (record s {
          answers = record { work = w; entry = e } ∷ s.answers;
          workers = update s.workers i (setting w e);
        })
  unfolding request request_at
  request_ready w r e a b = rw (a, request_at, b) refl

  pub set_ready :
      (siphash : Bytes → ℕ) (w : Work) (e : Entry)
      → s.workers i ≡ setting w e
      → set_entry siphash s i ≡ some (set_worker (store siphash s w e) i broadcasting)
  unfolding set_entry set_at
  set_ready siphash w e a = rw a refl

  pub broadcast_ready :
      s.workers i ≡ broadcasting
      → broadcast s i
        ≡ some (record s {
          clients = λ c. wake i (s.clients c);
          workers = update s.workers i unlocking;
        })
  unfolding broadcast broadcast_at
  broadcast_ready a = rw a refl

  pub unlock_ready :
      s.workers i ≡ unlocking
      → unlock s i
        ≡ some
            (record s { lockers = update s.lockers i none; workers = update s.workers i waiting })
  unfolding unlock unlock_at
  unlock_ready a = rw a refl
