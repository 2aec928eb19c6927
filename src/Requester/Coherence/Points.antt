-- ===== src/Requester/Coherence/Points.antt =====
-- What is coherent at the points that a caller or a worker goes on to.
use gocryptsftp.Base.{ℕ, ◌≡◌, inr, Option, some, List, [], ◌∷◌, arith, Bytes}
use gocryptsftp.Requester.Moves.Cases.{
  retry_cases, settled_cases, after_look_cases, wake_cases, checked_cases, rechecked_cases,
}
use gocryptsftp.Requester.Defs.{
  Payload, Entry, WorkType, work_read_file, work_read_dir, work_decrypt_name,
}
use gocryptsftp.Requester.System.{
  Reply, file_reply, dir_reply, name_reply, reply_entry, WorkerPc, setting, RetryErr, Request,
  ClientPc, seen, done, ok, Answer,
}
use gocryptsftp.Requester.Worker.{wake}
use gocryptsftp.Requester.Client.{retry, checked, rechecked}
use gocryptsftp.Requester.Ticket.{settled, after_look}
use gocryptsftp.Requester.Coherence.{Fits, WorkerOk, ClientOk}

-- A reply has the type of its request.
pub reply_entry-Fits :
    (t : WorkType) (r : Reply) (e : Entry) (p : Payload)
    → reply_entry t r ≡ some e
    → e.payload ≡ some p
    → Fits t p
unfolding reply_entry
reply_entry-Fits work_read_file (file_reply [] x) e p q has = ground arith
reply_entry-Fits work_read_file (file_reply (b ∷ bs) x) e p q has = ground arith
reply_entry-Fits work_read_dir (dir_reply [] x) e p q has = ground arith
reply_entry-Fits work_read_dir (dir_reply (b ∷ bs) x) e p q has = ground arith
reply_entry-Fits work_decrypt_name (name_reply [] x) e p q has = ground arith
reply_entry-Fits work_decrypt_name (name_reply (b ∷ bs) x) e p q has = ground arith
reply_entry-Fits t r e p q has = cc

module _ (siphash : Bytes → ℕ) (log : List Answer) where
  abbrev Good : ClientPc → Type 0
  Good = ClientOk siphash log

  abbrev pub Held : Request → Option Entry → Type 0
  Held q o = Good (seen q 0 o)

  retry-Good : (q : Request) (e : RetryErr) → Good (retry q e)
  retry-Good q e = retry_cases Good q e (λ t. tt) (λ t. tt)

  pub checked-Good : (q : Request) (o : Option Entry) → Held q o → Good (checked siphash q o)
  checked-Good q o h = checked_cases Good siphash q o tt (λ e p a b. h e a p b)

  pub rechecked-Good :
      (q : Request) (t : Option ℕ) (o : Option Entry) → Held q o → Good (rechecked siphash q t o).0
  rechecked-Good q t o h =
      rechecked_cases Good siphash q t o (retry-Good q) (λ n a. tt) (λ e p a b. h e a p b)

  settled-Good : (q : Request) (o : Option Entry) → Held q o → Good (settled q o)
  settled-Good q o h = settled_cases Good q o (retry-Good q) (λ x. tt) (λ e p a b. h e a p b)

  pub after_look-Good :
      (q : Request) (n : ℕ) (o : Option Entry) → Held q o → Good (after_look q n o)
  after_look-Good q n o h = after_look_cases Good q n o (settled-Good q o h) (λ t. tt)

  pub wake-Good : (i : ℕ) (pc : ClientPc) → Good pc → Good (wake i pc)
  wake-Good i pc h = wake_cases Good i pc h (λ q a. tt)

  -- The log only grows.
  pub grow-WorkerOk :
      (a : Answer) (pc : WorkerPc) → WorkerOk siphash log pc → WorkerOk siphash (a ∷ log) pc
  grow-WorkerOk a (setting w x) h = λ p has. inr (h p has)
  grow-WorkerOk a _ h = tt

  pub grow-ClientOk : (a : Answer) (pc : ClientPc) → Good pc → ClientOk siphash (a ∷ log) pc
  grow-ClientOk a (done q (ok p)) h = inr h
  grow-ClientOk a (seen q n o) h = λ e at_q p has. inr (h e at_q p has)
  grow-ClientOk a _ h = tt
