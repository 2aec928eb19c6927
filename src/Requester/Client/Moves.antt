-- ===== src/Requester/Client/Moves.antt =====
-- The accesses of a caller outside the loop of its ticket are moves.
use mathlib.Core.Path.{subst}
use gocryptsftp.Base.{
  not, ◌&&◌, ℕ, ◌≡◌, refl, inl, inr, true, some, arith, Bytes, ◌==◌, ltb, Bool-cases, some_inj,
  length, not,
}
use gocryptsftp.Requester.Defs.{
  WorkType, work_none, work_read_file, work_read_dir, work_decrypt_name, work_queue_size,
}
use gocryptsftp.Requester.System.{
  WorkerPc, offering, replying, ClientPc, idle, checking, sending, receiving, received, System,
}
use gocryptsftp.Requester.Client.{
  begin_at, begin, check_at, check, recheck_at, recheck, send_at, send, is_closed,
  receive_closed_at, receive_closed, hand_over_at, hand_over, time_out_at, time_out,
}
use gocryptsftp.Requester.Moves.{Move}

-- The test `==` on channels.
chan_eq : (a b : ℕ) → (a == b) ≡ true → a ≡ b
chan_eq a b e = ground arith

module _ (siphash : Bytes → ℕ) (s : System) (c : ℕ) where
  abbrev To : System → Type 0
  To = Move siphash s

  begin_at-Move :
      (t : WorkType) (a b : Bytes) (pc : ClientPc) {s' : System}
      → s.clients c ≡ pc
      → begin_at s c t a b pc ≡ some s'
      → To s'
  unfolding begin_at
  begin_at-Move work_none a b pc at_c e = cc
  begin_at-Move work_read_file a b idle at_c e =
      subst To (some_inj e) (Move.begin c _ at_c ((λ x. cc), refl, refl))
  begin_at-Move work_read_dir a b idle at_c e =
      subst To (some_inj e) (Move.begin c _ at_c ((λ x. cc), refl, refl))
  begin_at-Move work_decrypt_name a b idle at_c e =
      subst To (some_inj e) (Move.begin c _ at_c ((λ x. cc), refl, refl))
  begin_at-Move t a b pc at_c e = cc

  pub begin-Move : (t : WorkType) (a b : Bytes) {s' : System} → begin s c t a b ≡ some s' → To s'
  unfolding begin
  begin-Move t a b e = begin_at-Move t a b (s.clients c) refl e

  check_at-Move :
      (pc : ClientPc) {s' : System} → s.clients c ≡ pc → check_at siphash s c pc ≡ some s' → To s'
  unfolding check_at
  check_at-Move (checking q) at_c e = subst To (some_inj e) (Move.check c q at_c)
  check_at-Move _ at_c e = cc

  pub check-Move : {s' : System} → check siphash s c ≡ some s' → To s'
  unfolding check
  check-Move e = check_at-Move (s.clients c) refl e

  recheck_at-Move :
      (pc : ClientPc) {s' : System} → s.clients c ≡ pc → recheck_at siphash s c pc ≡ some s' → To s'
  unfolding recheck_at
  recheck_at-Move (received q t) at_c e = subst To (some_inj e) (Move.recheck c q t at_c)
  recheck_at-Move _ at_c e = cc

  pub recheck-Move : {s' : System} → recheck siphash s c ≡ some s' → To s'
  unfolding recheck
  recheck-Move e = recheck_at-Move (s.clients c) refl e

  send_at-Move : (pc : ClientPc) {s' : System} → s.clients c ≡ pc → send_at s c pc ≡ some s' → To s'
  unfolding send_at
  send_at-Move (sending q) at_c e =
      elim (Bool-cases (not s.queue_closed && ltb (length s.work_queue) work_queue_size)) [
        | inl t ↦ subst To (some_inj (rw t at e)) (Move.send c q at_c (ground (arith, t)))
        | inr t ↦ ground (arith, t)
      ]
  send_at-Move _ at_c e = cc

  pub send-Move : {s' : System} → send s c ≡ some s' → To s'
  unfolding send
  send-Move e = send_at-Move (s.clients c) refl e

  receive_closed_at-Move :
      (pc : ClientPc) {s' : System} → s.clients c ≡ pc → receive_closed_at s c pc ≡ some s' → To s'
  unfolding receive_closed_at
  receive_closed_at-Move (receiving q ch) at_c e = elim (Bool-cases (is_closed ch s.closed)) [
    | inl t ↦ subst To (some_inj (rw t at e)) (Move.receive_closed c q ch at_c t)
    | inr t ↦ ground (arith, t)
  ]
  receive_closed_at-Move _ at_c e = cc

  pub receive_closed-Move : {s' : System} → receive_closed s c ≡ some s' → To s'
  unfolding receive_closed
  receive_closed-Move e = receive_closed_at-Move (s.clients c) refl e

  time_out_at-Move :
      (pc : ClientPc) {s' : System} → s.clients c ≡ pc → time_out_at s c pc ≡ some s' → To s'
  unfolding time_out_at
  time_out_at-Move (receiving q ch) at_c e = subst To (some_inj e) (Move.time_out c q ch at_c)
  time_out_at-Move _ at_c e = cc

  pub time_out-Move : {s' : System} → time_out s c ≡ some s' → To s'
  unfolding time_out
  time_out-Move e = time_out_at-Move (s.clients c) refl e

  hand_over_at-Move :
      (i : ℕ) (v : WorkerPc) (pc : ClientPc) {s' : System}
      → s.workers i ≡ v
      → s.clients c ≡ pc
      → hand_over_at s i c v pc ≡ some s'
      → To s'
  unfolding hand_over_at
  hand_over_at-Move i (offering w) (receiving q ch) at_i at_c e =
      elim (Bool-cases (w.resp_chan == ch)) [
        | inl t ↦
            subst To (some_inj (rw t at e))
              (Move.hand_over i c w q at_i (rw (chan_eq w.resp_chan ch t) at_c))
        | inr t ↦ ground (arith, t)
      ]
  hand_over_at-Move i (replying w n) (receiving q ch) at_i at_c e =
      elim (Bool-cases (w.resp_chan == ch)) [
        | inl t ↦
            subst To (some_inj (rw t at e))
              (Move.reply i c w n q at_i (rw (chan_eq w.resp_chan ch t) at_c))
        | inr t ↦ ground (arith, t)
      ]
  hand_over_at-Move i _ _ at_i at_c e = cc

  pub hand_over-Move : (i : ℕ) {s' : System} → hand_over s i c ≡ some s' → To s'
  unfolding hand_over
  hand_over-Move i e = hand_over_at-Move i (s.workers i) (s.clients c) refl refl e
