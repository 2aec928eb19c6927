-- ===== src/FastCache/Refresh.antt =====
-- `refreshNode` and the writes that it is made of: none panics, and all keep the entries.
use gocryptsftp.Base.{ℕ, ◌≡◌, ◌∙◌, ap, refl, none, some, Bytes, lookup, Option-cases, inl, inr}
use gocryptsftp.FastCache.{
  Ptr, DirMapping, FastCache, load, set_next, set_prev, unlink, move_to_end, refresh_node,
}
use gocryptsftp.FastCache.Invariant.{
  InMap, Linked, SameEntries, SameEntries-refl, SameEntries-trans, mapping, modify-Linked,
  set-SameEntries,
}

-- After a write that returns: the invariant and the entries are kept, and so are both ends.
abbrev pub Kept : FastCache → FastCache → Type 0
Kept c c' = Linked c' × SameEntries c c' × (c'.last ≡ c.last)

module _ {c : FastCache} (inv : Linked c) where
  pub set_next-Linked :
      (p : ℕ) (q : Ptr)
      → InMap c.storage (some p)
      → InMap c.storage q
      → (c' : FastCache) × (set_next c (some p) q ≡ some c') × Kept c c'
  unfolding set_next
  set_next-Linked p q (k, here) into =
      let (d, at_p, e, linked) =
        modify-Linked inv k p here (λ d. record d { next = q }) (λ d. refl)
          (λ d (n, v). (into, v)) in
      (_, e, (linked, set-SameEntries c p d _ at_p refl refl, refl))

  set_prev-Linked :
      (p : ℕ) (q : Ptr)
      → InMap c.storage (some p)
      → InMap c.storage q
      → (c' : FastCache) × (set_prev c (some p) q ≡ some c') × Kept c c'
  unfolding set_prev
  set_prev-Linked p q (k, here) into =
      let (d, at_p, e, linked) =
        modify-Linked inv k p here (λ d. record d { prev = q }) (λ d. refl)
          (λ d (n, v). (n, into)) in
      (_, e, (linked, set-SameEntries c p d _ at_p refl refl, refl))

  unlink-Linked :
      (v : Ptr) (n : ℕ)
      → InMap c.storage v
      → InMap c.storage (some n)
      → (c' : FastCache) × (unlink c v (some n) ≡ some c') × Kept c c'
  unfolding unlink
  unlink-Linked none n at_v at_n = (
    record c { head = some n },
    refl,
    (
      record {
        stored = inv.stored;
        links = inv.links;
        head_in = at_n;
        last_in = inv.last_in;
        started = λ k p e. ((n, refl), (inv.started k p e).1);
      },
      record {
        storage_eq = refl;
        size_eq = refl;
        count_eq = refl;
        paths = λ p d e. (d, e, refl, refl);
      },
      refl,
    ),
  )
  unlink-Linked (some q) n at_v at_n = set_next-Linked q (some n) at_v at_n

-- The map is the same, so a pointer that was in it still is.
pub keep_in :
    {c c' : FastCache} (q : Ptr) → SameEntries c c' → InMap c.storage q → InMap c'.storage q
keep_in q s h = rw s.storage_eq h

pub with_last :
    {c : FastCache}
    → Linked c
    → (p : ℕ) → InMap c.storage (some p)
    → Linked (record c { last = some p })
with_last inv p into = record {
  stored = inv.stored;
  links = inv.links;
  head_in = inv.head_in;
  last_in = into;
  started = λ k q e. ((inv.started k q e).0, (p, refl));
}

pub set_next_last-Linked :
    {c : FastCache} (inv : Linked c) (p : ℕ)
    → InMap c.storage (some p)
    → (c' : FastCache) × (set_next c c.last (some p) ≡ some c') × Kept c c'
set_next_last-Linked {c} inv p (k, here) =
    let (l, is_l) = (inv.started k p here).1 in
    let at_l : InMap c.storage (some l) = rw is_l at inv.last_in in
    let (c', e, kept) = set_next-Linked inv l (some p) at_l (k, here) in
    (c', ap (λ q. set_next c q (some p)) is_l ∙ e, kept)

-- The outcome of a whole refresh.
abbrev pub Refreshed : FastCache → FastCache → Type 0
Refreshed c c' = Linked c' × SameEntries c c'

move_to_end-Linked :
    {c : FastCache} (inv : Linked c) (p : ℕ) (d : DirMapping) (n : ℕ)
    → d.next ≡ some n
    → InMap c.storage (some p)
    → InMap c.storage d.next
    → InMap c.storage d.prev
    → (c' : FastCache) × (move_to_end c p d ≡ some c') × Refreshed c c'
unfolding move_to_end
move_to_end-Linked inv p d n is_n here at_n at_v =
    let (c₁, e₁, (inv₁, s₁, _)) = unlink-Linked inv d.prev n at_v (rw is_n at at_n) in
    let here₁ = keep_in (some p) s₁ here in
    let (c₂, e₂, (inv₂, s₂, _)) = set_prev-Linked inv₁ p c₁.last here₁ inv₁.last_in in
    let here₂ = keep_in (some p) s₂ here₁ in
    let (c₃, e₃, (inv₃, s₃, _)) = set_next-Linked inv₂ p none here₂ tt in
    let here₃ = keep_in (some p) s₃ here₂ in
    let (c₄, e₄, (inv₄, s₄, _)) = set_next_last-Linked inv₃ p here₃ in
    let s = SameEntries-trans s₁ (SameEntries-trans s₂ (SameEntries-trans s₃ s₄)) in
    (
      record c₄ { last = some p },
      rw (is_n, e₁, e₂, e₃, e₄),
      (
        with_last inv₄ p (keep_in (some p) s₄ here₃),
        record {
          storage_eq = s.storage_eq;
          size_eq = s.size_eq;
          count_eq = s.count_eq;
          paths = s.paths;
        },
      ),
    )

-- `refreshNode` of a node that the map holds never dereferences `nil`, and moves no entry.
pub refresh_node-Linked :
    {c : FastCache} (inv : Linked c) (k : Bytes) (p : ℕ)
    → lookup k c.storage ≡ some p
    → (c' : FastCache) × (refresh_node c p ≡ some c') × Refreshed c c'
unfolding refresh_node load
refresh_node-Linked {c} inv k p here =
    let (d, at_p, _) = inv.stored k p here in
    let (at_n, at_v) = inv.links k p d here at_p in
    elim (Option-cases d.next) [
      | inl end_ ↦ (c, rw (at_p, end_), (inv, SameEntries-refl c))
      | inr (n, is_n) ↦
          let (c', e, r) = move_to_end-Linked inv p d n is_n (k, here) at_n at_v in
          (c', rw at_p (rw is_n e), r)
    ]

-- Entries that are the same answer the same.
pub mapping-SameEntries :
    {c c' : FastCache} → Linked c → SameEntries c c' → (j : Bytes) → mapping c' j ≡ mapping c j
unfolding mapping
mapping-SameEntries {c} {c'} inv s j = elim (Option-cases (lookup j c.storage)) [
  | inl missing ↦ rw (s.storage_eq, missing)
  | inr (p, here) ↦
      let (d, at_p, _) = inv.stored j p here in
      let (d', at_p', _, same) = s.paths p d at_p in rw (s.storage_eq, here, at_p, at_p', same)
]
