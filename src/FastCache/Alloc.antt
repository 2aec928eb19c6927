-- ===== src/FastCache/Alloc.antt =====
-- The node that `Store` allocates, before the last node is linked to it.
use gocryptsftp.Base.{
  ℕ, ◌≡◌, ◌⊎◌, true, none, some, [], ◌∷◌, ◌++◌, arith, length, Bytes, bytes_eq, bytes_eq_iff,
  if◌then◌else◌, lookup, insert, lookup-insert, get_elem?-append, get_elem?-append_end,
  Option-cases, inl, inr, Bytes-cases, bytes_eq_refl, bytes_eq-false,
}
use gocryptsftp.FastCache.{Ptr, DirMapping, FastCache}
use gocryptsftp.FastCache.Invariant.{InMap, Linked, mapping}

-- The node and the cache that holds it, with a count, a head and a last node of any value.
abbrev pub new_node : Bytes → Bytes → Ptr → DirMapping
new_node k v prev = record { plaintext_path = k; ciphertext_path = v; prev = prev; next = none }

module _ {c : FastCache} (inv : Linked c) (k v : Bytes) (fresh : lookup k c.storage ≡ none) where
  abbrev pub allocated : ℕ → Ptr → Ptr → Ptr → FastCache
  allocated n prev head last = record c {
    count = n;
    storage = insert k (length c.nodes) c.storage;
    head = head;
    last = last;
    nodes = c.nodes ++ (new_node k v prev ∷ []);
  }

  allocated-cases :
      (j : Bytes) (q : ℕ)
      → lookup j (insert k (length c.nodes) c.storage) ≡ some q
      → ((j ≡ k) × (q ≡ length c.nodes)) ⊎ (lookup j c.storage ≡ some q)
  allocated-cases j q e = elim (Bytes-cases k j) [
    | inl same ↦ inl (
      ground (arith, same),
      ground (arith, lookup-insert k j (length c.nodes) c.storage, bytes_eq_iff k j),
    )
    | inr other ↦
        inr (ground (arith, lookup-insert k j (length c.nodes) c.storage, bytes_eq_iff k j))
  ]

  pub allocated-InMap :
      (x : Ptr) → InMap c.storage x → InMap (insert k (length c.nodes) c.storage) x
  allocated-InMap none h = tt
  allocated-InMap (some q) (j, e) =
      (j, ground (arith, lookup-insert k j (length c.nodes) c.storage, bytes_eq_iff k j, fresh))

  pub at_new : InMap (insert k (length c.nodes) c.storage) (some (length c.nodes))
  at_new = (k, ground (arith, lookup-insert k k (length c.nodes) c.storage, bytes_eq_refl k))

  pub allocated-Linked :
      (n : ℕ) (prev head last : Ptr) (h l : ℕ)
      → InMap c.storage prev
      → InMap (insert k (length c.nodes) c.storage) head
      → InMap (insert k (length c.nodes) c.storage) last
      → head ≡ some h
      → last ≡ some l
      → Linked (allocated n prev head last)
  allocated-Linked n prev head last h l at_prev at_head at_last is_h is_l = record {
    stored = λ j q e. elim (allocated-cases j q e) [
      | inl (is_k, is_q) ↦ (
        new_node k v prev,
        ground (arith, get_elem?-append_end c.nodes (new_node k v prev)),
        ground arith,
      )
      | inr was ↦
          let (u, at_q, path) = inv.stored j q was in (u, get_elem?-append c.nodes _ q u at_q, path)
    ];
    links = λ j q u e at_q. elim (allocated-cases j q e) [
      | inl (is_k, is_q) ↦
          let is_u : u ≡ new_node k v prev =
            ground (arith, get_elem?-append_end c.nodes (new_node k v prev)) in
          rw is_u (tt, allocated-InMap prev at_prev)
      | inr was ↦
          let (w, at_w, _) = inv.stored j q was in
          let is_u : u ≡ w =
            ground (arith, get_elem?-append c.nodes (new_node k v prev ∷ []) q w at_w) in
          let (n', v') = inv.links j q w was at_w in
          rw is_u (allocated-InMap w.next n', allocated-InMap w.prev v')
    ];
    head_in = at_head;
    last_in = at_last;
    started = λ _ _ _. ((h, is_h), (l, is_l));
  }

  -- The new path answers, and every other as before.
  pub mapping-allocated :
      (n : ℕ) (prev head last : Ptr) (j : Bytes)
      → mapping (allocated n prev head last) j ≡ (if bytes_eq k j then some v else mapping c j)
  unfolding mapping
  mapping-allocated n prev head last j = elim (Bytes-cases k j) [
    | inl same ↦
        let t : bytes_eq k j ≡ true = ground (arith, bytes_eq_iff k j) in
        rw (
          lookup-insert k j (length c.nodes) c.storage,
          t,
          get_elem?-append_end c.nodes (new_node k v prev),
        )
    | inr ne ↦
        rw (lookup-insert k j (length c.nodes) c.storage, bytes_eq-false k j ne)
          (elim (Option-cases (lookup j c.storage)) [
            | inl missing ↦ rw missing
            | inr (q, at_j) ↦
                let (w, at_w, _) = inv.stored j q at_j in
                rw (at_j, at_w, get_elem?-append c.nodes (new_node k v prev ∷ []) q w at_w)
          ])
  ]
