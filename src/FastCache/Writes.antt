-- ===== src/FastCache/Writes.antt =====
-- The writes of `Store` that change the map: a new ciphertext path for a node, a node renamed to
-- another path, and a node allocated at the end.
use gocryptsftp.Base.{
  ℕ, ◌≡◌, ◌≢◌, ◌⊎◌, true, false, none, some, List, arith, get_elem?, set, Bytes, bytes_eq,
  bytes_eq_iff, if◌then◌else◌, bytes_eq-false, lookup, insert, delete, lookup-insert, lookup-delete,
  get_elem?-set_self, get_elem?-set_ne, Option-cases, inl, inr, Bytes-cases, bytes_eq_refl,
}
use gocryptsftp.FastCache.{Ptr, DirMapping, FastCache}
use gocryptsftp.FastCache.Invariant.{InMap, Linked, mapping, path_unique}

-- A new ciphertext path for the node of `k` changes the answer for `k` alone.
pub mapping-write :
    {c : FastCache} (inv : Linked c) (k : Bytes) (p : ℕ) (d : DirMapping) (v : Bytes)
    → lookup k c.storage ≡ some p
    → get_elem? c.nodes p ≡ some d
    → let c' = record c { nodes = set c.nodes p (record d { ciphertext_path = v }) } in
      (mapping c' k ≡ some v) × ((j : Bytes) → j ≢ k → mapping c' j ≡ mapping c j)
unfolding mapping
mapping-write {c} inv k p d v here at_p = (
  rw (here, get_elem?-set_self c.nodes p _ d at_p),
  λ j ne. elim (Option-cases (lookup j c.storage)) [
    | inl missing ↦ rw missing
    | inr (q, at_j) ↦
        let other : p ≢ q = λ e. ne (path_unique inv j k p (rw (← e) at at_j) here) in
        rw (at_j, get_elem?-set_ne c.nodes p q _ other)
  ],
)

-- The map after the node of `old` has been given to `k`.
abbrev pub renamed : List (Bytes × ℕ) → Bytes → Bytes → ℕ → List (Bytes × ℕ)
renamed m old k p = insert k p (delete old m)

lookup-renamed :
    (m : List (Bytes × ℕ)) (old k j : Bytes) (p : ℕ)
    → lookup j (renamed m old k p)
      ≡ (if bytes_eq k j then some p else (if bytes_eq old j then none else lookup j m))
lookup-renamed m old k j p = rw (lookup-insert k j p (delete old m), lookup-delete old j m)

module _ {c : FastCache} (inv : Linked c) (old k : Bytes) (p : ℕ) (d : DirMapping) (v : Bytes)
    (here : lookup old c.storage ≡ some p) (at_p : get_elem? c.nodes p ≡ some d)
    (fresh : lookup k c.storage ≡ none) where
  abbrev given : DirMapping
  given = record d { plaintext_path = k; ciphertext_path = v }

  abbrev after : ℕ → FastCache
  after n = record c { count = n; storage = renamed c.storage old k p; nodes = set c.nodes p given }

  -- Who is in the map afterwards: the new path, at the reused node, or an old one.
  renamed-cases :
      (j : Bytes) (q : ℕ)
      → lookup j (renamed c.storage old k p) ≡ some q
      → ((j ≡ k) × (q ≡ p)) ⊎ ((lookup j c.storage ≡ some q) × (p ≢ q))
  renamed-cases j q e = elim (Bytes-cases k j) [
    | inl same ↦
        inl (
          ground (arith, same),
          ground (arith, lookup-renamed c.storage old k j p, bytes_eq_iff k j),
        )
    | inr other ↦
        let e' : (if bytes_eq old j then none else lookup j c.storage) ≡ some q =
          ground (arith, lookup-renamed c.storage old k j p, bytes_eq_iff k j) in
        elim (Bytes-cases old j) [
          | inl same ↦ absurd (ground (arith, bytes_eq_iff old j))
          | inr ne ↦
              let kept : lookup j c.storage ≡ some q = ground (arith, bytes_eq_iff old j) in
              inr (kept, λ s. ne (path_unique inv old j p here (rw (← s) at kept)))
        ]
  ]

  renamed-InMap : (x : Ptr) → InMap c.storage x → InMap (renamed c.storage old k p) x
  renamed-InMap none h = tt
  renamed-InMap (some q) (j, e) = elim (Bytes-cases old j) [
    | inl same ↦ (k, ground (arith, lookup-renamed c.storage old k k p, bytes_eq_refl k))
    | inr ne ↦ (
      j,
      ground
          (arith, lookup-renamed c.storage old k j p, bytes_eq_iff old j, bytes_eq_iff k j, fresh),
    )
  ]

  pub renamed-Linked : (n : ℕ) → Linked (after n)
  renamed-Linked n = record {
    stored = λ j q e. elim (renamed-cases j q e) [
      | inl (is_k, is_p) ↦
          (given, ground (arith, get_elem?-set_self c.nodes p given d at_p), ground arith)
      | inr (was, ne) ↦
          let (u, at_q, path) = inv.stored j q was in
          (u, ground (arith, get_elem?-set_ne c.nodes p q given ne), path)
    ];
    links = λ j q u e at_q. elim (renamed-cases j q e) [
      | inl (is_k, is_p) ↦
          let is_u : u ≡ given = ground (arith, get_elem?-set_self c.nodes p given d at_p) in
          let (n', v') = inv.links old p d here at_p in
          rw is_u (renamed-InMap d.next n', renamed-InMap d.prev v')
      | inr (was, ne) ↦
          let at_q' : get_elem? c.nodes q ≡ some u =
            ground (arith, get_elem?-set_ne c.nodes p q given ne) in
          let (n', v') = inv.links j q u was at_q' in
          (renamed-InMap u.next n', renamed-InMap u.prev v')
    ];
    head_in = renamed-InMap c.head inv.head_in;
    last_in = renamed-InMap c.last inv.last_in;
    started = λ _ _ _. inv.started old p here;
  }

  -- The new path answers, the old one does not, and every other answers as before.
  pub mapping-renamed :
      (n : ℕ) (j : Bytes)
      → mapping (after n) j
        ≡ (if bytes_eq k j then some v else (if bytes_eq old j then none else mapping c j))
  unfolding mapping
  mapping-renamed n j = elim (Bytes-cases k j) [
    | inl same ↦
        let t : bytes_eq k j ≡ true = ground (arith, bytes_eq_iff k j) in
        rw (lookup-renamed c.storage old k j p, t, get_elem?-set_self c.nodes p given d at_p)
    | inr ne_k ↦
        let t : bytes_eq k j ≡ false = bytes_eq-false k j ne_k in
        elim (Bytes-cases old j) [
          | inl same ↦
              let t' : bytes_eq old j ≡ true = ground (arith, bytes_eq_iff old j) in
              rw (lookup-renamed c.storage old k j p, t, t')
          | inr ne ↦
              let t' : bytes_eq old j ≡ false = bytes_eq-false old j ne in
              rw (lookup-renamed c.storage old k j p, t, t')
                (elim (Option-cases (lookup j c.storage)) [
                  | inl missing ↦ rw missing
                  | inr (q, at_j) ↦
                      let other : p ≢ q =
                        λ s. ne (path_unique inv old j p here (rw (← s) at at_j)) in
                      rw (at_j, get_elem?-set_ne c.nodes p q given other)
                ])
        ]
  ]
