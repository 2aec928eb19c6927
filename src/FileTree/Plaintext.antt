-- ===== src/FileTree/Plaintext.antt =====
-- filetree/decrypt.go: what the plaintext of an encrypted file is, and which files cannot be read
-- without a panic, both without reference to the functions that compute it.
use gocryptsftp.Base.{
  ℕ, zero, suc, ◌-◌, ◌<◌, ◌≤◌, ◌≡◌, ◌≢◌, ◌⊎◌, ap, sym, ◌∙◌, refl, inl, inr, Bool, true, false,
  Option, none, some, List, [], ◌∷◌, ◌++◌, arith, Bytes, Bool-cases, leb, length, take, drop,
  replicate, if◌then◌else◌,
}
use mathlib.Core.Path.{subst}
use gocryptsftp.FileTree.Defs.{
  Answer, gives, fails, ContentEnc, Error, eof, Answer-cases, remote_error,
}
use gocryptsftp.FileTree.Calls.{
  header_len, Decrypted, plain, failed, crashed, copy_into, read_file_id, decrypt_from,
  decrypt_file, with_plaintext,
}

take-zeros : (k m : ℕ) → k ≤ m → take {A = ℕ} k (replicate m 0) ≡ replicate k 0
take-zeros zero m h = refl
take-zeros (suc k) zero h = absurd (omega (arith, h))
take-zeros (suc k) (suc m) h = ap (◌∷◌ 0) (take-zeros k m (omega (arith, h)))

-- The copy is cut or padded with zeros to its length.
copy_into_padded : (n m : ℕ) (b : Bytes) → n ≤ m → copy_into n b ≡ take n (b ++ replicate m 0)
unfolding copy_into
copy_into_padded zero m b h = refl
copy_into_padded (suc n) m [] h =
    let all : suc n - 0 ≡ suc n = omega arith in
    ap (λ k. replicate k 0) all ∙ sym (take-zeros (suc n) m h)
copy_into_padded (suc n) m (x ∷ b) h =
    let less : suc n - suc (length (take n b)) ≡ n - length (take n b) = omega arith in
    ap (λ k. x ∷ (take n b ++ replicate k 0)) less
    ∙ ap (◌∷◌ x) (copy_into_padded n m b (omega (arith, h)))

module _ (e : ContentEnc) (big : Bytes → Bool) where
  -- The size of the plaintext, and the blocks that make it up.
  abbrev pub text_size : Bytes → ℕ
  text_size f = e.cipher_size_to_plain_size (length f)

  abbrev pub blocks_of : Bytes → List e.Block
  blocks_of f = e.explode_plain_range 0 (text_size f)

  -- The file is longer than a header of 18 bytes, and its header has this id.
  pub record HasId (f id : Bytes) : Type 0 where
    pub longer : 18 < length f
    pub parsed : e.parse_header (take 18 f) ≡ gives id

  -- What the blocks open to, as a text of the plaintext's size, except that a buffer that is too big
  -- to be used again is handed out as it is.
  abbrev pub Fitted : Bytes → Bytes → Bytes → Type 0
  Fitted f got text =
      ((big got ≡ true) × (text ≡ got))
      ⊎ ((big got ≡ false) × (text ≡ take (text_size f) (got ++ replicate (text_size f) 0)))

  -- The plaintext of a file.
  pub record Opens (f text : Bytes) : Type 0 where
    pub id : Bytes
    pub has_id : HasId f id
    pub first : e.Block
    pub others : List e.Block
    pub blocks : blocks_of f ≡ first ∷ others
    pub inside : e.joint_ciphertext_offset (first ∷ others) ≤ length f
    pub got : Bytes
    pub opened :
        e.decrypt_blocks (drop (e.joint_ciphertext_offset (first ∷ others)) f) (e.block_no first) id
        ≡ some (gives got)
    pub fitted : Fitted f got text

  -- The blocks begin behind the end of the file, or the package contentenc panics over them.
  abbrev pub BlocksFail : Bytes → Bytes → e.Block → List e.Block → Type 0
  BlocksFail f id first others =
      (length f < e.joint_ciphertext_offset (first ∷ others))
      ⊎ (e.decrypt_blocks (drop (e.joint_ciphertext_offset (first ∷ others)) f) (e.block_no first)
            id
          ≡ none)

  -- A file that has a header but no blocks, or whose blocks fail.
  pub record Crashes (f : Bytes) : Type 0 where
    pub id : Bytes
    pub has_id : HasId f id
    pub why :
        (blocks_of f ≡ [])
        ⊎ ((first : e.Block) × (others : List e.Block) × (blocks_of f ≡ first ∷ others)
            × BlocksFail f id first others)

  -- The file has no plaintext, and reading it does not crash.
  abbrev pub CannotOpen : Bytes → Type 0
  CannotOpen f = ((text : Bytes) → Opens f text → ⊥) × (Crashes f → ⊥)

  pub Opens-decrypt_file : (f text : Bytes) → Opens f text → decrypt_file e big f ≡ plain text
  unfolding decrypt_file read_file_id decrypt_from
  Opens-decrypt_file f text o = elim o.fitted [
    | inl (b, t) ↦
        ground (arith, o.has_id.longer, o.has_id.parsed, o.blocks, o.inside, o.opened, b, t)
    | inr (b, t) ↦ ground (
      arith,
      o.has_id.longer,
      o.has_id.parsed,
      o.blocks,
      o.inside,
      o.opened,
      b,
      t,
      copy_into_padded (text_size f) (text_size f) o.got (omega arith),
    )
  ]

  pub Crashes-decrypt_file : (f : Bytes) → Crashes f → decrypt_file e big f ≡ crashed
  unfolding decrypt_file read_file_id decrypt_from
  Crashes-decrypt_file f c = elim c.why [
    | inl no_blocks ↦ ground (arith, c.has_id.longer, c.has_id.parsed, no_blocks)
    | inr (first, others, blocks, inl out) ↦
        ground (arith, c.has_id.longer, c.has_id.parsed, blocks, out)
    | inr (first, others, blocks, inr none_back) ↦
        elim (Bool-cases (leb (e.joint_ciphertext_offset (first ∷ others)) (length f))) [
          | inl i ↦ ground (arith, c.has_id.longer, c.has_id.parsed, blocks, none_back, i)
          | inr i ↦ ground (arith, c.has_id.longer, c.has_id.parsed, blocks, i)
        ]
  ]

  -- What the outcome says of the file.
  abbrev pub Means : Bytes → Decrypted → Type 0
  Means f (plain text) = Opens f text
  Means f (failed x) = CannotOpen f
  Means f crashed = Crashes f

  cannot_open : (f : Bytes) (x : Error) → decrypt_file e big f ≡ failed x → CannotOpen f
  cannot_open f x h = (
    λ text o. let p = Opens-decrypt_file f text o in ground (arith, h, p),
    λ c. let p = Crashes-decrypt_file f c in ground (arith, h, p),
  )

  copy_into-Fitted :
      (f got : Bytes) → Fitted f got (if big got then got else copy_into (text_size f) got)
  copy_into-Fitted f got = elim (Bool-cases (big got)) [
    | inl b ↦ inl (b, rw b refl)
    | inr b ↦ inr (b, rw b (copy_into_padded (text_size f) (text_size f) got (omega arith)))
  ]

  -- Behind the header there is a run over the blocks, unless the call fails.
  runs_blocks :
      (f : Bytes) (d : Decrypted)
      → decrypt_file e big f ≡ d
      → ((x : Error) → d ≢ failed x)
      → (id : Bytes) × HasId f id × (decrypt_from e big f (text_size f) id (blocks_of f) ≡ d)
  unfolding decrypt_file read_file_id
  runs_blocks f d h no_fail = elim (Bool-cases (leb (length f) header_len)) [
    | inl short ↦ absurd (no_fail eof (ground (arith, short, h)))
    | inr long ↦ elim (Answer-cases (e.parse_header (take header_len f))) [
      | inl (c, p) ↦ absurd (no_fail (remote_error c) (ground (arith, long, p, h)))
      | inr (id, p) ↦
          (id, record { longer = ground (arith, long); parsed = p }, ground (arith, long, p, h))
    ]
  ]

  module _ (f id : Bytes) (has_id : HasId f id) (first : e.Block) (others : List e.Block)
      (blocks : blocks_of f ≡ first ∷ others) where
    abbrev answer_of_blocks : Option (Answer Bytes)
    answer_of_blocks =
        e.decrypt_blocks (drop (e.joint_ciphertext_offset (first ∷ others)) f) (e.block_no first) id

    with_plaintext-Means :
        e.joint_ciphertext_offset (first ∷ others) ≤ length f
        → (x : Option (Answer Bytes)) → answer_of_blocks ≡ x
        → decrypt_file e big f ≡ with_plaintext e big (text_size f) x
        → Means f (with_plaintext e big (text_size f) x)
    with_plaintext-Means inside none q h = record {
      id = id;
      has_id = has_id;
      why = inr (first, others, blocks, inr q);
    }
    with_plaintext-Means inside (some (fails c)) q h = cannot_open f (remote_error c) h
    with_plaintext-Means inside (some (gives t)) q h = record {
      id = id;
      has_id = has_id;
      first = first;
      others = others;
      blocks = blocks;
      inside = inside;
      got = t;
      opened = q;
      fitted = copy_into-Fitted f t;
    }

  blocks_Means :
      (f id : Bytes) (d : Decrypted)
      → decrypt_file e big f ≡ d
      → HasId f id
      → (bs : List e.Block) → blocks_of f ≡ bs
      → decrypt_from e big f (text_size f) id bs ≡ d
      → Means f d
  unfolding decrypt_from
  blocks_Means f id d h has_id [] blocks k =
      subst (Means f) k (record { id = id; has_id = has_id; why = inl blocks })
  blocks_Means f id d h has_id (first ∷ others) blocks k =
      let offset = e.joint_ciphertext_offset (first ∷ others) in
      let x = answer_of_blocks f id has_id first others blocks in
      elim (Bool-cases (leb offset (length f))) [
        | inl i ↦
            let j : with_plaintext e big (text_size f) x ≡ d = ground (arith, k, i) in
            subst (Means f) j (
              with_plaintext-Means f id has_id first others blocks (ground (arith, i)) x refl
                (h ∙ sym j))
        | inr o ↦
            let j : crashed ≡ d = ground (arith, k, o) in
            subst (Means f) j (record {
              id = id;
              has_id = has_id;
              why = inr (first, others, blocks, inl (ground (arith, o)));
            })
      ]

  -- `decryptFile` gives the plaintext of a file, fails if there is none, and panics if the file
  -- crashes it.
  pub decrypt_file-Means : (f : Bytes) (d : Decrypted) → decrypt_file e big f ≡ d → Means f d
  decrypt_file-Means f (failed x) h = cannot_open f x h
  decrypt_file-Means f (plain text) h =
      let (id, has_id, k) = runs_blocks f (plain text) h (λ x. λ q. cc) in
      blocks_Means f id (plain text) h has_id (blocks_of f) refl k
  decrypt_file-Means f crashed h =
      let (id, has_id, k) = runs_blocks f crashed h (λ x. λ q. cc) in
      blocks_Means f id crashed h has_id (blocks_of f) refl k
