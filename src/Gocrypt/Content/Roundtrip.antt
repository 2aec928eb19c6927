-- ===== src/Gocrypt/Content/Roundtrip.antt =====
-- gocrypt/contentenc/content.go: `EncryptBlocks`, then `DecryptBlocks`, over a whole file.
use gocryptsftp.Base.{
  true, ltb, leb, append-nil, append_assoc, ℕ, zero, suc, ◌≡◌, ◌≤◌, ap, sym, ◌∙◌, refl, none, some,
  List, [], ◌∷◌, Bytes, ◌++◌, length, arith, ◌^◌, take, drop, length-append, ◌+◌, ◌*◌, ◌<◌,
  take-append, drop-append, take-all, drop-all,
}
use gocryptsftp.Gocrypt.Content.Offsets.{u64}
use gocryptsftp.Gocrypt.Content.Blocks.{
  big_endian, ContentEnc, decrypted, decrypt_rounds, decrypt_blocks, do_encrypt_blocks, flatten,
  encrypt_blocks, flatten_all, all_pooled,
}
use gocryptsftp.Gocrypt.Content.Groups.{u64-u64_add, encrypt_blocks-do_encrypt_blocks}
use gocryptsftp.Gocrypt.Content.Recover.{
  IsReady, AreBlocks, no_blocks, last_block, full_block, IsNonce, stored, concat_ad-some,
  length-sealed_block, do_encrypt_block-sealed_block, decrypt_block-sealed_block,
  decrypt_rounds-step,
}

module _ (e : ContentEnc) (r : IsReady e) (nonces : ℕ → Bytes)
    (fresh : (i : ℕ) → IsNonce e.core (nonces i)) (first : ℕ) (id : Bytes)
    (long : length id ≡ 16) where
  abbrev stored_at : Bytes → ℕ → Bytes
  stored_at p i = stored e p (u64 (first + i)) id (nonces i)

  pub stored_blocks : List Bytes → ℕ → List Bytes
  stored_blocks [] i = []
  stored_blocks (p ∷ ps) i = stored_at p i ∷ stored_blocks ps (i + 1)

  encrypt-then_cons :
      (p : Bytes) (ps : List Bytes) (i : ℕ)
      → 0 < length p
      → do_encrypt_blocks e nonces ps first (some id) (i + 1) ≡ some (stored_blocks ps (i + 1))
      → do_encrypt_blocks e nonces (p ∷ ps) first (some id) i ≡ some (stored_blocks (p ∷ ps) i)
  unfolding do_encrypt_blocks stored_blocks
  encrypt-then_cons p ps i some_p more =
      rw
        (
          do_encrypt_block-sealed_block e p (u64 (first + i)) (some id)
              (big_endian 8 (u64 (first + i)) ++ id) (nonces i) r (fresh i) some_p
              (concat_ad-some (u64 (first + i)) id long),
          more,
        )
        refl

  do_encrypt_blocks-stored :
      (ps : List Bytes) (i : ℕ)
      → AreBlocks e.geometry.plain_bs ps
      → do_encrypt_blocks e nonces ps first (some id) i ≡ some (stored_blocks ps i)
  unfolding do_encrypt_blocks stored_blocks
  do_encrypt_blocks-stored _ i no_blocks = refl
  do_encrypt_blocks-stored _ i (last_block p some_p fits) = encrypt-then_cons p [] i some_p refl
  do_encrypt_blocks-stored _ i (full_block p ps full b) =
      encrypt-then_cons p ps i (omega (arith, full, r.some_plain))
        (do_encrypt_blocks-stored ps (i + 1) b)

  next_number : (i : ℕ) → u64 (u64 (first + i) + 1) ≡ u64 (first + (i + 1))
  next_number i = u64-u64_add (first + i) 1 ∙ ap u64 (omega arith)

  decrypt_rounds-nil :
      (rounds at : ℕ) (buf : Bytes)
      → decrypt_rounds e rounds [] at (some id) buf none ≡ decrypted (buf ++ []) none
  unfolding decrypt_rounds
  decrypt_rounds-nil zero at buf = ap (λ b. decrypted b none) (sym (append-nil buf))
  decrypt_rounds-nil (suc rounds) at buf = ap (λ b. decrypted b none) (sym (append-nil buf))

  -- That the blocks from `i` on are read back.
  Reads : List Bytes → ℕ → Type 0
  Reads ps i =
      (rounds : ℕ) (buf : Bytes)
      → length (flatten (stored_blocks ps i)) ≤ rounds
      → decrypt_rounds e rounds (flatten (stored_blocks ps i)) (u64 (first + i)) (some id) buf none
        ≡ decrypted (buf ++ flatten ps) none

  length-stored_at : (p : Bytes) (i : ℕ) → length (stored_at p i) ≡ length p + e.core.iv_len + 16
  length-stored_at p i =
      length-sealed_block e p (big_endian 8 (u64 (first + i)) ++ id) (nonces i) r (fresh i)

  Reads-cons :
      (p : Bytes) (ps : List Bytes) (i : ℕ)
      → 0 < length p
      → length p ≤ e.geometry.plain_bs
      → take e.geometry.cipher_bs (flatten (stored_blocks (p ∷ ps) i)) ≡ stored_at p i
      → drop e.geometry.cipher_bs (flatten (stored_blocks (p ∷ ps) i))
        ≡ flatten (stored_blocks ps (i + 1))
      → Reads ps (i + 1)
      → Reads (p ∷ ps) i
  unfolding Reads stored_blocks
  Reads-cons p ps i some_p fits head tail more zero buf enough = absurd (
      omega (
        arith,
        enough,
        some_p,
        length-stored_at p i,
        length-append (stored_at p i) (flatten (stored_blocks ps (i + 1))),
      ))
  Reads-cons p ps i some_p fits head tail more (suc rounds) buf enough =
      let rest = flatten (stored_blocks ps (i + 1)) in
      let all = stored_at p i ++ rest in
      let len : length all ≡ length p + e.core.iv_len + 16 + length rest =
        length-append (stored_at p i) rest ∙ ap (λ n. n + length rest) (length-stored_at p i) in
      let o =
        decrypt_block-sealed_block e p (u64 (first + i)) (some id)
          (big_endian 8 (u64 (first + i)) ++ id) (nonces i) r (fresh i) some_p
          (concat_ad-some (u64 (first + i)) id long) in
      decrypt_rounds-step e (stored_at p i) p all rounds (u64 (first + i)) id buf head o fits
        (omega (arith, len, some_p))
      ∙ ap (λ x. decrypt_rounds e rounds x (u64 (u64 (first + i) + 1)) (some id) (buf ++ p) none)
          tail
      ∙ ap (λ n. decrypt_rounds e rounds rest n (some id) (buf ++ p) none) (next_number i)
      ∙ more rounds (buf ++ p) (omega (arith, enough, len, some_p))
      ∙ ap (λ b. decrypted b none) (append_assoc buf p (flatten ps))

  Reads-AreBlocks : (ps : List Bytes) (i : ℕ) → AreBlocks e.geometry.plain_bs ps → Reads ps i
  unfolding Reads stored_blocks
  Reads-AreBlocks _ i no_blocks rounds buf enough = decrypt_rounds-nil rounds (u64 (first + i)) buf
  Reads-AreBlocks _ i (last_block p some_p fits) rounds buf enough =
      let all = stored_at p i in
      let short : length (all ++ []) ≤ e.geometry.cipher_bs =
        omega (arith, r.sizes, fits, length-stored_at p i, length-append all []) in
      Reads-cons p [] i some_p fits
        (take-all e.geometry.cipher_bs (all ++ []) short ∙ append-nil all)
        (drop-all e.geometry.cipher_bs (all ++ []) short)
        (λ n b h. decrypt_rounds-nil n (u64 (first + (i + 1))) b) rounds buf enough
  Reads-AreBlocks _ i (full_block p ps full b) rounds buf enough =
      let rest = flatten (stored_blocks ps (i + 1)) in
      let len : e.geometry.cipher_bs ≡ length (stored_at p i) =
        omega (arith, r.sizes, full, length-stored_at p i) in
      Reads-cons p ps i (omega (arith, full, r.some_plain)) (omega (arith, full))
        (take-append e.geometry.cipher_bs (stored_at p i) rest len)
        (drop-append e.geometry.cipher_bs (stored_at p i) rest len) (Reads-AreBlocks ps (i + 1) b)
        rounds buf enough

  -- The stored blocks hold a nonce and a tag beside each block of plaintext.
  pub length-stored_blocks :
      (ps : List Bytes) (i : ℕ)
      → length (flatten (stored_blocks ps i))
        ≡ length (flatten ps) + length ps * (e.core.iv_len + 16)
  unfolding stored_blocks
  length-stored_blocks [] i = omega arith
  length-stored_blocks (p ∷ ps) i =
      let more = length-stored_blocks ps (i + 1) in
      let here = length-stored_at p i in
      let all = length-append (stored_at p i) (flatten (stored_blocks ps (i + 1))) in
      let plain = length-append p (flatten ps) in grind (arith, more, here, all, plain)

  pooled_cons :
      (p : Bytes) (ps : List Bytes) (i : ℕ)
      → length p ≤ e.geometry.plain_bs
      → all_pooled e.geometry.cipher_bs (stored_blocks ps (i + 1)) ≡ true
      → all_pooled e.geometry.cipher_bs (stored_blocks (p ∷ ps) i) ≡ true
  unfolding stored_blocks
  pooled_cons p ps i fits more =
      let len = length-stored_at p i in
      let some_c : ltb 0 (length (stored_at p i)) ≡ true = ground (arith, len) in
      let short : leb (length (stored_at p i)) e.geometry.cipher_bs ≡ true =
        ground (arith, len, r.sizes, fits) in
      rw (some_c, short) more

  -- No buffer has to grow.
  all_pooled-stored :
      (ps : List Bytes) (i : ℕ)
      → AreBlocks e.geometry.plain_bs ps
      → all_pooled e.geometry.cipher_bs (stored_blocks ps i) ≡ true
  unfolding stored_blocks
  all_pooled-stored _ i no_blocks = refl
  all_pooled-stored _ i (last_block p some_p fits) = pooled_cons p [] i fits refl
  all_pooled-stored _ i (full_block p ps full b) =
      pooled_cons p ps i (omega (arith, full)) (all_pooled-stored ps (i + 1) b)

  pub encrypt_blocks-stored :
      (num_cpu : ℕ) (ps : List Bytes)
      → 0 < num_cpu
      → AreBlocks e.geometry.plain_bs ps
      → encrypt_blocks e num_cpu nonces ps first (some id) ≡ some (flatten (stored_blocks ps 0))
  encrypt_blocks-stored num_cpu ps some_cpu b =
      encrypt_blocks-do_encrypt_blocks e num_cpu nonces ps first (some id) some_cpu
      ∙ ap (flatten_all e.geometry.cipher_bs) (do_encrypt_blocks-stored ps 0 b)
      ∙ rw (all_pooled-stored ps 0 b) refl

  pub decrypt_blocks-stored :
      (ps : List Bytes)
      → first < 2 ^ 64
      → AreBlocks e.geometry.plain_bs ps
      → decrypt_blocks e (flatten (stored_blocks ps 0)) first (some id)
        ≡ decrypted (flatten ps) none
  unfolding decrypt_blocks Reads u64
  decrypt_blocks-stored ps word b =
      let c = flatten (stored_blocks ps 0) in
      let start : first ≡ u64 (first + 0) = omega (arith, word) in
      ap (λ n. decrypt_rounds e (length c) c n (some id) [] none) start
      ∙ Reads-AreBlocks ps 0 b (length c) [] (omega arith)

-- What `EncryptBlocks` makes of a file that is cut into blocks, `DecryptBlocks` turns back into the
-- file without an error, where each nonce has the cipher's length and is not all 0, and the file id
-- has 16 bytes; neither panics, on any number of processors.
pub decrypt_blocks-encrypt_blocks :
    (e : ContentEnc) (num_cpu : ℕ) (nonces : ℕ → Bytes) (ps : List Bytes) (first : ℕ) (id : Bytes)
    → IsReady e
    → 0 < num_cpu
    → ((i : ℕ) → IsNonce e.core (nonces i))
    → AreBlocks e.geometry.plain_bs ps
    → first < 2 ^ 64
    → length id ≡ 16
    → (c : Bytes) × (encrypt_blocks e num_cpu nonces ps first (some id) ≡ some c)
      × (decrypt_blocks e c first (some id) ≡ decrypted (flatten ps) none)
decrypt_blocks-encrypt_blocks e num_cpu nonces ps first id r some_cpu fresh b word long = (
  flatten (stored_blocks e r nonces fresh first id long ps 0),
  encrypt_blocks-stored e r nonces fresh first id long num_cpu ps some_cpu b,
  decrypt_blocks-stored e r nonces fresh first id long ps word b,
)
