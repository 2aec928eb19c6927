-- ===== src/Gocrypt/Content/Sizes.antt =====
-- Sizes and offsets of plaintext and ciphertext belong together.
use native.Mathlib.Nat.{div-eq_of_lt-le, div-eq_of_lt, lt-div-mul-add, div-mul-le_self}
use gocryptsftp.Base.{
  ℕ, zero, suc, ◌+◌, ◌-◌, ◌*◌, ◌/◌, ◌^◌, ◌≤◌, ◌<◌, ◌≡◌, refl, arith, ap, ◌∙◌, Bool-cases, ltb, inl,
  inr, sym,
}
use gocryptsftp.Gocrypt.Content.Offsets.{
  u64, header_len, Geometry, plain_off_to_block_no, cipher_off_to_block_no, block_overhead,
  without_overhead, cipher_size_to_plain_size, plain_size_to_cipher_size,
}

pub u64_small : (n : ℕ) → n < 2 ^ 64 → u64 n ≡ n
unfolding u64
u64_small n h = omega arith

-- A quotient is known by a multiple below and the next one above.
pub div_unique : (q r b : ℕ) → r < b → (q * b + r) / b ≡ q
div_unique q r b h = grind (arith, div-eq_of_lt-le)

-- What `New` makes of the two sizes.
pub record IsGeometry (g : Geometry) : Type 0 where
  pub some_plain : 0 < g.plain_bs
  pub bigger : g.plain_bs ≤ g.cipher_bs
  pub in_word : header_len + g.cipher_bs < 2 ^ 64

no_bytes : (g : Geometry) → cipher_size_to_plain_size g (plain_size_to_cipher_size g 0) ≡ 0
unfolding cipher_size_to_plain_size plain_size_to_cipher_size
no_bytes g = refl

module _ {g : Geometry} (v : IsGeometry g) where
  -- A file of `q` full blocks and `r + 1` bytes more.
  abbrev pub file_size : ℕ → ℕ → ℕ
  file_size q r = q * g.plain_bs + r + 1

  abbrev pub encrypted_size : ℕ → ℕ → ℕ
  encrypted_size q r = header_len + q * g.cipher_bs + (g.cipher_bs - g.plain_bs) + r + 1

  split_overhead :
      (q r : ℕ)
      → file_size q r + ((g.cipher_bs - g.plain_bs) * (q + 1) + header_len) ≡ encrypted_size q r
  split_overhead q r =
      let o : ℕ = g.cipher_bs - g.plain_bs in
      let e : g.cipher_bs ≡ g.plain_bs + o = omega (arith, v.bigger) in
      let m : q * g.cipher_bs ≡ q * g.plain_bs + q * o = ap (λ t. q * t) e ∙ omega arith in
      omega (arith, m)

  pub plain_size_to_cipher_size-file_size :
      (q r : ℕ)
      → r < g.plain_bs
      → encrypted_size q r < 2 ^ 64
      → plain_size_to_cipher_size g (file_size q r) ≡ encrypted_size q r
  unfolding plain_size_to_cipher_size plain_off_to_block_no block_overhead
  plain_size_to_cipher_size-file_size q r less fits =
      let e : file_size q r - 1 ≡ q * g.plain_bs + r = omega arith in
      let d : (file_size q r - 1) / g.plain_bs ≡ q = rw e (div_unique q r g.plain_bs less) in
      rw (d, split_overhead q r, u64_small (encrypted_size q r) fits) (ground arith)

  pub cipher_size_to_plain_size-encrypted_size :
      (q r : ℕ)
      → r < g.plain_bs
      → encrypted_size q r < 2 ^ 64
      → cipher_size_to_plain_size g (encrypted_size q r) ≡ file_size q r
  unfolding cipher_size_to_plain_size cipher_off_to_block_no without_overhead block_overhead
  cipher_size_to_plain_size-encrypted_size q r less fits =
      let o : ℕ = g.cipher_bs - g.plain_bs in
      let e : encrypted_size q r - 1 - header_len ≡ q * g.cipher_bs + (o + r) = omega arith in
      let d : (encrypted_size q r - 1 - header_len) / g.cipher_bs ≡ q =
        rw e (div_unique q (o + r) g.cipher_bs (omega (arith, less, v.bigger))) in
      let all = split_overhead q r in
      let s : u64 (o * (q + 1) + header_len) ≡ o * (q + 1) + header_len =
        u64_small _ (omega (arith, all, fits)) in
      ground (arith, d, s, all)

  -- Every positive number is such a size.
  pub file_size_of : (p : ℕ) → 0 < p → (q : ℕ) × (r : ℕ) × (r < g.plain_bs) × (p ≡ file_size q r)
  file_size_of p pos =
      let b = g.plain_bs in
      let q : ℕ = (p - 1) / b in
      (
        q,
        p - 1 - q * b,
        omega (arith, lt-div-mul-add {a = p - 1} {b = b} v.some_plain, v.some_plain),
        omega (arith, div-mul-le_self (p - 1) b),
      )

  sizes_of :
      (p q r : ℕ)
      → p ≡ file_size q r
      → r < g.plain_bs
      → p + ((g.cipher_bs - g.plain_bs) * ((p - 1) / g.plain_bs + 1) + header_len) < 2 ^ 64
      → cipher_size_to_plain_size g (plain_size_to_cipher_size g p) ≡ p
  sizes_of p q r e less fits =
      let d : (p - 1) / g.plain_bs ≡ q =
        ap (λ t. t / g.plain_bs) (omega (arith, e)) ∙ div_unique q r g.plain_bs less in
      let all = ap (λ t. (g.cipher_bs - g.plain_bs) * (t + 1)) d in
      let small : encrypted_size q r < 2 ^ 64 = omega (arith, fits, split_overhead q r, e, all) in
      ap (λ t. cipher_size_to_plain_size g (plain_size_to_cipher_size g t)) e
      ∙ ap (cipher_size_to_plain_size g) (plain_size_to_cipher_size-file_size q r less small)
      ∙ cipher_size_to_plain_size-encrypted_size q r less small
      ∙ sym e

  -- The size that a plaintext takes when it is encrypted gives the size of the plaintext back, if
  -- it fits in 64 bits.
  pub cipher_size_to_plain_size-plain_size_to_cipher_size :
      (p : ℕ)
      → p + (block_overhead g * ((p - 1) / g.plain_bs + 1) + header_len) < 2 ^ 64
      → cipher_size_to_plain_size g (plain_size_to_cipher_size g p) ≡ p
  unfolding block_overhead
  cipher_size_to_plain_size-plain_size_to_cipher_size zero fits = no_bytes g
  cipher_size_to_plain_size-plain_size_to_cipher_size (suc n) fits =
      let (q, r, less, e) = file_size_of (suc n) (omega arith) in sizes_of (suc n) q r e less fits

  -- A file that has a header but no more than the overhead of one block behind it has no plaintext.
  pub cipher_size_to_plain_size-short :
      (c : ℕ) → c ≤ header_len + block_overhead g → cipher_size_to_plain_size g c ≡ 0
  unfolding cipher_size_to_plain_size cipher_off_to_block_no without_overhead block_overhead
  cipher_size_to_plain_size-short c short = elim (Bool-cases (ltb c (header_len + 1))) [
    | inl t ↦ ground (arith, t)
    | inr t ↦
        let d : (c - 1 - header_len) / g.cipher_bs ≡ 0 =
          div-eq_of_lt (omega (arith, short, v.some_plain, v.bigger)) in
        ground
          (arith, d, u64_small (block_overhead g * (0 + 1) + header_len) (omega (arith, v.in_word)))
  ]

  overhead_less :
      (c k o : ℕ)
      → header_len + o < c
      → k * g.cipher_bs ≤ c - 1 - header_len
      → o ≤ g.plain_bs
      → g.cipher_bs ≡ g.plain_bs + o
      → o * (k + 1) + header_len < c
  overhead_less c zero o long whole small e = omega (arith, long)
  overhead_less c (suc k) o long whole small e =
      let w : suc k * g.cipher_bs ≡ suc k * (g.plain_bs + o) = ap (λ n. suc k * n) e in
      let w' : suc k * (g.plain_bs + o) ≡ g.plain_bs + k * g.plain_bs + o * (k + 1) = grind arith in
      omega (arith, w, w', whole, small, long)

  -- Behind more than the overhead of one block there is plaintext, if no block has more overhead
  -- than plaintext.
  pub cipher_size_to_plain_size-long :
      (c : ℕ)
      → block_overhead g ≤ g.plain_bs
      → header_len + block_overhead g < c
      → 0 < cipher_size_to_plain_size g c
  unfolding cipher_size_to_plain_size cipher_off_to_block_no without_overhead block_overhead u64
  cipher_size_to_plain_size-long c small long =
      let o : ℕ = block_overhead g in
      let k : ℕ = (c - 1 - header_len) / g.cipher_bs in
      let whole : k * g.cipher_bs ≤ c - 1 - header_len =
        div-mul-le_self (c - 1 - header_len) g.cipher_bs in
      let less : o * (k + 1) + header_len < c =
        overhead_less c k o long whole small (omega (arith, v.bigger)) in
      let word : u64 (o * (k + 1) + header_len) ≤ o * (k + 1) + header_len = omega arith in
      ground (arith, less, word, long)
