-- ===== src/Gocrypt/Content/Explode.antt =====
-- The blocks that `ExplodePlainRange` gives are the parts of the range.
use native.Mathlib.Nat.{lt-div-mul-add, div-mul-le_self}
use gocryptsftp.Base.{
  ℕ, zero, suc, ◌+◌, ◌-◌, ◌*◌, ◌/◌, ◌^◌, ◌≤◌, ◌<◌, ◌≡◌, refl, ap, sym, ◌∙◌, false, Option, none,
  some, List, [], ◌∷◌, ◌++◌, arith, Bytes, length, take, drop, ◌==◌, take-add, take-drop-take,
  drop-add, length-take, length-drop,
}
use gocryptsftp.Gocrypt.Content.Offsets.{
  u64, Geometry, IntraBlock, min_uint64, plain_off_to_block_no, block_no_to_plain_off, next_block,
  explode_rounds, explode_plain_range, slice, crop_block,
}
use gocryptsftp.Gocrypt.Content.Sizes.{IsGeometry, u64_small}

-- The plaintext of a block of the file.
abbrev pub block_of : Geometry → Bytes → IntraBlock → Bytes
block_of g file b = take g.plain_bs (drop (b.block_no * g.plain_bs) file)

abbrev pub joined : Option Bytes → Option Bytes → Option Bytes
joined none more = none
joined (some a) none = none
joined (some a) (some b) = some (a ++ b)

-- Reading the blocks one after the other and cropping each.
abbrev pub read_blocks : Geometry → Bytes → List IntraBlock → Option Bytes
read_blocks g file [] = some []
read_blocks g file (b ∷ bs) = joined (crop_block b (block_of g file b)) (read_blocks g file bs)

crop_lem :
    (b : IntraBlock) (d : Bytes)
    → b.skip + b.count ≤ length d
    → b.skip + b.count < 2 ^ 64
    → crop_block b d ≡ some (take b.count (drop b.skip d))
unfolding crop_block slice
crop_lem b d h fits =
    let e : b.skip + b.count - b.skip ≡ b.count = omega arith in
    let w : u64 (b.skip + b.count) ≡ b.skip + b.count = u64_small _ fits in
    rw w (ground (arith, h, e))

module _ {g : Geometry} (v : IsGeometry g) where
  -- The first block of a range lies in the block of its number and begins where the range does.
  pub record Begins (offset n : ℕ) (b : IntraBlock) : Type 0 where
    pub at_offset : b.block_no * g.plain_bs + b.skip ≡ offset
    pub within : b.skip + b.count ≤ g.plain_bs
    pub no_more : b.count ≤ n
    pub some_bytes : 0 < n → 0 < b.count

  next_block-Begins : (offset n : ℕ) → offset < 2 ^ 64 → Begins offset n (next_block g offset n)
  unfolding next_block plain_off_to_block_no block_no_to_plain_off min_uint64
  next_block-Begins offset n h =
      let q = offset / g.plain_bs in
      let low : q * g.plain_bs ≤ offset = div-mul-le_self offset g.plain_bs in
      let high : offset < q * g.plain_bs + g.plain_bs =
        lt-div-mul-add {a = offset} {b = g.plain_bs} v.some_plain in
      let e : u64 (q * g.plain_bs) ≡ q * g.plain_bs = u64_small _ (omega (arith, low, h)) in
      rw e (record {
        at_offset = omega (arith, low);
        within = ground (arith, low, high);
        no_more = ground (arith);
        some_bytes = λ pos. ground (arith, low, high);
      })

  crop_next :
      (file : Bytes) (offset n : ℕ) (b : IntraBlock)
      → Begins offset n b
      → offset + n ≤ length file
      → crop_block b (block_of g file b) ≡ some (take b.count (drop offset file))
  crop_next file offset n b k inside =
      let d = drop (b.block_no * g.plain_bs) file in
      crop_lem b (take g.plain_bs d)
        (omega (
          arith,
          k.at_offset,
          k.within,
          k.no_more,
          inside,
          length-take g.plain_bs d,
          length-drop (b.block_no * g.plain_bs) file,
        ))
        (omega (arith, k.within, v.bigger, v.in_word))
      ∙ ap some (take-drop-take b.count b.skip g.plain_bs d k.within)
      ∙ ap (λ x. some (take b.count x)) (drop-add (b.block_no * g.plain_bs) b.skip file)
      ∙ ap (λ o. some (take b.count (drop o file))) k.at_offset

  explode_rounds-reads :
      (rounds : ℕ) (file : Bytes) (offset n : ℕ)
      → n ≤ rounds
      → offset + n ≤ length file
      → length file < 2 ^ 64
      → read_blocks g file (explode_rounds g rounds offset n) ≡ some (take n (drop offset file))
  unfolding explode_rounds
  explode_rounds-reads zero file offset zero enough inside fits = refl
  explode_rounds-reads zero file offset (suc n) enough inside fits = absurd (omega (arith, enough))
  explode_rounds-reads (suc rounds) file offset zero enough inside fits = refl
  explode_rounds-reads (suc rounds) file offset (suc n) enough inside fits =
      let b = next_block g offset (suc n) in
      let k = next_block-Begins offset (suc n) (omega (arith, inside, fits)) in
      let next : u64 (offset + b.count) ≡ offset + b.count =
        u64_small _ (omega (arith, k.no_more, inside, fits)) in
      let all =
        explode_rounds-reads rounds file (offset + b.count) (suc n - b.count)
          (omega (arith, enough, k.some_bytes (omega arith))) (omega (arith, inside, k.no_more))
          fits in
      let total : b.count + (suc n - b.count) ≡ suc n = omega (arith, k.no_more) in
      let more : (suc n == 0) ≡ false = ground arith in
      rw (more, crop_next file offset (suc n) b k inside)
        (rw (next) (
          rw (all) (
            ap some (
              ap (λ x. take b.count (drop offset file) ++ take (suc n - b.count) x)
                (sym (drop-add offset b.count file))
              ∙ sym (take-add b.count (suc n - b.count) (drop offset file))
              ∙ ap (λ m. take m (drop offset file)) total))))

  -- The blocks of a range, each cropped to its part, are the bytes of the range: none is left out
  -- and none comes twice.
  pub explode_plain_range-reads :
      (file : Bytes) (offset n : ℕ)
      → offset + n ≤ length file
      → length file < 2 ^ 64
      → read_blocks g file (explode_plain_range g offset n) ≡ some (take n (drop offset file))
  unfolding explode_plain_range
  explode_plain_range-reads file offset n inside fits =
      explode_rounds-reads n file offset n (omega arith) inside fits
