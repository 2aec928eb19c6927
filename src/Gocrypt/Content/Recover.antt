-- ===== src/Gocrypt/Content/Recover.antt =====
-- gocrypt/contentenc/content.go: what `DecryptBlocks` makes of the output of `EncryptBlocks`.
use gocryptsftp.Base.{
  ℕ, zero, suc, ◌≡◌, ◌≢◌, ◌≤◌, ap, sym, ◌∙◌, refl, true, false, Option, none, some, List, [], ◌∷◌,
  Bytes, ◌++◌, length, arith, bytes_eq, bytes_eq-false, take, drop, replicate, length-append, ◌==◌,
  ltb, leb, ◌+◌, ◌<◌, take-append, drop-append, ◌-◌,
}
use gocryptsftp.Gocrypt.Content.Offsets.{u64, block_overhead}
use gocryptsftp.Gocrypt.Content.Blocks.{
  CryptoCore, ContentEnc, unsealed, opened, concat_ad, big_endian, decrypt_block, decrypt_rounds,
  all_zero, do_encrypt_block,
}

-- What the code relies on of an AEAD cipher: the ciphertext is as long as the plaintext and a tag,
-- and with the same nonce and associated data it opens to the plaintext.
pub record IsCipher (c : CryptoCore) : Type 0 where
  pub length-seal : (nonce p ad : Bytes) → length (c.seal nonce p ad) ≡ length p + 16
  pub unseal-seal : (nonce p ad : Bytes) → c.unseal nonce (c.seal nonce p ad) ad ≡ unsealed p

-- What `New` establishes, for such a cipher.
pub record IsReady (e : ContentEnc) : Type 0 where
  pub cipher : IsCipher e.core
  pub some_plain : 0 < e.geometry.plain_bs
  pub sizes : e.geometry.cipher_bs ≡ e.geometry.plain_bs + e.core.iv_len + 16

-- A file that is cut into blocks: all but the last are full, and none is empty.
pub data AreBlocks (n : ℕ) : List Bytes → Type 0 where
  no_blocks : AreBlocks n []
  last_block : (p : Bytes) → 0 < length p → length p ≤ n → AreBlocks n (p ∷ [])
  full_block : (p : Bytes) (ps : List Bytes) → length p ≡ n → AreBlocks n ps → AreBlocks n (p ∷ ps)

pub record IsNonce (c : CryptoCore) (nonce : Bytes) : Type 0 where
  pub long : length nonce ≡ c.iv_len
  pub not_zero : nonce ≢ replicate c.iv_len 0

take-replicate : (k n : ℕ) → k ≤ n → take {A = ℕ} k (replicate n 0) ≡ replicate k 0
take-replicate zero n h = refl
take-replicate (suc k) zero h = absurd (omega (arith, h))
take-replicate (suc k) (suc n) h = ap (◌∷◌ 0) (take-replicate k n (omega (arith, h)))

pub concat_ad-some :
    (at : ℕ) (id : Bytes) → length id ≡ 16 → concat_ad at (some id) ≡ some (big_endian 8 at ++ id)
unfolding concat_ad
concat_ad-some at id h = let long : (length id == 16) ≡ true = ground (arith, h) in rw long refl

module _ (e : ContentEnc) where
  -- A block as it is stored, with associated data.
  pub sealed_block : Bytes → Bytes → Bytes → Bytes
  sealed_block p ad nonce = nonce ++ e.core.seal nonce p ad

  pub length-sealed_block :
      (p ad nonce : Bytes)
      → IsReady e
      → IsNonce e.core nonce
      → length (sealed_block p ad nonce) ≡ length p + e.core.iv_len + 16
  unfolding sealed_block
  length-sealed_block p ad nonce r n =
      omega (
        arith,
        length-append nonce (e.core.seal nonce p ad),
        n.long,
        r.cipher.length-seal nonce p ad,
      )

  pub do_encrypt_block-sealed_block :
      (p : Bytes) (at : ℕ) (id : Option Bytes) (ad nonce : Bytes)
      → IsReady e
      → IsNonce e.core nonce
      → 0 < length p
      → concat_ad at id ≡ some ad
      → do_encrypt_block e p at id nonce ≡ some (sealed_block p ad nonce)
  unfolding do_encrypt_block sealed_block block_overhead
  do_encrypt_block-sealed_block p at id ad nonce r n some_p ad_eq =
      let not_empty : (length p == 0) ≡ false = ground (arith, some_p) in
      let nonce_ok : (length nonce == e.core.iv_len) ≡ true = ground (arith, n.long) in
      let len_ok : (length p + (e.geometry.cipher_bs - e.geometry.plain_bs)
            == length (nonce ++ e.core.seal nonce p ad))
          ≡ true =
        ground (
          arith,
          length-append nonce (e.core.seal nonce p ad),
          n.long,
          r.sizes,
          r.cipher.length-seal nonce p ad,
        ) in
      rw (not_empty, nonce_ok, ad_eq, len_ok) refl

  -- A stored block is none of those that are read without the cipher, and opens to its plaintext.
  pub decrypt_block-sealed_block :
      (p : Bytes) (at : ℕ) (id : Option Bytes) (ad nonce : Bytes)
      → IsReady e
      → IsNonce e.core nonce
      → 0 < length p
      → concat_ad at id ≡ some ad
      → decrypt_block e (sealed_block p ad nonce) at id ≡ opened p
  unfolding decrypt_block sealed_block all_zero
  decrypt_block-sealed_block p at id ad nonce r n some_p ad_eq =
      let iv = e.core.iv_len in
      let t = e.core.seal nonce p ad in
      let c = nonce ++ t in
      let nonce_part : take iv c ≡ nonce = take-append iv nonce t (sym n.long) in
      let sealed_part : drop iv c ≡ t = drop-append iv nonce t (sym n.long) in
      let len = length-sealed_block p ad nonce r n in
      let not_empty : (length c == 0) ≡ false = ground (arith, len) in
      let not_hole : bytes_eq c (replicate e.geometry.cipher_bs 0) ≡ false =
        bytes_eq-false c (replicate e.geometry.cipher_bs 0) (λ z. n.not_zero (
          sym nonce_part
          ∙ ap (take iv) z
          ∙ take-replicate iv e.geometry.cipher_bs (omega (arith, r.sizes)))) in
      let not_short : ltb (length c) iv ≡ false = ground (arith, len) in
      let not_zero : bytes_eq nonce (replicate iv 0) ≡ false =
        bytes_eq-false nonce (replicate iv 0) n.not_zero in
      rw
        (
          not_empty,
          not_hole,
          not_short,
          nonce_part,
          not_zero,
          ad_eq,
          sealed_part,
          nonce_part,
          r.cipher.unseal-seal nonce p ad,
        )
        refl

  -- The block of a file, with its number and the file's id.
  abbrev pub stored : Bytes → ℕ → Bytes → Bytes → Bytes
  stored p at id nonce = sealed_block p (big_endian 8 at ++ id) nonce

  -- One round of `DecryptBlocks`.
  pub decrypt_rounds-step :
      (c : Bytes) (p : Bytes) (cs : Bytes) (rounds at : ℕ) (id buf : Bytes)
      → take e.geometry.cipher_bs cs ≡ c
      → decrypt_block e c at (some id) ≡ opened p
      → length p ≤ e.geometry.plain_bs
      → 0 < length cs
      → decrypt_rounds e (suc rounds) cs at (some id) buf none
        ≡ decrypt_rounds e rounds
            (drop e.geometry.cipher_bs cs)
            (u64 (at + 1))
            (some id)
            (buf ++ p)
            none
  unfolding decrypt_rounds
  decrypt_rounds-step c p [] rounds at id buf c_eq o fits some_c = absurd (omega (arith, some_c))
  decrypt_rounds-step c p (x ∷ cs) rounds at id buf c_eq o fits some_c =
      let fits? : leb (length p) e.geometry.plain_bs ≡ true = ground (arith, fits) in
      rw (c_eq, o, fits?) refl
