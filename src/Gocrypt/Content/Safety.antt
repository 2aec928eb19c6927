-- ===== src/Gocrypt/Content/Safety.antt =====
-- gocrypt/contentenc/content.go: `DecryptBlocks` on ciphertext that nobody vouches for.
use gocryptsftp.Base.{
  ℕ, zero, suc, ◌≡◌, ◌≢◌, ◌≤◌, refl, Bool, true, false, Option, none, some, [], ◌∷◌, Bytes, ◌++◌,
  length, arith, take, drop, length-take, length-drop, length-replicate, ◌==◌, ltb, ◌+◌, inl, inr,
  Bool-cases, if◌then◌else◌,
}
use gocryptsftp.Gocrypt.Content.Offsets.{u64}
use gocryptsftp.Gocrypt.Content.Blocks.{
  CryptoCore, ContentEnc, Unsealed, unsealed, err_auth, unseal_error, BlockError, authentication,
  too_short, zero_nonce, other_error, Opened, opened, refused, panicked, Decrypted, panics,
  concat_ad, big_endian, from_unsealed, unseal_with, decrypt_block, next_round, decrypt_rounds,
  decrypt_blocks, all_zero,
}

-- A cipher whose plaintext, also one that fails the authentication, is shorter than the ciphertext
-- by the tag.
pub record IsTagged (c : CryptoCore) : Type 0 where
  pub length-unsealed :
      (nonce t ad p : Bytes) → c.unseal nonce t ad ≡ unsealed p → length p + 16 ≡ length t
  pub length-err_auth :
      (nonce t ad p : Bytes) → c.unseal nonce t ad ≡ err_auth p → length p + 16 ≡ length t

module _ (e : ContentEnc) where
  -- A block that `pBlockPool.Put` takes.
  Fits : Opened → Type 0
  Fits (opened p) = length p ≤ e.geometry.plain_bs
  Fits (refused x p) = length p ≤ e.geometry.plain_bs
  Fits panicked = ⊥

  Fits-if : (b : Bool) (x y : Opened) → (b ≡ true → Fits x) → Fits y → Fits (if b then x else y)
  Fits-if true x y f g = f refl
  Fits-if false x y f g = g

  from_unsealed-Fits :
      (u : Unsealed)
      → ((p : Bytes) → u ≡ unsealed p → length p ≤ e.geometry.plain_bs)
      → ((p : Bytes) → u ≡ err_auth p → length p ≤ e.geometry.plain_bs)
      → Fits (from_unsealed e u)
  unfolding Fits
  from_unsealed-Fits (unsealed p) a b = a p refl
  from_unsealed-Fits (err_auth p) a b = elim (Bool-cases e.force_decode) [
    | inl f ↦ rw f (b p refl)
    | inr f ↦ rw f (omega arith)
  ]
  from_unsealed-Fits unseal_error a b = omega arith

  unseal_with-Fits :
      (c : Bytes) (at : ℕ) (id : Bytes)
      → IsTagged e.core
      → e.geometry.cipher_bs ≡ e.geometry.plain_bs + e.core.iv_len + 16
      → length id ≡ 16
      → length c ≤ e.geometry.cipher_bs
      → Fits (unseal_with e c (concat_ad at (some id)))
  unfolding concat_ad
  unseal_with-Fits c at id t sizes long short =
      let id_ok : (length id == 16) ≡ true = ground (arith, long) in
      let iv = e.core.iv_len in
      let ad = big_endian 8 at ++ id in
      rw id_ok (
        from_unsealed-Fits (e.core.unseal (take iv c) (drop iv c) ad)
          (λ p u. omega (
            arith,
            t.length-unsealed (take iv c) (drop iv c) ad p u,
            length-drop iv c,
            short,
            sizes,
          ))
          (λ p u. omega (
            arith,
            t.length-err_auth (take iv c) (drop iv c) ad p u,
            length-drop iv c,
            short,
            sizes,
          )))

  decrypt_block-Fits :
      (c : Bytes) (at : ℕ) (id : Bytes)
      → IsTagged e.core
      → e.geometry.cipher_bs ≡ e.geometry.plain_bs + e.core.iv_len + 16
      → length id ≡ 16
      → length c ≤ e.geometry.cipher_bs
      → Fits (decrypt_block e c at (some id))
  unfolding decrypt_block Fits concat_ad
  decrypt_block-Fits c at id t sizes long short =
      Fits-if (length c == 0) _ _ (λ h. ground (arith, h))
        (Fits-if (all_zero e.geometry.cipher_bs c) _ _
          (λ h. omega (arith, length-replicate {A = ℕ} e.geometry.plain_bs 0))
          (Fits-if (ltb (length c) e.core.iv_len) _ _ (λ h. omega arith)
            (Fits-if (all_zero e.core.iv_len (take e.core.iv_len c)) _ _ (λ h. omega arith)
              (unseal_with-Fits c at id t sizes long short))))

  next_round-safe :
      (more : Bytes → Option BlockError → Decrypted) (buf : Bytes) (o : Opened)
      → ((b : Bytes) (x : Option BlockError) → more b x ≢ panics)
      → Fits o
      → next_round e more buf o ≢ panics
  unfolding Fits
  next_round-safe more buf (opened p) safe fits = ground (arith, fits, safe (buf ++ p) none)
  next_round-safe more buf (refused authentication p) safe fits =
      ground (arith, fits, safe (buf ++ p) (some authentication))
  next_round-safe more buf (refused too_short p) safe fits = λ h. cc
  next_round-safe more buf (refused zero_nonce p) safe fits = λ h. cc
  next_round-safe more buf (refused other_error p) safe fits = λ h. cc
  next_round-safe more buf panicked safe fits = absurd fits

  module _ (t : IsTagged e.core)
      (sizes : e.geometry.cipher_bs ≡ e.geometry.plain_bs + e.core.iv_len + 16) (id : Bytes)
      (long : length id ≡ 16) where
    decrypt_rounds-safe :
        (rounds : ℕ) (c : Bytes) (at : ℕ) (buf : Bytes) (x : Option BlockError)
        → decrypt_rounds e rounds c at (some id) buf x ≢ panics
    unfolding decrypt_rounds
    decrypt_rounds-safe zero c at buf x = λ h. cc
    decrypt_rounds-safe (suc rounds) [] at buf x = λ h. cc
    decrypt_rounds-safe (suc rounds) (b ∷ bs) at buf x =
        let c = b ∷ bs in
        let block = take e.geometry.cipher_bs c in
        next_round-safe
          (decrypt_rounds e rounds (drop e.geometry.cipher_bs c) (u64 (at + 1)) (some id)) buf
          (decrypt_block e block at (some id))
          (decrypt_rounds-safe rounds (drop e.geometry.cipher_bs c) (u64 (at + 1)))
          (decrypt_block-Fits block at id t sizes long
            (omega (arith, length-take e.geometry.cipher_bs c)))

-- `DecryptBlocks` does not panic, whatever the ciphertext and the number of the first block are,
-- if the file id has 16 bytes and the plaintext that the cipher gives is shorter than its input by
-- the tag.
pub decrypt_blocks-safe :
    (e : ContentEnc) (c : Bytes) (first : ℕ) (id : Bytes)
    → IsTagged e.core
    → e.geometry.cipher_bs ≡ e.geometry.plain_bs + e.core.iv_len + 16
    → length id ≡ 16
    → decrypt_blocks e c first (some id) ≢ panics
unfolding decrypt_blocks
decrypt_blocks-safe e c first id t sizes long =
    decrypt_rounds-safe e t sizes id long (length c) c first [] none
