-- ===== src/FileTree/Decryption.antt =====
-- filetree/decrypt.go: how long the result of `decryptFile` is, and when it panics.
use gocryptsftp.Base.{
  Option, none, some, ℕ, ◌-◌, ◌<◌, ◌≡◌, inl, inr, Bool, false, List, [], ◌∷◌, arith, Bytes,
  Bool-cases, leb, length, length-append, length-replicate, length-take, take, drop, replicate,
  Option, some,
}
use gocryptsftp.FileTree.Defs.{gives, ContentEnc, Answer, fails}
use gocryptsftp.FileTree.Calls.{
  header_len, Decrypted, plain, failed, crashed, copy_into, read_file_id, decrypt_from,
  decrypt_file, with_plaintext,
}

length-copy_into : (n : ℕ) (b : Bytes) → length (copy_into n b) ≡ n
unfolding copy_into
length-copy_into n b = omega (
  arith,
  length-append (take n b) (replicate (n - length (take n b)) 0),
  length-replicate {A = ℕ} (n - length (take n b)) 0,
  length-take n b,
)

module _ (e : ContentEnc) (big : Bytes → Bool) where
  with_plaintext-length :
      (n : ℕ) (x : Option (Answer Bytes)) (text : Bytes)
      → ((b : Bytes) → big b ≡ false)
      → with_plaintext e big n x ≡ plain text
      → length text ≡ n
  unfolding copy_into
  with_plaintext-length n none text small h = cc
  with_plaintext-length n (some (fails c)) text small h = cc
  with_plaintext-length n (some (gives t)) text small h =
      ground (arith, small t, length-copy_into n t)

  decrypt_from-length :
      (f : Bytes) (n : ℕ) (id : Bytes) (blocks : List e.Block) (text : Bytes)
      → ((b : Bytes) → big b ≡ false)
      → decrypt_from e big f n id blocks ≡ plain text
      → length text ≡ n
  unfolding decrypt_from
  decrypt_from-length f n id [] text small h = cc
  decrypt_from-length f n id (b ∷ blocks) text small h =
      elim (Bool-cases (leb (e.joint_ciphertext_offset (b ∷ blocks)) (length f))) [
        | inr outside ↦ absurd (cc)
        | inl inside ↦
            with_plaintext-length n
              (e.decrypt_blocks (drop (e.joint_ciphertext_offset (b ∷ blocks)) f) (e.block_no b) id)
              text small (ground (arith, inside))
      ]

  -- If no buffer is too big to be used again, the plaintext that `decryptFile` returns has the
  -- length that belongs to the size of the encrypted file, whatever the blocks decrypt to.
  pub decrypt_file-length :
      (f text : Bytes)
      → ((b : Bytes) → big b ≡ false)
      → decrypt_file e big f ≡ plain text
      → length text ≡ e.cipher_size_to_plain_size (length f)
  unfolding decrypt_file
  decrypt_file-length f text small h = by_id (read_file_id e big f) h
    where
      n : ℕ
      n = e.cipher_size_to_plain_size (length f)

      by_id :
          (d : Decrypted)
          → (elim d [
            | plain id ↦ decrypt_from e big f n id (e.explode_plain_range 0 n)
            | failed x ↦ failed x
            | crashed ↦ crashed
          ])
            ≡ plain text
          → length text ≡ n
      by_id (plain id) h' = decrypt_from-length f n id (e.explode_plain_range 0 n) text small h'
      by_id (failed x) h' = cc
      by_id crashed h' = cc

  -- A file that is longer than the header and whose header parses, but which is too short for
  -- any plaintext, makes `decryptFile` panic: it takes the first of no blocks.
  pub decrypt_file-no_blocks :
      (f id : Bytes)
      → header_len < length f
      → e.parse_header (take header_len f) ≡ gives id
      → e.cipher_size_to_plain_size (length f) ≡ 0
      → e.explode_plain_range 0 0 ≡ []
      → decrypt_file e big f ≡ crashed
  unfolding decrypt_file read_file_id decrypt_from
  decrypt_file-no_blocks f id long parsed no_text no_blocks =
      ground (arith, long, parsed, no_text, no_blocks)
