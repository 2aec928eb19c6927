-- ===== src/FileTree/Stored.antt =====
-- `ReadFile` of a file that was encrypted in blocks and lies on the remote server.
use mathlib.Core.Path.{ap₂}
use gocryptsftp.Base.{
  ℕ, ◌≡◌, ◌<◌, ◌+◌, ◌*◌, ◌^◌, ◌∙◌, sym, ap, Bool, true, some, List, ◌∷◌, ◌++◌, Bytes, length,
}
use gocryptsftp.Gocrypt.Content.Sizes.{IsGeometry}
use gocryptsftp.Gocrypt.Content.Header.{pack, random_header}
use gocryptsftp.Gocrypt.Content.Packing.{IsFileId}
use gocryptsftp.Gocrypt.Content.Blocks
use gocryptsftp.Gocrypt.Content.Blocks.{encrypt_blocks, flatten}
use gocryptsftp.Gocrypt.Content.Recover.{IsReady, AreBlocks, IsNonce}
use gocryptsftp.FileTree.Paths.{is_rooted, clean}
use gocryptsftp.FileTree.Plaintext.{Opens-decrypt_file, Crashes-decrypt_file, decrypt_file-Means}
use gocryptsftp.FileTree.Defs.{Remote, ContentEnc, Tree, Run, ok, err, panic, out_of_fuel}
use gocryptsftp.FileTree.Calls.{plain, crashed, decrypt_file, read_file}
use gocryptsftp.FileTree.Spec.{Content, Stable}
use gocryptsftp.FileTree.Resolution.{TreeOk}
use gocryptsftp.FileTree.Reading.{Contains, Contains-unique, ReadsFile, read_file-ReadsFile}
use gocryptsftp.FileTree.Encrypted.{content_enc}
use gocryptsftp.FileTree.Encrypted.Whole.{decrypt_file-encrypt_blocks}

module _ (a : Content) (root : Bytes) (e : ContentEnc) (big : Bytes → Bool) {S : Type 0} where
  Gives : Bytes → Run S Bytes → Type 0
  Gives text x = (t : Tree S) × (x ≡ ok text t) × TreeOk a root t

  -- Of the outcomes of `ReadFile`, only the content is left.
  ReadsFile-Gives :
      (q b text : Bytes) (x : Run S Bytes)
      → Contains a root q b
      → decrypt_file e big b ≡ plain text
      → ReadsFile a root e big q x
      → Gives text x
  unfolding Gives
  ReadsFile-Gives q b text (ok text' t) c d (k, (b', c', d')) =
      let same : b ≡ b' = Contains-unique a root c c' in
      let both : plain text' ≡ plain text =
        sym (Opens-decrypt_file e big b' text' d') ∙ sym (ap (decrypt_file e big) same) ∙ d in
      let e' : text' ≡ text = cc in (t, ap (λ y. ok y t) e', k)
  ReadsFile-Gives q b text (err y t) c d (k, no_file) =
      absurd ((no_file b c).0 text (decrypt_file-Means e big b (plain text) d))
  ReadsFile-Gives q b text panic c d (b', c', d') =
      let same : b ≡ b' = Contains-unique a root c c' in
      let both : crashed ≡ plain text =
        sym (Crashes-decrypt_file e big b' d') ∙ sym (ap (decrypt_file e big) same) ∙ d in
      cc
  ReadsFile-Gives q b text out_of_fuel c d h = absurd h

-- On a remote that does not change and no name of which makes `DecryptName` panic, `ReadFile` of an
-- absolute path gives a file byte for byte, if the path stands for a file whose content is the
-- header with its id and its blocks, encrypted. The file is not empty, the cipher opens what it
-- seals, the nonces have the cipher's length and are not all 0, neither is the id, and the
-- encrypted length fits in 64 bits.
pub read_file-encrypt_blocks :
    {S : Type 0} (a : Content) (root : Bytes) (e : Blocks.ContentEnc) (big : Bytes → Bool)
    (r : Remote S) (st : Stable r a) (fuel : ℕ) (path : Bytes) (t : Tree S) (num_cpu : ℕ)
    (nonces : ℕ → Bytes) (id p : Bytes) (ps : List Bytes) (h c : Bytes)
    → is_rooted path ≡ true
    → length path < fuel
    → TreeOk a root t
    → IsReady e
    → IsGeometry e.geometry
    → 0 < num_cpu
    → ((i : ℕ) → IsNonce e.core (nonces i))
    → IsFileId id
    → AreBlocks e.geometry.plain_bs (p ∷ ps)
    → 18 + length (flatten (p ∷ ps)) + length (p ∷ ps) * (e.core.iv_len + 16) < 2 ^ 64
    → pack (random_header id) ≡ some h
    → encrypt_blocks e num_cpu nonces (p ∷ ps) 0 (some id) ≡ some c
    → Contains a root (clean path) (h ++ c)
    → (t' : Tree S) × (read_file (content_enc e) big r fuel path t ≡ ok (flatten (p ∷ ps)) t')
      × TreeOk a root t'
unfolding Gives
read_file-encrypt_blocks a root e big r st fuel path t num_cpu nonces id p ps h c abs enough k ready
      v some_cpu fresh i are word h_eq c_eq there =
    let (h', c', packed, written, back) =
      decrypt_file-encrypt_blocks e big num_cpu nonces id p ps ready v some_cpu fresh i are word in
    let same_h : some h' ≡ some h = sym packed ∙ h_eq in
    let same_c : some c' ≡ some c = sym written ∙ c_eq in
    let e_h : h' ≡ h = cc in
    let e_c : c' ≡ c = cc in
    let file : decrypt_file (content_enc e) big (h ++ c) ≡ plain (flatten (p ∷ ps)) =
      ap (decrypt_file (content_enc e) big) (sym (ap₂ ◌++◌ e_h e_c)) ∙ back in
    ReadsFile-Gives a root (content_enc e) big (clean path) (h ++ c) (flatten (p ∷ ps))
      (read_file (content_enc e) big r fuel path t) there file
      (read_file-ReadsFile a root (content_enc e) big st fuel path t abs enough k)
