-- ===== src/FileTree/EncryptedTests.antt =====
-- `decryptFile` on gocrypt/contentenc, at a file of two blocks and at one of a header and two bytes.
use gocryptsftp.Base.{◌≡◌, ◌↔◌, refl, Bool, false, ◌∷◌, Bytes, replicate, arith}
use gocryptsftp.Gocrypt.Content.Offsets.{block_overhead}
use gocryptsftp.Gocrypt.Content.Sample.{small_enc, small_enc-IsGeometry, plain_core-IsTagged}
use gocryptsftp.FileTree.Calls.{crashed, decrypt_file}
use gocryptsftp.FileTree.Encrypted.{content_enc}
use gocryptsftp.FileTree.Panics.{IsHeaderOnly, decrypt_file-crashed}

abbrev reused : Bytes → Bool
reused b = false

abbrev header_and_two : Bytes
header_and_two = 0 ∷ 2 ∷ replicate 18 7

decrypt_file-crashed_example :
    (decrypt_file (content_enc small_enc) reused header_and_two ≡ crashed)
    ↔ IsHeaderOnly small_enc.geometry header_and_two
unfolding block_overhead
decrypt_file-crashed_example =
    decrypt_file-crashed small_enc reused header_and_two (plain_core-IsTagged 2) refl
      small_enc-IsGeometry (omega arith)
