-- ===== src/Gocrypt/Content/Tests.antt =====
-- The theorems on gocrypt/contentenc at a file of two blocks.
use gocryptsftp.Base.{◌≡◌, ◌↔◌, some, ◌∷◌, ◌++◌, Bytes, take, drop, replicate, arith}
use gocryptsftp.Gocrypt.Content.Offsets.{explode_plain_range}
use gocryptsftp.Gocrypt.Content.Explode.{read_blocks, explode_plain_range-reads}
use gocryptsftp.Gocrypt.Content.Header.{parsed, pack, parse_header, random_header}
use gocryptsftp.Gocrypt.Content.Packing.{IsFileId, parse_header-pack}
use gocryptsftp.Gocrypt.Content.Blocks.{flatten_all, do_encrypt_blocks, encrypt_blocks}
use gocryptsftp.Gocrypt.Content.Groups.{encrypt_blocks-do_encrypt_blocks}
use gocryptsftp.Gocrypt.Content.Sample.{small_enc, small_enc-IsGeometry, nonces, file_id, last}

-- 40 blocks on four processors, in two groups
encrypt_blocks-do_encrypt_blocks_example :
    encrypt_blocks small_enc 4 nonces (replicate 40 last) 3 (some file_id)
    ≡ flatten_all 38 (do_encrypt_blocks small_enc nonces (replicate 40 last) 3 (some file_id) 0)
encrypt_blocks-do_encrypt_blocks_example =
    encrypt_blocks-do_encrypt_blocks small_enc 4 nonces (replicate 40 last) 3 (some file_id)
      (omega arith)

parse_header-pack_example : (parse_header (0 ∷ 2 ∷ file_id) ≡ parsed (random_header file_id)) ↔ (
    (pack (random_header file_id) ≡ some (0 ∷ 2 ∷ file_id)) × IsFileId (random_header file_id).id)
parse_header-pack_example = parse_header-pack (0 ∷ 2 ∷ file_id) (random_header file_id)

abbrev file : Bytes
file = replicate 30 5 ++ replicate 15 6

explode_plain_range-reads_example :
    read_blocks small_enc.geometry file (explode_plain_range small_enc.geometry 7 33)
    ≡ some (take 33 (drop 7 file))
explode_plain_range-reads_example =
    explode_plain_range-reads small_enc-IsGeometry file 7 33 (omega arith) (omega arith)
