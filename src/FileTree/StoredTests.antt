-- ===== src/FileTree/StoredTests.antt =====
-- `ReadFile` of a file of two blocks in the root directory.
use gocryptsftp.Base.{
  lookup, ◌≡◌, refl, true, false, some, [], ◌∷◌, ◌++◌, arith, Bytes, codes, bytes_eq, ltb, length,
  if◌then◌else◌,
}
use gocryptsftp.FastCache.{new_fast_cache}
use gocryptsftp.FastCache.Invariant.{mapping}
use gocryptsftp.FastCache.Runs.{new-IsValid}
use gocryptsftp.Gocrypt.Content.Header.{pack, put_uint16, random_header}
use gocryptsftp.Gocrypt.Content.Blocks.{
  encrypt_blocks, flatten, do_encrypt_blocks, do_encrypt_block, concat_ad, big_endian,
}
use gocryptsftp.Gocrypt.Content.Sample.{
  small_enc, small_enc-IsReady, small_enc-IsGeometry, nonces, nonces-IsNonce, file_id,
  file_id-IsFileId, full, last, tag, blocks-AreBlocks,
}
use gocryptsftp.FileTree.Paths.{
  is_rooted, split, push, push_all, render, clean, up_to_slash, behind_slash, dir, trim_slashes,
  base, join,
}
use gocryptsftp.FileTree.Defs.{gives, fails, Remote, Tree, ok}
use gocryptsftp.FileTree.Calls.{read_file}
use gocryptsftp.FileTree.Spec.{Content, Stable, child, at_root}
use gocryptsftp.FileTree.Resolution.{TreeOk}
use gocryptsftp.FileTree.Reading.{Contains}
use gocryptsftp.FileTree.Encrypted.{content_enc}
use gocryptsftp.FileTree.Stored.{read_file-encrypt_blocks}

abbrev root : Bytes
root = codes "R"

abbrev header : Bytes
header = 0 ∷ 2 ∷ file_id

abbrev stored_blocks : Bytes
stored_blocks = (nonces 0 ++ (full ++ tag)) ++ ((nonces 1 ++ (last ++ tag)) ++ [])

-- The whole directory is one file.
abbrev content : Content
content = record {
  file =
      λ p. if bytes_eq p (codes "R/F") then gives (header ++ stored_blocks) else gives (codes "I");
  listing = λ p. gives (record { name = codes "F"; size = 97; is_dir = false } ∷ []);
  plain_name = λ n iv. gives (codes "f");
}

abbrev remote : Remote (Unit {0})
remote = record {
  read_file = λ p s. (content.file p, s);
  read_dir = λ p s. (content.listing p, s);
  decrypt_name = λ n iv s. (some (content.plain_name n iv), s);
  stat = λ p s. (fails 1, s);
}

stable : Stable remote content
stable = record { reads = λ p s. refl; lists = λ p s. refl; decrypts = λ n iv s. refl }

abbrev tree : Tree (Unit {0})
tree = record { encrypted_root = root; fast_cache = new_fast_cache 2; remote = tt }

tree-TreeOk : TreeOk content root tree
unfolding new_fast_cache mapping lookup
tree-TreeOk = record {
  valid = new-IsValid 2;
  room = omega arith;
  coherent = λ j v h. cc;
  rooted = refl;
}

file-Contains : Contains content root (clean (codes "/f")) (header ++ stored_blocks)
unfolding is_rooted split push push_all render clean up_to_slash behind_slash dir trim_slashes base
    join child bytes_eq
file-Contains = record {
  no_root = λ h. cc;
  parent = root;
  parent_found = at_root refl refl;
  info = record { name = codes "F"; size = 97; is_dir = false };
  listed = refl;
  no_dir = refl;
  content = refl;
}

header_packed : pack (random_header file_id) ≡ some header
unfolding pack put_uint16 random_header
header_packed = refl

blocks_encrypted :
    encrypt_blocks small_enc 4 nonces (full ∷ last ∷ []) 0 (some file_id) ≡ some stored_blocks
unfolding encrypt_blocks do_encrypt_blocks do_encrypt_block concat_ad big_endian
blocks_encrypted = refl

absolute : is_rooted (codes "/f") ≡ true
unfolding is_rooted
absolute = refl

read_file-encrypt_blocks_example :
    (t : Tree (Unit {0})) × (read_file
        (content_enc small_enc)
        (λ b. ltb 135168 (length b))
        remote
        9
        (codes "/f")
        tree
      ≡ ok (flatten (full ∷ last ∷ [])) t)
    × TreeOk content root t
read_file-encrypt_blocks_example =
    read_file-encrypt_blocks content root small_enc (λ b. ltb 135168 (length b)) remote stable 9
      (codes "/f") tree 4 nonces file_id full (last ∷ []) header stored_blocks absolute
      (omega arith) tree-TreeOk small_enc-IsReady small_enc-IsGeometry (omega arith) nonces-IsNonce
      file_id-IsFileId blocks-AreBlocks (omega arith) header_packed blocks_encrypted file-Contains
