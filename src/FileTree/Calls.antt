-- ===== src/FileTree/Calls.antt =====
-- filetree/filetree.go and filetree/decrypt.go: the calls of a `FileTree` that sftp handlers make.
use gocryptsftp.Base.{
  Option, none, some, ℕ, ◌-◌, Bool, false, List, [], ◌∷◌, ◌++◌, Bytes, bytes_eq, leb, if◌then◌else◌,
  length, take, drop, replicate, Option, some,
}
use gocryptsftp.Requester.Defs.{FileInfo}
use gocryptsftp.FileTree.Paths.{slash, clean, dir, base, join}
use gocryptsftp.FileTree.Defs.{
  gives, fails, Remote, ContentEnc, Error, remote_error, eof, root_is_directory, finding_parent,
  finding_path, is_directory, reading_file, decrypting_file, running_stat, listing_path,
  not_supported, panic, M, pure, throw, ◌>>=◌, wrap, ask, reply, Answer,
}
use gocryptsftp.FileTree.Walk.{range_in_dir, find_in_dir, find_path}

abbrev pub header_len : ℕ
header_len = 18

-- `plainFileInfo`: the name and the size are replaced.
unfoldable pub plain_file_info : (ℕ → ℕ) → FileInfo → Bytes → FileInfo
plain_file_info plain_size info name = record info { name = name; size = plain_size info.size }

-- What `decryptFile` returns.
pub data Decrypted : Type 0 where
  plain : Bytes → Decrypted
  failed : Error → Decrypted
  crashed : Decrypted

-- `make([]byte, n)` and `copy`
unfoldable pub copy_into : ℕ → Bytes → Bytes
copy_into n b = take n b ++ replicate (n - length (take n b)) 0

-- A plaintext of more bytes than this is returned as it is; `big` says whether the buffer of the
-- plaintext has such a capacity, which is the allocator's business.
module _ (e : ContentEnc) (big : Bytes → Bool) where
  unfoldable pub read_file_id : Bytes → Decrypted
  read_file_id file_bytes =
      if leb (length file_bytes) header_len
      then failed eof
      else elim (e.parse_header (take header_len file_bytes)) [
        | gives id ↦ plain id
        | fails x ↦ failed (remote_error x)
      ]

  -- Behind `DecryptBlocks`.
  abbrev pub with_plaintext : ℕ → Option (Answer Bytes) → Decrypted
  with_plaintext plain_length none = crashed
  with_plaintext plain_length (some (fails x)) = failed (remote_error x)
  with_plaintext plain_length (some (gives text)) =
      plain (if big text then text else copy_into plain_length text)

  -- From `blocks[0]` on; an index into no blocks panics.
  unfoldable pub decrypt_from : Bytes → ℕ → Bytes → List e.Block → Decrypted
  unfolding copy_into
  decrypt_from file_bytes plain_length id [] = crashed
  decrypt_from file_bytes plain_length id (b ∷ blocks) =
      let offset = e.joint_ciphertext_offset (b ∷ blocks) in
      if leb offset (length file_bytes)
      then with_plaintext plain_length (e.decrypt_blocks (drop offset file_bytes) (e.block_no b) id)
      else crashed

  unfoldable pub decrypt_file : Bytes → Decrypted
  unfolding read_file_id decrypt_from
  decrypt_file file_bytes =
      let plain_length = e.cipher_size_to_plain_size (length file_bytes) in
      elim (read_file_id file_bytes) [
        | plain id ↦ decrypt_from file_bytes plain_length id (e.explode_plain_range 0 plain_length)
        | failed x ↦ failed x
        | crashed ↦ crashed
      ]

  module _ {S : Type 0} (r : Remote S) (fuel : ℕ) where
    abbrev pub decrypted : Bytes → Decrypted → M S Bytes
    decrypted path (plain text) = pure text
    decrypted path (failed x) = throw (decrypting_file path x)
    decrypted path crashed = λ t. panic

    unfoldable pub read_file : Bytes → M S Bytes
    unfolding decrypt_file
    read_file plain_path =
        let clean_path = clean plain_path in
        if bytes_eq clean_path slash then throw root_is_directory else do
          cipher_dir ← λ t. wrap finding_parent (find_path r fuel (dir clean_path) t)
          item ← find_in_dir r cipher_dir (base clean_path)
          let path = join cipher_dir item.name
          if item.is_dir then throw (is_directory path) else (do
            file_bytes ← λ t. reply (reading_file path) (ask (r.read_file path) t)
            decrypted path (decrypt_file file_bytes))

    -- `listing = append(listing, newInfo); return false`
    abbrev pub append_info : FileInfo → Bytes → List FileInfo → List FileInfo × Bool
    append_info info name listing =
        (listing ++ (plain_file_info e.cipher_size_to_plain_size info name ∷ []), false)

    unfoldable pub read_dir : Bytes → M S (List FileInfo)
    unfolding plain_file_info
    read_dir plain_path = do
      path ← λ t. wrap finding_path (find_path r fuel (clean plain_path) t)
      λ t. wrap (listing_path path) (range_in_dir r path append_info [] t)

    unfoldable pub stat : Bytes → M S FileInfo
    unfolding plain_file_info
    stat plain_path = do
      let clean_path = clean plain_path
      path ← λ t. wrap finding_path (find_path r fuel clean_path t)
      item ← λ t. reply running_stat (ask (r.stat path) t)
      pure (plain_file_info e.cipher_size_to_plain_size item (base clean_path))

    unfoldable pub write_file : Bytes → Bytes → M S ℕ
    write_file plain_path contents = throw not_supported

    -- `Mkdir` does nothing and reports success.
    unfoldable pub mkdir : Bytes → M S (Unit {0})
    mkdir plain_path = pure tt

    unfoldable pub rename : Bytes → Bytes → M S (Unit {0})
    rename plain_path target = throw not_supported

    unfoldable pub remove : Bytes → M S (Unit {0})
    remove plain_path = throw not_supported
