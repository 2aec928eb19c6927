-- ===== src/Handlers/Decrypt.antt =====
-- handlers/decrypt.go: the handlers of the decrypting server.
use gocryptsftp.Base.{
  ℕ, Bool, ◌||◌, Option, none, some, List, [], ◌∷◌, Bytes, bytes_eq, codes, if◌then◌else◌,
}
use gocryptsftp.Requester.Defs.{FileInfo}
use gocryptsftp.FileTree.Defs.{Remote, ContentEnc, M, pure, ◌>>=◌}
use gocryptsftp.FileTree.Calls.{read_file, read_dir, stat}

pub record Request : Type 0 where
  pub method : Bytes
  pub filepath : Bytes
  pub target : Bytes

-- The errors of the handlers themselves.
pub data CommandError : Type 0 where
  writing_not_supported : Bytes → CommandError
  setstat_not_supported : Bytes → CommandError
  renaming_not_supported : Bytes → Bytes → CommandError
  removing_not_supported : Bytes → CommandError
  mkdir_not_supported : Bytes → CommandError
  symlink_not_supported : Bytes → Bytes → CommandError
  readlink_not_supported : Bytes → CommandError

-- What `Filelist` returns: a listing, `nil, nil`, or the handler's own error.
pub data Listing : Type 0 where
  lists : List FileInfo → Listing
  nothing : Listing
  refuses : CommandError → Listing

unfoldable pub file_write : Request → Option CommandError
file_write req = some (writing_not_supported req.filepath)

-- `none` is no error.
unfoldable pub file_cmd : Request → Option CommandError
file_cmd req =
    if bytes_eq req.method (codes "Setstat")
    then some (setstat_not_supported req.filepath)
    else (if bytes_eq req.method (codes "Rename")
        then some (renaming_not_supported req.filepath req.target)
        else (if bytes_eq req.method (codes "Rmdir") || bytes_eq req.method (codes "Remove")
            then some (removing_not_supported req.filepath)
            else (if bytes_eq req.method (codes "Mkdir")
                then some (mkdir_not_supported req.filepath)
                else (if bytes_eq req.method (codes "Symlink")
                    then some (symlink_not_supported req.filepath req.target)
                    else none))))

module _ (e : ContentEnc) (big : Bytes → Bool) {S : Type 0} (r : Remote S) (fuel : ℕ) where
  -- The bytes that the reader returned reads from.
  unfoldable pub file_read : Request → M S Bytes
  file_read req = read_file e big r fuel req.filepath

  unfoldable pub file_list : Request → M S Listing
  file_list req =
      if bytes_eq req.method (codes "List")
      then (read_dir e big r fuel req.filepath >>= λ l. pure (lists l))
      else (if bytes_eq req.method (codes "Stat")
          then (stat e big r fuel req.filepath >>= λ i. pure (lists (i ∷ [])))
          else (if bytes_eq req.method (codes "Readlink")
              then pure (refuses (readlink_not_supported req.filepath))
              else pure nothing))
