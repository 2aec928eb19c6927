-- ===== src/Handlers/Proxy.antt =====
-- handlers/proxy.go: the handlers of the reference proxy, which decrypts nothing.
use gocryptsftp.Base.{Option, none, some, List, [], ◌∷◌, Bytes, bytes_eq, codes, if◌then◌else◌}
use gocryptsftp.Requester.Defs.{FileInfo}
use gocryptsftp.FileTree.Defs.{Answer, gives, fails}
use gocryptsftp.Handlers.Decrypt.{Request, CommandError, writing_not_supported, file_cmd}

-- The client of github.com/pkg/sftp that the proxy passes requests on to.
pub record SftpClient (S : Type 0) : Type 1 where
  pub File : Type 0
  pub open_file : Bytes → S → Answer File × S
  pub write_to : File → S → Answer Bytes × S
  pub read_dir : Bytes → S → Answer (List FileInfo) × S
  pub stat : Bytes → S → Answer FileInfo × S
  pub read_link : Bytes → S → Answer Bytes × S

abbrev pub then_with : {S A B : Type 0} → Answer A × S → (A → S → Answer B × S) → Answer B × S
then_with (gives a, s) k = k a s
then_with (fails e, s) k = (fails e, s)

abbrev pub one : {S : Type 0} → FileInfo → S → Answer (Option (List FileInfo)) × S
one i s = (gives (some (i ∷ [])), s)

module _ {S : Type 0} (client : SftpClient S) where
  -- The file that was opened stays open.
  unfoldable pub file_read : Request → S → Answer Bytes × S
  file_read req s = then_with (client.open_file req.filepath s) client.write_to

  unfoldable pub file_write : Request → Option CommandError
  file_write req = some (writing_not_supported req.filepath)

  -- The same refusals as in handlers/decrypt.go.
  unfoldable pub proxy_cmd : Request → Option CommandError
  unfolding file_cmd
  proxy_cmd req = file_cmd req

  -- A method that it does not know gives `nil, nil`.
  unfoldable pub file_list : Request → S → Answer (Option (List FileInfo)) × S
  file_list req s =
      if bytes_eq req.method (codes "List")
      then then_with (client.read_dir req.filepath s) (λ l s'. (gives (some l), s'))
      else (if bytes_eq req.method (codes "Stat")
          then then_with (client.stat req.filepath s) one
          else (if bytes_eq req.method (codes "Readlink")
              then then_with (client.read_link req.filepath s)
                  (λ target s₁. then_with (client.stat target s₁) one)
              else (gives none, s)))
