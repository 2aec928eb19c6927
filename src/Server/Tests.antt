-- ===== src/Server/Tests.antt =====
-- Requests on a channel.
use gocryptsftp.Base.{◌≡◌, refl, true, false, List, [], ◌∷◌, ◌++◌, arith, Bytes, codes, bytes_eq}
use gocryptsftp.Config.{Config}
use gocryptsftp.Server.{ChannelRequest, serve_requests}
use gocryptsftp.Server.Requests.{serve_requests-short}

program : Unit {0}
unfolding bytes_eq
program = tt

abbrev config : Config
config = record {
  proxy_user = codes "u";
  proxy_password = codes "p";
  known_hosts_path = codes "/h";
  remote = record {
    addr = codes "a";
    file_root = codes "/r";
    user = codes "u";
    private_key_path = codes "/k";
  };
}

abbrev request : Bytes → Bytes → ChannelRequest
request t p = record { request_type = t; payload = p }

abbrev framed : List ChannelRequest
framed = request (codes "env") [] ∷ request (codes "subsystem") (0 ∷ 0 ∷ 0 ∷ 4 ∷ codes "sftp") ∷ []

serve_requests-short_example :
    serve_requests (framed ++ (request (codes "subsystem") (1 ∷ []) ∷ []))
    ≡ record { replies = false ∷ true ∷ []; panicked = true }
unfolding program
serve_requests-short_example =
    serve_requests-short framed (request (codes "subsystem") (1 ∷ [])) []
      ((λ h. cc), ((λ h. omega arith), tt)) refl (omega arith)
