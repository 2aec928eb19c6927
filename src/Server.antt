-- ===== src/Server.antt =====
-- main.go: the password check, the requests on a channel, and the channel's life. The network, the
-- SSH server and the sftp server are the environment.
pub mod Requests
mod Tests
use gocryptsftp.Base.{
  ℕ, Bool, true, false, ◌&&◌, Option, none, some, List, [], ◌∷◌, ◌++◌, Bytes, codes, bytes_eq, ltb,
  length, drop, if◌then◌else◌,
}
use gocryptsftp.Requester.Defs.{ErrorCode}
use gocryptsftp.FileTree.Defs.{Answer, gives, fails}
use gocryptsftp.Config
use gocryptsftp.Config.{
  Config, Libraries, KeyResult, loaded, no_key, load_config, load_ssh_key,
  get_decryption_passphrase,
}

-- `PasswordCallback`: `none` accepts, `some` rejects the user.
unfoldable pub password_callback : Config → Bytes → Bytes → Option Bytes
password_callback c user pass =
    if bytes_eq user c.proxy_user && bytes_eq pass c.proxy_password then none else some user

pub record ChannelRequest : Type 0 where
  pub request_type : Bytes
  pub payload : Bytes

-- The replies, and whether the goroutine stopped the program: `req.Payload[4:]` panics.
pub record Served : Type 0 where
  pub replies : List Bool
  pub panicked : Bool

abbrev pub reply : Bool → Served → Served
reply ok s = record s { replies = ok ∷ s.replies }

abbrev pub is_subsystem : ChannelRequest → Bool
is_subsystem r = bytes_eq r.request_type (codes "subsystem")

unfoldable pub serve_requests : List ChannelRequest → Served
serve_requests [] = record { replies = []; panicked = false }
serve_requests (r ∷ rs) =
    let rest = serve_requests rs in
    if is_subsystem r
    then (if ltb (length r.payload) 4
        then record { replies = []; panicked = true }
        else reply (bytes_eq (drop 4 r.payload) (codes "sftp")) rest)
    else reply false rest

-- What `handleChannel` does with a channel.
pub data Event : Type 0 where
  rejects : Event  -- with `UnknownChannelType`
  accepts : Event
  serves_requests : Event  -- in a goroutine of its own
  serves_sftp : Event
  closes_server : Event

-- How `server.Serve()` ends.
pub data Ending : Type 0 where
  at_eof : Ending
  with_error : ErrorCode → Ending
  no_error : Ending

abbrev ended : Ending → List Event
ended at_eof = closes_server ∷ []
ended _ = []

abbrev accepted : Option ErrorCode → Ending → List Event
accepted (some e) ending = []
accepted none ending = accepts ∷ serves_requests ∷ serves_sftp ∷ ended ending

unfoldable pub handle_channel : Bytes → Option ErrorCode → Ending → List Event
handle_channel channel_type accept_error ending =
    if bytes_eq channel_type (codes "session") then accepted accept_error ending else rejects ∷ []

-- An attempt to connect: `Accept` fails, or the handshake does, or it is served.
pub data Attempt : Type 0 where
  not_accepted : ErrorCode → Attempt
  no_handshake : ErrorCode → Attempt
  connected : ℕ → Attempt

-- The loop of `main` goes on after a failure.
unfoldable pub accept_loop : List Attempt → List ℕ
accept_loop [] = []
accept_loop (not_accepted e ∷ as') = accept_loop as'
accept_loop (no_handshake e ∷ as') = accept_loop as'
accept_loop (connected n ∷ as') = n ∷ accept_loop as'

-- How `main` ends before it listens.
pub data Fatal : Type 0 where
  loading_config : ErrorCode → Fatal
  loading_key : Config.KeyError → Fatal
  parsing_known_hosts : ErrorCode → Fatal
  getting_passphrase : ErrorCode → Fatal
  initializing_handler : ErrorCode → Fatal
  listening : ErrorCode → Fatal

pub data StartUp : Type 0 where
  fatal : Fatal → StartUp
  listens : Config → StartUp
  start_panics : StartUp

-- The other calls of `main`: the known hosts file, the handlers for a root and a passphrase, and
-- the listener.
pub record Environment : Type 0 where
  pub known_hosts_error : Bytes → Option ErrorCode
  pub handler_error : Bytes → Bytes → Option ErrorCode
  pub listen_error : Option ErrorCode

module _ (l : Libraries) (env : Environment) where
  abbrev listened : Config → Option ErrorCode → StartUp
  listened c (some e) = fatal (listening e)
  listened c none = listens c

  abbrev initialized : Config → Option ErrorCode → StartUp
  initialized c (some e) = fatal (initializing_handler e)
  initialized c none = listened c env.listen_error

  abbrev got_passphrase : Config → Answer Bytes × l.Terminal → StartUp × l.Terminal
  got_passphrase c (fails e, s) = (fatal (getting_passphrase e), s)
  got_passphrase c (gives p, s) = (initialized c (env.handler_error c.remote.file_root p), s)

  abbrev got_hosts : Config → l.Terminal → Option ErrorCode → StartUp × l.Terminal
  got_hosts c s (some e) = (fatal (parsing_known_hosts e), s)
  got_hosts c s none = got_passphrase c (get_decryption_passphrase l c s)

  abbrev got_key : Config → KeyResult l.Signer × l.Terminal → StartUp × l.Terminal
  got_key c (no_key e, s) = (fatal (loading_key e), s)
  got_key c (Config.key_panics, s) = (start_panics, s)
  got_key c (loaded k, s) = got_hosts c s (env.known_hosts_error c.known_hosts_path)

  abbrev got_config : Answer Config → l.Terminal → StartUp × l.Terminal
  got_config (fails e) s = (fatal (loading_config e), s)
  got_config (gives c) s = got_key c (load_ssh_key l c s)

  unfoldable pub start_up : Bytes → l.Terminal → StartUp × l.Terminal
  start_up config_path s = got_config (load_config l config_path) s
