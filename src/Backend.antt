-- ===== src/Backend.antt =====
-- backend/pool.go and backend/provider.go: calls of a `Provider` by several goroutines, which share
-- a pool of connections. A goroutine moves from one access of the pool, or one answer of a server,
-- to the next. The SSH and SFTP clients are the environment, which chooses the answers.
pub mod Sound
pub mod Reach
mod Tests
use gocryptsftp.Base.{
  ℕ, ◌+◌, Bool, true, false, Option, none, some, List, [], ◌∷◌, ◌++◌, Bytes, if◌then◌else◌, ◌==◌,
  ltb, length,
}
use gocryptsftp.Requester.Defs.{FileInfo, ErrorCode}
use gocryptsftp.FileTree.Defs.{Answer, gives, fails}

-- What `newConn` meets: `ssh.Dial` fails, or `sftp.NewClient` does and the SSH client is closed
-- again, or there is a connection.
pub data Dial : Type 0 where
  dial_fails sftp_fails : ErrorCode → Dial
  connects : Dial

pub data Operation : Type 0 where
  read_file read_dir stat : Operation

pub data Value : Type 0 where
  opened : Value  -- the result of `Open`, on the way of `ReadFile`
  bytes_of_file : Bytes → Value
  listing : List FileInfo → Value
  info : FileInfo → Value

-- What a call returns.
pub data Result : Type 0 where
  returns : Value → Result
  connect_error : ErrorCode → Result
  session_error : ErrorCode → Result
  request_error : ErrorCode → Result

-- Where a goroutine stands. A connection is named by its number.
pub data Pc : Type 0 where
  idle : Pc
  getting : Operation → Pc  -- before `p.p.Get()`
  using : Operation → ℕ → Pc  -- in the request to the server
  writing : ℕ → Pc  -- in `file.WriteTo(buf)`; the open file is this goroutine's own
  pinging : ℕ → ErrorCode → Pc  -- in `SendRequest("ping", …)`
  putting : ℕ → Result → Pc  -- before `p.p.Put(c)`
  closing : ℕ → Result → Pc  -- before `c.Close()`
  done : Result → Pc

pub record Provider : Type 0 where
  pub conns : List ℕ  -- the buffered channel
  pub capacity : ℕ
  pub next_conn : ℕ
  pub closed : List ℕ
  pub pcs : ℕ → Pc

abbrev pub update {ℓ} : {A : Type ℓ} → (ℕ → A) → ℕ → A → ℕ → A
update f i a j = if i == j then a else f j

unfoldable pub new_provider : Provider
new_provider = record { conns = []; capacity = 32; next_conn = 0; closed = []; pcs = λ _. idle }

abbrev pub move : Provider → ℕ → Pc → Provider
move s g pc = record s { pcs = update s.pcs g pc }

unfoldable pub new_conn : Provider → ℕ → Operation → Dial → Provider
new_conn s g op (dial_fails e) = move s g (done (connect_error e))
new_conn s g op (sftp_fails e) = move s g (done (session_error e))
new_conn s g op connects = record s {
  next_conn = s.next_conn + 1;
  pcs = update s.pcs g (using op s.next_conn);
}

-- `Get`. No one closes the channel or puts `nil` into it, so what it gives is a connection.
unfoldable pub get : Provider → ℕ → Operation → Dial → List ℕ → Provider
unfolding new_conn
get s g op dial (c ∷ rest) = record s { conns = rest; pcs = update s.pcs g (using op c) }
get s g op dial [] = new_conn s g op dial

-- `c.Close()`
unfoldable pub close : Provider → ℕ → ℕ → Result → Provider
close s g c r = record s { closed = c ∷ s.closed; pcs = update s.pcs g (done r) }

unfoldable pub put : Provider → ℕ → ℕ → Result → Provider
unfolding close
put s g c r =
    if ltb (length s.conns) s.capacity
    then record s { conns = s.conns ++ (c ∷ []); pcs = update s.pcs g (done r) }
    else close s g c r

-- After the answer to the request: `ReadFile` has opened a file, the others are through.
unfoldable pub answered : Operation → ℕ → Answer Value → Pc
answered op c (fails e) = pinging c e
answered read_file c (gives _) = writing c
answered read_dir c (gives v) = putting c (returns v)
answered stat c (gives v) = putting c (returns v)

-- After `WriteTo`: with or without an error the connection goes back.
unfoldable pub written : ℕ → Answer Bytes → Pc
written c (gives b) = putting c (returns (bytes_of_file b))
written c (fails e) = putting c (request_error e)

unfoldable pub pinged : ℕ → ErrorCode → Option ErrorCode → Pc
pinged c e (some _) = closing c (request_error e)
pinged c e none = putting c (request_error e)

pub data Action : Type 0 where
  calls : Operation → Action
  gets : Dial → Action
  answers : Answer Value → Action
  writes : Answer Bytes → Action
  pings : Option ErrorCode → Action
  puts closes : Action

-- A step of goroutine `g` at its program point; `none` if the action is of another point.
unfoldable pub step_at : Provider → ℕ → Action → Pc → Option Provider
unfolding answered written pinged
step_at s g (calls op) idle = some (move s g (getting op))
step_at s g (calls op) (done r) = some (move s g (getting op))
step_at s g (gets dial) (getting op) = some (get s g op dial s.conns)
step_at s g (answers x) (using op c) = some (move s g (answered op c x))
step_at s g (writes x) (writing c) = some (move s g (written c x))
step_at s g (pings x) (pinging c e) = some (move s g (pinged c e x))
step_at s g puts (putting c r) = some (put s g c r)
step_at s g closes (closing c r) = some (close s g c r)
step_at s g _ _ = none

infixl 5 ◌>>=◌
abbrev pub ◌>>=◌ : Option Provider → (Provider → Option Provider) → Option Provider
none >>= f = none
some s >>= f = f s

unfoldable pub run : List (ℕ × Action) → Provider → Option Provider
unfolding step_at
run [] s = some s
run ((g, a) ∷ as') s = do s' ← step_at s g a (s.pcs g); run as' s'
