-- ===== src/Server/Requests.antt =====
-- Who may log in, and which requests on a channel are accepted.
use gocryptsftp.Base.{
  ◌≤◌, ◌<◌, ◌≡◌, refl, inl, inr, Bool, true, false, ◌&&◌, none, List, [], ◌∷◌, ◌++◌, arith, Bytes,
  codes, bytes_eq, bytes_eq_iff, ◌↔◌, length, drop, map, Bool-cases,
}
use gocryptsftp.Config.{Config}
use gocryptsftp.Server.{password_callback, ChannelRequest, is_subsystem, serve_requests}

-- A login is accepted exactly with the user and the password of the configuration.
pub password_callback_iff :
    (c : Config) (user pass : Bytes)
    → (password_callback c user pass ≡ none) ↔ ((user ≡ c.proxy_user) × (pass ≡ c.proxy_password))
unfolding password_callback
password_callback_iff c user pass = (
  λ h. ground (arith, bytes_eq_iff user c.proxy_user, bytes_eq_iff pass c.proxy_password),
  λ h. ground (arith, bytes_eq_iff user c.proxy_user, bytes_eq_iff pass c.proxy_password),
)

-- A request for a subsystem has the four bytes of a length.
abbrev pub IsFramed : ChannelRequest → Type 0
IsFramed r = is_subsystem r ≡ true → 4 ≤ length r.payload

abbrev pub AllFramed : List ChannelRequest → Type 0
AllFramed [] = Unit
AllFramed (r ∷ rs) = IsFramed r × AllFramed rs

abbrev pub asks_for_sftp : ChannelRequest → Bool
asks_for_sftp r = is_subsystem r && bytes_eq (drop 4 r.payload) (codes "sftp")

-- Every request gets its reply, in order, if no request for a subsystem has fewer than four bytes
-- of payload: yes for the subsystem sftp, and no otherwise.
pub serve_requests-replies :
    (rs : List ChannelRequest)
    → AllFramed rs
    → serve_requests rs ≡ record { replies = map asks_for_sftp rs; panicked = false }
unfolding serve_requests
serve_requests-replies [] h = refl
serve_requests-replies (q ∷ rs) h = elim (Bool-cases (is_subsystem q)) [
  | inl sub ↦ ground (arith, sub, h.0, serve_requests-replies rs h.1)
  | inr other ↦ ground (arith, other, serve_requests-replies rs h.1)
]

-- A request for a subsystem with fewer than four bytes of payload stops the program, whatever
-- comes before and after it.
pub serve_requests-short :
    (rs : List ChannelRequest) (r : ChannelRequest) (more : List ChannelRequest)
    → AllFramed rs
    → is_subsystem r ≡ true
    → length r.payload < 4
    → serve_requests (rs ++ (r ∷ more)) ≡ record { replies = map asks_for_sftp rs; panicked = true }
unfolding serve_requests
serve_requests-short [] r more h sub short = ground (arith, sub, short)
serve_requests-short (q ∷ rs) r more h sub short = elim (Bool-cases (is_subsystem q)) [
  | inl s ↦ ground (arith, s, h.0, serve_requests-short rs r more h.1 sub short)
  | inr other ↦ ground (arith, other, serve_requests-short rs r more h.1 sub short)
]
