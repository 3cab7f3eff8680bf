-- ===== src/Auth/Login/Outcome.antt =====
-- What a login that succeeds has shown, and what each outcome does to the state.
use ovcp.Base.{
  [], ℕ, ◌+◌, ◌≤◌, ◌<◌, ◌≡◌, refl, ◌∙◌, ◌⊎◌, inl, inr, Bool, true, false, not, ◌&&◌, some, List,
  ◌∷◌, ◌++◌, arith, Bool-cases, if-intro, Option-cases, find, find-not, IsDistinct, Text, codes,
  is_empty, Result, ok, err, Result-cases,
}
use ovcp.Auth.Limiter.{allow, fail, reset}
use ovcp.Auth.Passwords.{verify_password}
use ovcp.Auth.Totp.{totp_verify}
use ovcp.Store.Users.{Accounts, User, get_user, add_session, has_id, has_name, scan_user}
use ovcp.Store.Users
use ovcp.Store.Users.Access.{add_session-session_user}
use ovcp.Auth.Login.{
  login_found, World, Service, Error, bad_credentials, totp_required, rate_limited, store_failed,
  session_ttl, note, bucket, known_name, login_fail, login_pass, login_check, login_user, login,
  validate,
}

-- The second factor, where the account has one.
abbrev pub FactorOk : World → User → Text → Type 0
FactorOk w u code =
    (is_empty u.totp_secret ≡ true)
    ⊎ ((is_empty code ≡ false) × (totp_verify w.mac u.totp_secret code w.now ≡ true))

-- All that a token stands for.
pub record Granted (w : World) (s : Service) (raw password code ip token : Text) (u : User)
    : Type 0 where
  pub source_allowed : (allow s.limiter w.now (bucket (known_name raw) ip)).1 ≡ true
  pub user_allowed : (allow s.user_limiter w.now (known_name raw)).1 ≡ true
  pub found : get_user w.gcm s.accounts (known_name raw) ≡ ok u
  pub enabled : u.disabled ≡ false
  pub password_ok : verify_password w.kdf password u.pass_hash ≡ true
  pub factor_ok : FactorOk w u code
  pub token_is : token ≡ w.token

login_pass-token :
    (w : World) (s : Service) (u v : User) (username ip token : Text)
    → (login_pass w s u username ip).1 ≡ ok (token, v)
    → (token ≡ w.token) × (v ≡ u)
unfolding login_pass
login_pass-token w s u v username ip token h = (ground arith, ground arith)

login_check-Granted :
    (w : World) (s : Service) (u v : User) (username password code ip token : Text)
    → (login_check w s u username password code ip).1 ≡ ok (token, v)
    → (verify_password w.kdf password u.pass_hash ≡ true)
      × FactorOk w u code
      × (token ≡ w.token)
      × (v ≡ u)
unfolding login_check login_fail
login_check-Granted w s u v username password code ip token h =
    ground (arith, login_pass-token w s u v username ip token)

login_user-Granted :
    (w : World) (s : Service) (v : User) (username password code ip token : Text)
    → (login_user w s username password code ip).1 ≡ ok (token, v)
    → (get_user w.gcm s.accounts username ≡ ok v)
      × (v.disabled ≡ false)
      × (verify_password w.kdf password v.pass_hash ≡ true)
      × FactorOk w v code
      × (token ≡ w.token)
unfolding login_user login_found login_fail
login_user-Granted w s v username password code ip token h =
    elim (Result-cases (get_user w.gcm s.accounts username)) [
      | inr (e, q) ↦ absurd (ground arith)
      | inl (u, q) ↦ elim (Bool-cases u.disabled) [
        | inl d ↦ absurd (ground arith)
        | inr d ↦
            let checked =
              login_check-Granted w s u v username password code ip token (ground arith) in
            rw checked.3 (q, d, checked.0, checked.1, checked.2)
      ]
    ]

-- A login that returns a token was allowed by both limiters, found an account that is not disabled,
-- was given its password and, where it has a second factor, a code of the moment; the token is the
-- random one.
pub login-Granted :
    (w : World) (s : Service) (raw password code ip token : Text) (u : User)
    → (login w s raw password code ip).1 ≡ ok (token, u)
    → Granted w s raw password code ip token u
unfolding login
login-Granted w s raw password code ip token u h =
    let name = known_name raw in
    elim (Bool-cases (allow s.limiter w.now (bucket name ip)).1) [
      | inr a ↦ absurd (ground arith)
      | inl a ↦ elim (Bool-cases (allow s.user_limiter w.now name).1) [
        | inr b ↦ absurd (ground arith)
        | inl b ↦
            let r =
              login_user-Granted w
                (record s {
                  limiter = (allow s.limiter w.now (bucket name ip)).0;
                  user_limiter = (allow s.user_limiter w.now name).0;
                })
                u name password code ip token (ground arith) in
            record {
              source_allowed = a;
              user_allowed = b;
              found = r.0;
              enabled = r.1;
              password_ok = r.2;
              factor_ok = r.3;
              token_is = r.4;
            }
      ]
    ]

-- What an outcome leaves behind. A failure is counted by both limiters and audited, a success resets
-- them, opens the session and is audited, and the other outcomes count nothing.
abbrev pub Leaves : World → Service → Service → Text → Text → Result Error (Text × User) → Type 0
Leaves w s s' username ip (err bad_credentials) =
    (s'.accounts ≡ s.accounts)
    × (s'.audit ≡ note s username (codes "login_fail") (codes "ip=" ++ ip))
    × (s'.limiter ≡ fail (allow s.limiter w.now (bucket username ip)).0 w.now (bucket username ip))
    × (s'.user_limiter ≡ fail (allow s.user_limiter w.now username).0 w.now username)
Leaves w s s' username ip (err rate_limited) =
    (s'.accounts ≡ s.accounts)
    × (s'.audit ≡ s.audit)
    × (s'.limiter ≡ (allow s.limiter w.now (bucket username ip)).0)
    × ((s'.user_limiter ≡ s.user_limiter)
        ⊎ (s'.user_limiter ≡ (allow s.user_limiter w.now username).0))
Leaves w s s' username ip (err _) =
    (s'.accounts ≡ s.accounts)
    × (s'.audit ≡ s.audit)
    × (s'.limiter ≡ (allow s.limiter w.now (bucket username ip)).0)
    × (s'.user_limiter ≡ (allow s.user_limiter w.now username).0)
Leaves w s s' username ip (ok (token, u)) =
    (add_session s.accounts w.now (w.hash_token w.token) u.id session_ttl ≡ ok s'.accounts)
    × (s'.audit ≡ note s username (codes "login") (codes "ip=" ++ ip))
    × (s'.limiter ≡ reset (allow s.limiter w.now (bucket username ip)).0 (bucket username ip))
    × (s'.user_limiter ≡ reset (allow s.user_limiter w.now username).0 username)

-- The same for the part behind the limiters, which never answers `rate_limited`.
abbrev pub UserLeaves :
    World → Service → Service → Text → Text → Result Error (Text × User) → Type 0
UserLeaves w s s' username ip (err bad_credentials) =
    (s'.accounts ≡ s.accounts)
    × (s'.audit ≡ note s username (codes "login_fail") (codes "ip=" ++ ip))
    × (s'.limiter ≡ fail s.limiter w.now (bucket username ip))
    × (s'.user_limiter ≡ fail s.user_limiter w.now username)
UserLeaves w s s' username ip (err rate_limited) = ⊥
UserLeaves w s s' username ip (err _) =
    (s'.accounts ≡ s.accounts)
    × (s'.audit ≡ s.audit)
    × (s'.limiter ≡ s.limiter)
    × (s'.user_limiter ≡ s.user_limiter)
UserLeaves w s s' username ip (ok (token, u)) =
    (add_session s.accounts w.now (w.hash_token w.token) u.id session_ttl ≡ ok s'.accounts)
    × (s'.audit ≡ note s username (codes "login") (codes "ip=" ++ ip))
    × (s'.limiter ≡ reset s.limiter (bucket username ip))
    × (s'.user_limiter ≡ reset s.user_limiter username)

abbrev Settled : World → Service → Text → Text → Service × Result Error (Text × User) → Type 0
Settled w s username ip p = UserLeaves w s p.0 username ip p.1

login_fail-UserLeaves :
    (w : World) (s : Service) (username ip : Text)
    → UserLeaves w s (login_fail w s username ip).0 username ip (login_fail w s username ip).1
unfolding login_fail
login_fail-UserLeaves w s username ip = (refl, refl, refl, refl)

login_pass-UserLeaves :
    (w : World) (s : Service) (u : User) (username ip : Text)
    → UserLeaves w s (login_pass w s u username ip).0 username ip (login_pass w s u username ip).1
unfolding login_pass
login_pass-UserLeaves w s u username ip = ground arith

login_check-UserLeaves :
    (w : World) (s : Service) (u : User) (username password code ip : Text)
    → Settled w s username ip (login_check w s u username password code ip)
unfolding login_check
login_check-UserLeaves w s u username password code ip =
    let P = Settled w s username ip in
    let failed = login_fail-UserLeaves w s username ip in
    let passed = login_pass-UserLeaves w s u username ip in
    if-intro P (not (verify_password w.kdf password u.pass_hash)) _ _ failed (
      if-intro P (is_empty u.totp_secret) _ _ passed (
        if-intro P (is_empty code) _ _ (refl, refl, refl, refl)
          (if-intro P (totp_verify w.mac u.totp_secret code w.now) _ _ passed failed)))

login_found-UserLeaves :
    (w : World) (s : Service) (username password code ip : Text) (r : Result Users.Error User)
    → Settled w s username ip (login_found w s username password code ip r)
unfolding login_found
login_found-UserLeaves w s username password code ip (err e) = login_fail-UserLeaves w s username ip
login_found-UserLeaves w s username password code ip (ok u) =
    if-intro (Settled w s username ip) u.disabled _ _ (login_fail-UserLeaves w s username ip)
      (login_check-UserLeaves w s u username password code ip)

pub login_user-UserLeaves :
    (w : World) (s : Service) (username password code ip : Text)
    → UserLeaves w s
        (login_user w s username password code ip).0
        username
        ip
        (login_user w s username password code ip).1
unfolding login_user
login_user-UserLeaves w s username password code ip =
    login_found-UserLeaves w s username password code ip (get_user w.gcm s.accounts username)

UserLeaves-Leaves :
    (w : World) (s s' : Service) (username ip : Text) (r : Result Error (Text × User))
    → UserLeaves w
        (record s {
          limiter = (allow s.limiter w.now (bucket username ip)).0;
          user_limiter = (allow s.user_limiter w.now username).0;
        })
        s'
        username
        ip
        r
    → Leaves w s s' username ip r
UserLeaves-Leaves w s s' username ip (err bad_credentials) h = h
UserLeaves-Leaves w s s' username ip (err rate_limited) h = absurd h
UserLeaves-Leaves w s s' username ip (err totp_required) h = h
UserLeaves-Leaves w s s' username ip (err (store_failed e)) h = h
UserLeaves-Leaves w s s' username ip (ok (token, u)) h = h

-- A login refused as "invalid credentials" is counted once by each limiter and audited, one that
-- returns a token resets both limiters, opens the session and is audited, and the other outcomes
-- change neither the accounts nor the audit log and count nothing.
pub login-Leaves :
    (w : World) (s : Service) (raw password code ip : Text)
    → Leaves w s
        (login w s raw password code ip).0
        (known_name raw)
        ip
        (login w s raw password code ip).1
unfolding login
login-Leaves w s raw password code ip =
    let name = known_name raw in
    elim (Bool-cases (allow s.limiter w.now (bucket name ip)).1) [
      | inr a ↦ rw (a, login) (refl, refl, refl, inl refl)
      | inl a ↦ elim (Bool-cases (allow s.user_limiter w.now name).1) [
        | inr b ↦ rw (a, b, login) (refl, refl, refl, inr refl)
        | inl b ↦
            rw (a, b, login)
              (UserLeaves-Leaves w s _ name ip _ (login_user-UserLeaves w _ name password code ip))
      ]
    ]

find-id :
    (p : User → Bool) (us : List User) (row : User)
    → IsDistinct (λ u v. has_id u.id v) us
    → find p us ≡ some row
    → row.disabled ≡ false
    → find (λ v. has_id row.id v && not v.disabled) us ≡ some row
unfolding find
find-id p [] row u h e = cc
find-id p (y ∷ ys) row u h e = elim (Bool-cases (p y)) [
  | inl q ↦ ground arith
  | inr q ↦
      let f : find p ys ≡ some row = ground arith in
      ground (arith, find-id p ys row u.1 f e, find-not p (has_id y.id) ys row f u.0)
]

get_user-found :
    (w : World) (a : Accounts) (name : Text) (u : User)
    → get_user w.gcm a name ≡ ok u
    → (row : User) × (find (has_name name) a.users ≡ some row)
      × (scan_user w.gcm row ≡ ok u)
      × (row.id ≡ u.id)
      × (row.disabled ≡ u.disabled)
unfolding get_user scan_user
get_user-found w a name u h = elim (Option-cases (find (has_name name) a.users)) [
  | inl e ↦ absurd (ground arith)
  | inr (row, e) ↦ (row, e, ground arith, ground arith, ground arith)
]

-- With distinct account ids and a token that is not empty: the token of a login, handed in again within
-- twelve hours with nothing in between, is that user's.
pub login-validate :
    (w : World) (s : Service) (raw password code ip token : Text) (u : User) (later : ℕ)
    → IsDistinct (λ v v'. has_id v.id v') s.accounts.users
    → is_empty w.token ≡ false
    → (login w s raw password code ip).1 ≡ ok (token, u)
    → w.now ≤ later
    → later < w.now + session_ttl
    → validate (record w { now = later }) (login w s raw password code ip).0 token ≡ ok (some u)
unfolding validate
login-validate w s raw password code ip token u later d n h le lt =
    let g = login-Granted w s raw password code ip token u h in
    let left = login-Leaves w s raw password code ip in
    let settled : Leaves w s (login w s raw password code ip).0 (known_name raw) ip
        (ok (token, u)) =
      rw h at left in
    let (row, f, scanned, same_id, same_disabled) =
      get_user-found w s.accounts (known_name raw) u g.found in
    let again =
      find-id (has_name (known_name raw)) s.accounts.users row d f (same_disabled ∙ g.enabled) in
    let resolved =
      add_session-session_user w.gcm s.accounts (login w s raw password code ip).0.accounts w.now
        later u.id session_ttl (w.hash_token w.token) settled.0 lt le in
    ground (arith, g.token_is)

-- "Invalid credentials" is answered only where the account's limiter allowed the attempt.
pub login-allowed :
    (w : World) (s : Service) (raw password code ip : Text)
    → (login w s raw password code ip).1 ≡ err bad_credentials
    → (allow s.user_limiter w.now (known_name raw)).1 ≡ true
unfolding login
login-allowed w s raw password code ip h =
    let name = known_name raw in
    elim (Bool-cases (allow s.limiter w.now (bucket name ip)).1) [
      | inr a ↦ absurd (ground arith)
      | inl a ↦ elim (Bool-cases (allow s.user_limiter w.now name).1) [
        | inr b ↦ absurd (ground arith)
        | inl b ↦ b
      ]
    ]
