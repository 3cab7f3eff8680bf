-- ===== src/Auth/Login.antt =====
-- internal/auth/auth.go, `Service`: `Login`, `Validate` and `Logout`, over the two limiters, the
-- account tables and the audit log. In `login` a call runs alone; module Overlapping lets logins overlap,
-- each as its question to the limiters and the rest. What the service reads from outside is in `World`: the clock, the random
-- token, argon2, SHA-256, base32, HMAC and AES-GCM.
pub mod Outcome
pub mod Guessing
pub mod Overlapping
pub mod Crowded
use ovcp.Base.{
  [], ℕ, ◌+◌, ◌-◌, ◌*◌, ◌/◌, ◌%◌, ◌^◌, ◌≤◌, ◌<◌, ◌≡◌, ◌∙◌, ◌≢◌, ◌↔◌, ◌⊎◌, not, ◌&&◌, ◌||◌, Option,
  none, Bool, false, List, ◌∷◌, ◌++◌, ◌==◌, if◌then◌else◌, Text, codes, is_empty, Result, ok, err,
  ◌>>=◌, ◌>>◌,
}
use ovcp.Auth.Limiter.{Limiter, new_limiter, allow, fail, reset}
use ovcp.Auth.Passwords.{Kdf, verify_password}
use ovcp.Auth.Totp.{Mac, totp_verify}
use ovcp.Store.Names.{check_name}
use ovcp.Store.Totp.{Gcm}
use ovcp.Store.Users.{Accounts, User, get_user, add_session, session_user, delete_session}
use ovcp.Store.Users

pub record World : Type 0 where
  pub now : ℕ
  pub token : Text
  pub kdf : Kdf
  pub hash_token : Text → Text
  pub mac : Mac
  pub gcm : Gcm

pub record AuditEntry : Type 0 where
  pub actor : Text
  pub action : Text
  pub detail : Text

pub record Service : Type 0 where
  pub accounts : Accounts
  pub audit : List AuditEntry
  pub limiter : Limiter
  pub user_limiter : Limiter

pub data Error : Type 0 where
  bad_credentials totp_required rate_limited : Error
  store_failed : Users.Error → Error

-- 12 * time.Hour
abbrev pub session_ttl : ℕ
session_ttl = 12 * 60 * 60

unfoldable pub new_service : Accounts → Service
new_service a = record {
  accounts = a;
  audit = [];
  limiter = new_limiter 5 (15 * 60);
  user_limiter = new_limiter 20 (15 * 60);
}

abbrev pub note : Service → Text → Text → Text → List AuditEntry
note s actor action detail = record { actor = actor; action = action; detail = detail } ∷ s.audit

-- username + "|" + ip
abbrev pub bucket : Text → Text → Text
bucket username ip = username ++ (b'|' ∷ ip)

-- No such user can exist, and raw input stays out of the audit log.
abbrev pub known_name : Text → Text
known_name username = if check_name username then username else codes "?"

-- The closure `fail`.
unfoldable pub login_fail : World → Service → Text → Text → Service × Result Error (Text × User)
login_fail w s username ip = (
  record s {
    limiter = fail s.limiter w.now (bucket username ip);
    user_limiter = fail s.user_limiter w.now username;
    audit = note s username (codes "login_fail") (codes "ip=" ++ ip);
  },
  err bad_credentials,
)

-- From the random token on.
unfoldable pub login_pass :
    World → Service → User → Text → Text → Service × Result Error (Text × User)
login_pass w s u username ip =
    elim (add_session s.accounts w.now (w.hash_token w.token) u.id session_ttl) [
      | err e ↦ (s, err (store_failed e))
      | ok accounts ↦ (
        record s {
          accounts = accounts;
          limiter = reset s.limiter (bucket username ip);
          user_limiter = reset s.user_limiter username;
          audit = note s username (codes "login") (codes "ip=" ++ ip);
        },
        ok (w.token, u),
      )
    ]

-- The checks on an account that was found and is not disabled.
unfoldable pub login_check :
    World → Service → User → Text → Text → Text → Text → Service × Result Error (Text × User)
unfolding login_fail login_pass
login_check w s u username password code ip =
    if not (verify_password w.kdf password u.pass_hash)
    then login_fail w s username ip
    else if is_empty u.totp_secret
    then login_pass w s u username ip
    else if is_empty code
    then (s, err totp_required)
    else if totp_verify w.mac u.totp_secret code w.now
    then login_pass w s u username ip
    else login_fail w s username ip

-- What was looked up: an account that is missing, unreadable or disabled fails like a bad password.
unfoldable pub login_found :
    World
    → Service
    → Text
    → Text
    → Text
    → Text
    → Result Users.Error User
    → Service × Result Error (Text × User)
unfolding login_fail login_check
login_found w s username password code ip (err e) = login_fail w s username ip
login_found w s username password code ip (ok u) =
    if u.disabled then login_fail w s username ip else login_check w s u username password code ip

unfoldable pub login_user :
    World → Service → Text → Text → Text → Text → Service × Result Error (Text × User)
unfolding login_found
login_user w s username password code ip =
    login_found w s username password code ip (get_user w.gcm s.accounts username)

-- The head of `Login`: the two limiters are asked in turn, the second only if the first allows.
unfoldable pub login_admit : World → Service → Text → Text → Service × Bool
unfolding allow
login_admit w s raw ip =
    let username = known_name raw in
    let (limiter, allowed) = allow s.limiter w.now (bucket username ip) in
    let s₁ : Service = record s { limiter = limiter } in
    if not allowed
    then (s₁, false)
    else let (user_limiter, user_allowed) = allow s₁.user_limiter w.now username in
      (record s₁ { user_limiter = user_limiter }, user_allowed)

-- `Login` with nothing in between.
unfoldable pub login :
    World → Service → Text → Text → Text → Text → Service × Result Error (Text × User)
unfolding login_user
login w s raw password code ip =
    let username = known_name raw in
    let (limiter, allowed) = allow s.limiter w.now (bucket username ip) in
    let s₁ : Service = record s { limiter = limiter } in
    if not allowed
    then (s₁, err rate_limited)
    else let (user_limiter, user_allowed) = allow s.user_limiter w.now username in
      let s₂ : Service = record s₁ { user_limiter = user_limiter } in
      if not user_allowed then (s₂, err rate_limited) else login_user w s₂ username password code ip

unfoldable pub validate : World → Service → Text → Result Users.Error (Option User)
validate w s token =
    if is_empty token then ok none else session_user w.gcm s.accounts w.now (w.hash_token token)

unfoldable pub logout : World → Service → Text → Service
logout w s token = record s { accounts = delete_session s.accounts (w.hash_token token) }
