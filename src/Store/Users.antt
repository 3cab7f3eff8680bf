-- ===== src/Store/Users.antt =====
-- internal/store/users.go: accounts and sessions, with the triggers of schema.sql that end sessions.
-- A statement runs alone on the one connection pool, so a method is a function of the two tables.
pub mod Access
use ovcp.Base.{
  [], ℕ, ◌+◌, ◌-◌, ◌*◌, ◌/◌, ◌%◌, ◌^◌, max, ◌≤◌, ◌<◌, ◌≡◌, ◌∙◌, ◌≢◌, ◌↔◌, ◌⊎◌, Bool, false, not,
  ◌&&◌, ◌||◌, Option, none, some, List, ◌∷◌, ◌++◌, map, ltb, ◌==◌, if◌then◌else◌, keep, any, find,
  Text, codes, text_eq, Result, ok, err, ◌>>=◌, ◌>>◌, refuse,
}
use ovcp.Store.Names.{check_name}
use ovcp.Store.Totp.{Gcm, encrypt_totp, decrypt_totp}

pub record User : Type 0 where
  pub id : ℕ
  pub username : Text
  pub pass_hash : Text
  pub role : Text
  pub totp_secret : Text
  pub disabled : Bool
  pub created_at : ℕ

pub record Session : Type 0 where
  pub token_hash : Text
  pub user_id : ℕ
  pub created_at : ℕ
  pub expires_at : ℕ

pub record Accounts : Type 0 where
  pub users : List User
  pub sessions : List Session

-- `no_rows` is sql.ErrNoRows.
pub data Error : Type 0 where
  bad_name constraint no_such_user no_rows corrupt_totp : Error

abbrev pub has_name : Text → User → Bool
has_name name u = text_eq u.username name

abbrev pub has_id : ℕ → User → Bool
has_id id u = u.id == id

-- The CHECK of the role column.
abbrev is_role : Text → Bool
is_role r =
    text_eq r (codes "admin") || text_eq r (codes "operator") || text_eq r (codes "readonly")

-- SQLite gives a new row the largest id and one more.
unfoldable pub next_id : List User → ℕ
next_id [] = 1
next_id (u ∷ us) = max (u.id + 1) (next_id us)

unfoldable pub add_user : Accounts → ℕ → Text → Text → Text → Result Error (ℕ × Accounts)
unfolding any next_id
add_user a now username pass_hash role = do
  refuse (not (check_name username)) bad_name
  refuse (any (has_name username) a.users || not (is_role role)) constraint
  let id = next_id a.users
  let new : User = record {
    id = id;
    username = username;
    pass_hash = pass_hash;
    role = role;
    totp_secret = [];
    disabled = false;
    created_at = now;
  }
  ok (id, record a { users = new ∷ a.users })

-- `scanUser`: the row with its TOTP secret in the clear.
unfoldable pub scan_user : Gcm → User → Result Error User
scan_user g u = elim (decrypt_totp g u.totp_secret) [
  | ok secret ↦ ok (record u { totp_secret = secret })
  | err e ↦ err corrupt_totp
]

unfoldable pub get_user : Gcm → Accounts → Text → Result Error User
unfolding find scan_user
get_user g a username = elim (find (has_name username) a.users) [
  | none ↦ err no_rows
  | some u ↦ scan_user g u
]

unfoldable pub scan_users : Gcm → List User → Result Error (List User)
unfolding scan_user
scan_users g [] = ok []
scan_users g (u ∷ us) = do v ← scan_user g u; vs ← scan_users g us; ok (v ∷ vs)

-- `UPDATE users SET ... WHERE username=?`, with `mustAffect`.
unfoldable pub update_user : Text → (User → User) → List User → Result Error (List User)
unfolding any
update_user name f us =
    if any (has_name name) us
    then ok (map (λ u. if has_name name u then f u else u) us)
    else err no_such_user

unfoldable pub set_user_disabled : Accounts → Text → Bool → Result Error Accounts
unfolding update_user
set_user_disabled a name disabled = do
  us ← update_user name (λ u. record u { disabled = disabled }) a.users
  ok (record a { users = us })

-- The trigger `sessions_end_on_password`: the sessions of the rows that were updated.
unfoldable pub end_sessions : Text → List User → List Session → List Session
unfolding any keep
end_sessions name us = keep (λ s. not (any (λ u. has_name name u && has_id s.user_id u) us))

unfoldable pub set_user_password : Accounts → Text → Text → Result Error Accounts
unfolding update_user end_sessions
set_user_password a name pass_hash = do
  us ← update_user name (λ u. record u { pass_hash = pass_hash }) a.users
  ok (record a { users = us; sessions = end_sessions name a.users a.sessions })

unfoldable pub set_user_totp : Gcm → Accounts → Text → Text → Text → Result Error Accounts
unfolding update_user
set_user_totp g a nonce name secret = do
  us ← update_user name (λ u. record u { totp_secret = encrypt_totp g nonce secret }) a.users
  ok (record a { users = us })

-- `DELETE FROM users`, which cascades to the sessions.
unfoldable pub delete_user : Accounts → Text → Result Error Accounts
unfolding any keep end_sessions
delete_user a name =
    if any (has_name name) a.users
    then ok (record {
      users = keep (λ u. not (has_name name u)) a.users;
      sessions = end_sessions name a.users a.sessions;
    })
    else err no_such_user

abbrev pub has_token : Text → Session → Bool
has_token hash s = text_eq s.token_hash hash

-- The insert, then the trigger `sessions_sweep`.
unfoldable pub add_session : Accounts → ℕ → Text → ℕ → ℕ → Result Error Accounts
unfolding any keep
add_session a now hash user_id ttl = do
  refuse (any (has_token hash) a.sessions || not (any (has_id user_id) a.users)) constraint
  let new : Session = record {
    token_hash = hash;
    user_id = user_id;
    created_at = now;
    expires_at = now + ttl;
  }
  ok (record a { sessions = keep (λ s. ltb now s.expires_at) (new ∷ a.sessions) })

-- `none` is the nil user of an unknown, ended or expired session, or of a disabled account.
unfoldable pub session_user : Gcm → Accounts → ℕ → Text → Result Error (Option User)
unfolding find scan_user
session_user g a now hash = elim (find (λ s. has_token hash s && ltb now s.expires_at) a.sessions) [
  | none ↦ ok none
  | some s ↦ elim (find (λ u. has_id s.user_id u && not u.disabled) a.users) [
    | none ↦ ok none
    | some u ↦ scan_user g u >>= λ v. ok (some v)
  ]
]

unfoldable pub delete_session : Accounts → Text → Accounts
unfolding keep
delete_session a hash = record a { sessions = keep (λ s. not (has_token hash s)) a.sessions }
