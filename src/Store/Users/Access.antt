-- ===== src/Store/Users/Access.antt =====
-- Which sessions resolve to an account: a new password, a disabled and a deleted account end all of
-- them, a logout ends its own, and a login's session lasts for its term.
use ovcp.Base.{
  [], ℕ, ◌+◌, ◌≤◌, ◌<◌, ◌≡◌, refl, ◌≢◌, inl, inr, true, false, not, ◌&&◌, none, some, List, ◌∷◌,
  map, arith, ltb, if◌then◌else◌, Option-cases, keep, any, find, any-map, find-holds, find-not,
  find-keep, find-keep_of_imp, find-keep-none, Text, text_discrete, text_eq, ok, ◌>>=◌,
}
use ovcp.Store.Users.{
  User, Session, Accounts, has_name, has_id, has_token, scan_user, update_user, set_user_disabled,
  end_sessions, set_user_password, delete_user, add_session, session_user, delete_session,
}
use ovcp.Store.Totp.{Gcm}

-- A session that resolves: its row, and the row of its user.
record Resolves (a : Accounts) (now : ℕ) (hash : Text) (v : User) : Type 0 where
  session : Session
  user : User
  session_found : find (λ s. has_token hash s && ltb now s.expires_at) a.sessions ≡ some session
  user_found : find (λ u. has_id session.user_id u && not u.disabled) a.users ≡ some user
  same_name : v.username ≡ user.username

scan_user-username :
    (g : Gcm) (u v : User)
    → (scan_user g u >>= λ w. ok (some w)) ≡ ok (some v)
    → v.username ≡ u.username
unfolding scan_user
scan_user-username g u v h = ground arith

session_user-Resolves :
    (g : Gcm) (a : Accounts) (now : ℕ) (hash : Text) (v : User)
    → session_user g a now hash ≡ ok (some v)
    → Resolves a now hash v
unfolding session_user
session_user-Resolves g a now hash v h =
    elim (Option-cases (find (λ s. has_token hash s && ltb now s.expires_at) a.sessions)) [
      | inl e ↦ absurd (ground arith)
      | inr (s, e) ↦
          elim (Option-cases (find (λ u. has_id s.user_id u && not u.disabled) a.users)) [
            | inl f ↦ absurd (ground arith)
            | inr (u, f) ↦ record {
              session = s;
              user = u;
              session_found = e;
              user_found = f;
              same_name = scan_user-username g u v (ground arith);
            }
          ]
    ]

any-disabled :
    (name : Text) (us : List User)
    → any
        (λ u. has_name name u && not u.disabled)
        (map (λ u. if has_name name u then record u { disabled = true } else u) us)
      ≡ false
unfolding any
any-disabled name [] = refl
any-disabled name (u ∷ us) = ground (arith, any-disabled name us)

-- Right after an account is disabled no session token resolves to it.
pub set_user_disabled-session_user :
    (g : Gcm) (a a' : Accounts) (name hash : Text) (now : ℕ) (v : User)
    → set_user_disabled a name true ≡ ok a'
    → session_user g a' now hash ≡ ok (some v)
    → v.username ≢ name
unfolding set_user_disabled update_user
set_user_disabled-session_user g a a' name hash now v d h =
    let r = session_user-Resolves g a' now hash v h in
    let live =
      find-holds (λ u. has_id r.session.user_id u && not u.disabled) a'.users r.user r.user_found in
    let off =
      find-not (λ u. has_id r.session.user_id u && not u.disabled)
        (λ u. has_name name u && not u.disabled) a'.users r.user r.user_found in
    ground (arith, any-disabled name a.users, r.same_name)

-- Right after an account is deleted no session token resolves to it.
pub delete_user-session_user :
    (g : Gcm) (a a' : Accounts) (name hash : Text) (now : ℕ) (v : User)
    → delete_user a name ≡ ok a'
    → session_user g a' now hash ≡ ok (some v)
    → v.username ≢ name
unfolding delete_user
delete_user-session_user g a a' name hash now v d h =
    let r = session_user-Resolves g a' now hash v h in
    let kept =
      find-keep (λ u. has_id r.session.user_id u && not u.disabled) (λ u. not (has_name name u))
        a.users r.user in
    ground (arith, r.same_name, r.user_found)

any-owner :
    (name pass_hash : Text) (id : ℕ) (us : List User)
    → any (λ u. has_name name u && has_id id u) us ≡ false
    → any
        (λ u. has_name name u && has_id id u)
        (map (λ u. if has_name name u then record u { pass_hash = pass_hash } else u) us)
      ≡ false
any-owner name pass_hash id us =
    any-map _ _ (λ u. if has_name name u then record u { pass_hash = pass_hash } else u) us
      (λ u e. ground arith)

-- Right after a new password is set for an account no session token resolves to it.
pub set_user_password-session_user :
    (g : Gcm) (a a' : Accounts) (name pass_hash hash : Text) (now : ℕ) (v : User)
    → set_user_password a name pass_hash ≡ ok a'
    → session_user g a' now hash ≡ ok (some v)
    → v.username ≢ name
unfolding set_user_password update_user end_sessions
set_user_password-session_user g a a' name pass_hash hash now v d h =
    let r = session_user-Resolves g a' now hash v h in
    let owns = λ (u : User). has_name name u && has_id r.session.user_id u in
    let ended =
      find-keep (λ s. has_token hash s && ltb now s.expires_at)
        (λ s. not (any (λ u. has_name name u && has_id s.user_id u) a.users)) a.sessions
        r.session in
    let enabled = λ (u : User). has_id r.session.user_id u && not u.disabled in
    ground (
      arith,
      ended,
      r.same_name,
      r.session_found,
      find-holds enabled a'.users r.user r.user_found,
      find-not enabled owns a'.users r.user r.user_found,
      any-owner name pass_hash r.session.user_id a.users,
    )

-- A session that was added resolves, until its term is over, to the account that it was opened for,
-- unless that is disabled.
pub add_session-session_user :
    (g : Gcm) (a a' : Accounts) (now later user_id ttl : ℕ) (hash : Text)
    → add_session a now hash user_id ttl ≡ ok a'
    → later < now + ttl
    → now ≤ later
    → session_user g a' later hash ≡ elim (find (λ u. has_id user_id u && not u.disabled) a.users) [
      | none ↦ ok none
      | some u ↦ scan_user g u >>= λ v. ok (some v)
    ]
unfolding add_session session_user find keep
add_session-session_user g a a' now later user_id ttl hash h lt le = ground arith

-- Deleting the session of a token ends that session and no other.
pub delete_session-session_user :
    (g : Gcm) (a : Accounts) (now : ℕ) (hash other : Text)
    → session_user g (delete_session a hash) now other
      ≡ (if text_eq other hash then ok none else session_user g a now other)
unfolding delete_session session_user
delete_session-session_user g a now hash other =
    let ended = λ (s : Session). not (has_token hash s) in
    let wanted = λ (s : Session). has_token other s && ltb now s.expires_at in
    elim (text_discrete other hash) [
      | yes e ↦ ground (arith, find-keep-none wanted ended a.sessions (λ s k. ground arith))
      | no n ↦ ground (arith, find-keep_of_imp wanted ended a.sessions (λ s k. ground arith))
    ]
