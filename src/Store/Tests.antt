-- ===== src/Store/Tests.antt =====
-- Runs of the certificate table, of the accounts and of the secret at rest.
use ovcp.Base.{
  [], ℕ, ◌+◌, ◌-◌, ◌≡◌, refl, ap, ◌≢◌, true, false, none, some, List, ◌∷◌, map, arith, keep, any,
  find, Text, codes, text_discrete, ok, err,
}
use ovcp.Store.Certs.{
  server, client, Cert, duplicate_cn, no_active_cert, same_serial, active_cert, clashes,
  insert_cert, add_cert, require_active_cert, retire, replace_cert, revocable, revoke_row, revoke,
  revoked_certs, cert_counts, Call, adds, replaces, revokes, sets_dns, run,
}
use ovcp.Store.Certs.Unique.{IsUnique, run-IsUnique}
use ovcp.Store.Certs.Revocation.{
  add_cert-require_active_cert, replace_cert-ne-duplicate, replace_cert-active,
  revoke-revoked_certs, revoke_twice,
}
use ovcp.Store.Certs.Report.{
  count_status, is_live_status, is_expiring_status, cert_counts-count_status,
}
use ovcp.Store.Totp.{Gcm, IsGcm, encrypt_totp, decrypt_totp, decrypt_totp-encrypt_totp}
use ovcp.Store.Users.{
  User, Session, Accounts, scan_user, set_user_disabled, set_user_password, update_user,
  delete_user, end_sessions, add_session, session_user, delete_session,
}
use ovcp.Store.Users.Access.{
  set_user_disabled-session_user, delete_user-session_user, set_user_password-session_user,
  add_session-session_user, delete_session-session_user,
}

abbrev phone : Cert
phone = record {
  serial = codes "01";
  cn = codes "phone";
  kind = client;
  cert_pem = [];
  issued_at = 0;
  not_after = 9000000;
  revoked_at = none;
  include_dns = false;
}

abbrev renewed : Cert
renewed = record phone { serial = codes "02" }

abbrev gateway : Cert
gateway = record phone { serial = codes "00"; kind = server; cn = codes "vpn" }

abbrev table : List Cert
table = phone ∷ gateway ∷ []

abbrev calls : List Call
calls =
    adds (record phone { serial = codes "03" })
    ∷ revokes (codes "01") 10
    ∷ adds (record phone { serial = codes "04" })
    ∷ replaces 20 (record phone { serial = codes "05" })
    ∷ sets_dns (codes "05") true
    ∷ []

table-IsUnique : IsUnique table
unfolding any clashes same_serial active_cert text_discrete
table-IsUnique = (refl, refl, (refl, refl, tt))

run-IsUnique_example : IsUnique (run table calls)
run-IsUnique_example = run-IsUnique calls table table-IsUnique

add_cert-require_active_cert_case :
    (add_cert table renewed ≡ err duplicate_cn
      → require_active_cert table (codes "phone") client ≡ ok tt)
    × (require_active_cert table (codes "phone") client ≡ ok tt
        → add_cert table renewed ≡ err duplicate_cn)
add_cert-require_active_cert_case = add_cert-require_active_cert table renewed

replace_cert-ne-duplicate_case : replace_cert 20 table renewed ≢ err duplicate_cn
replace_cert-ne-duplicate_case = replace_cert-ne-duplicate 20 table renewed

replaced :
    replace_cert 20 table renewed
    ≡ ok (renewed ∷ record phone { revoked_at = some 20 } ∷ gateway ∷ [])
unfolding replace_cert retire active_cert insert_cert clashes same_serial any text_discrete
replaced = refl

replace_cert-active_case :
    keep
      (active_cert client (codes "phone"))
      (renewed ∷ record phone { revoked_at = some 20 } ∷ gateway ∷ [])
    ≡ renewed ∷ []
replace_cert-active_case = replace_cert-active 20 table renewed replaced

revoked_once :
    revoke table (codes "01") 10
    ≡ ok (codes "phone", record phone { revoked_at = some 10 } ∷ gateway ∷ [])
unfolding revoke revoke_row revocable find same_serial text_discrete
revoked_once = refl

revoke-revoked_certs_example :
    any
      (same_serial (codes "01"))
      (revoked_certs (run (record phone { revoked_at = some 10 } ∷ gateway ∷ []) calls))
    ≡ true
revoke-revoked_certs_example =
    revoke-revoked_certs table (codes "01") (codes "phone") 10
      (record phone { revoked_at = some 10 } ∷ gateway ∷ []) calls revoked_once

revoke_twice_case :
    revoke (run (record phone { revoked_at = some 10 } ∷ gateway ∷ []) calls) (codes "01") 50
    ≡ err no_active_cert
revoke_twice_case =
    revoke_twice table (codes "01") (codes "phone") 10 50
      (record phone { revoked_at = some 10 } ∷ gateway ∷ []) calls table-IsUnique revoked_once

cert_counts-count_status_case :
    cert_counts 8000000 table
    ≡ (count_status 8000000 is_live_status table, count_status 8000000 is_expiring_status table)
cert_counts-count_status_case = cert_counts-count_status 8000000 table

abbrev shifted : Gcm
shifted = record {
  nonce_size = 1;
  seal = λ nonce t. map (λ c. c + 1) t;
  unseal = λ nonce t. some (map (λ c. c - 1) t);
  encode = λ t. t;
  decode = λ t. some t;
}

shift_back : (t : Text) → map (λ c. c - 1) (map (λ c. c + 1) t) ≡ t
shift_back [] = refl
shift_back (c ∷ t) = ground (arith, shift_back t)

shifted-IsGcm : IsGcm shifted
shifted-IsGcm = record {
  nonce_pos = omega arith;
  unseal_seal = λ nonce t. ap some (shift_back t);
  decode_encode = λ t. refl;
  encode_cons = λ c t. refl;
}

decrypt_totp-encrypt_totp_case :
    decrypt_totp shifted (encrypt_totp shifted (codes "n") (codes "secret")) ≡ ok (codes "secret")
decrypt_totp-encrypt_totp_case =
    decrypt_totp-encrypt_totp shifted (codes "n") (codes "secret") shifted-IsGcm refl

abbrev alice : User
alice = record {
  id = 1;
  username = codes "alice";
  pass_hash = codes "h";
  role = codes "admin";
  totp_secret = [];
  disabled = false;
  created_at = 0;
}

abbrev bob : User
bob = record alice { id = 2; username = codes "bob" }

abbrev session : ℕ → Text → Session
session id hash = record { token_hash = hash; user_id = id; created_at = 0; expires_at = 100 }

abbrev accounts : Accounts
accounts = record {
  users = alice ∷ bob ∷ [];
  sessions = session 1 (codes "a") ∷ session 2 (codes "b") ∷ [];
}

abbrev without_alice : Accounts
without_alice = record { users = bob ∷ []; sessions = session 2 (codes "b") ∷ [] }

abbrev alice_disabled : Accounts
alice_disabled = record accounts { users = record alice { disabled = true } ∷ bob ∷ [] }

set_user_disabled-session_user_case : bob.username ≢ codes "alice"
unfolding set_user_disabled update_user session_user scan_user decrypt_totp find any text_discrete
set_user_disabled-session_user_case =
    set_user_disabled-session_user shifted accounts alice_disabled (codes "alice") (codes "b") 50
      bob refl refl

delete_user-session_user_case : bob.username ≢ codes "alice"
unfolding delete_user end_sessions session_user scan_user decrypt_totp find any keep text_discrete
delete_user-session_user_case =
    delete_user-session_user shifted accounts without_alice (codes "alice") (codes "b") 50 bob refl
      refl

abbrev alice_changed : Accounts
alice_changed = record without_alice { users = record alice { pass_hash = codes "k" } ∷ bob ∷ [] }

set_user_password-session_user_example : bob.username ≢ codes "alice"
unfolding set_user_password update_user end_sessions session_user scan_user decrypt_totp find any
    keep text_discrete
set_user_password-session_user_example =
    set_user_password-session_user shifted accounts alice_changed (codes "alice") (codes "k")
      (codes "b") 50 bob refl refl

abbrev opened : Accounts
opened = record accounts {
  sessions =
      record { token_hash = codes "c"; user_id = 2; created_at = 50; expires_at = 80 }
      ∷ accounts.sessions;
}

add_session-session_user_case : session_user shifted opened 79 (codes "c") ≡ ok (some bob)
unfolding add_session scan_user decrypt_totp find any keep text_discrete
add_session-session_user_case =
    add_session-session_user shifted accounts opened 50 79 2 30 (codes "c") refl (omega arith)
      (omega arith)

delete_session-session_user_case :
    session_user shifted (delete_session accounts (codes "a")) 50 (codes "a") ≡ ok none
unfolding text_discrete
delete_session-session_user_case =
    delete_session-session_user shifted accounts 50 (codes "a") (codes "a")
