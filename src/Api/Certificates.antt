-- ===== src/Api/Certificates.antt =====
-- internal/api/handlers.go: `IssueClient`, `RegenCRL`, `RevokeCert` and `RenewServer`, with `Issue`, `CheckPassphrase` and
-- `RegenCRL` of internal/pki/pki.go. What opens the key file, the making of a certificate by crypto/x509
-- and the reading of a serial by math/big are parameters; the serial that a call draws and whether its files
-- can be written come with the call. A call runs alone: what another does between two steps of it is left
-- out.
pub mod Listed
pub mod Calls
pub mod Runs
use ovcp.Base.{
  ℕ, zero, suc, ◌+◌, ◌-◌, ◌*◌, ◌/◌, ◌%◌, ◌^◌, max, ◌≤◌, ◌<◌, ◌≡◌, refl, sym, ap, subst, ◌∙◌, ◌≢◌,
  ◌↔◌, ◌⊎◌, inl, inr, ite, dite, if_pos, if_neg, Bool, true, false, not, ◌&&◌, ◌||◌, Option, none,
  some, List, [], ◌∷◌, ◌++◌, map, arith, dec_lt, dec_le, ℕ_discrete, ltb, leb, ◌==◌, within,
  if◌then◌else◌, is_yes, ltb→lt, lt→ltb, leb, Bool-cases, if-intro, Option-cases, length, take,
  drop, keep, length-append, length-keep-le, any, find, any-map, any-map-true, find-holds, find-any,
  find-none, find-not, find-keep, find-keep_of_imp, find-keep-none, any-keep, IsDistinct,
  IsDistinct-keep, In, In-keep, keep-In, All, Text, codes, text_discrete, text_eq, is_empty, Map,
  lookup, erase, insert, lookup-erase_self, lookup-erase_ne, lookup-insert_self, lookup-insert_ne,
  IsMap, IsMap-keep, IsMap-erase, IsMap-insert, lookup-keep, Result, ok, err, ◌>>=◌, ◌>>◌, refuse,
  >>=-eq-ok, Result-cases, trim_space, trim_right_space, trim_left_space, is_space, cut, cut-found,
  cut_prefix, cut_prefix-append, has_prefix, lacks, one_line, split, join,
}
use ovcp.Base.{ℤ, pos, negsuc}
use ovcp.Store.Names.{check_name}
use ovcp.Store.Certs.{
  Kind, client, server, Cert, add_cert, replace_cert, require_active_cert, revoke, revoked_certs,
}
use ovcp.Store.Certs

pub record Pki : Type 0 where
  pub opens : Text → Bool
  pub is_hex : Text → Bool
  pub make_cert : Text → Kind → Text → ℤ → Cert
  pub encrypt_key : Text → Bool

pub data Error : Type 0 where
  bad_name bad_days bad_passphrase bad_serial bad_key no_server_cn unwritten : Error
  store_error : Certs.Error → Error

-- The clock, the serial that is drawn, and whether the CRL and the server's two files can be written.
pub record Env : Type 0 where
  pub now : ℕ
  pub drawn : Text
  pub writes_crl : Bool
  pub writes_server : Bool

-- The certificates, the serials of the CRL, and the serials of the audit log's revocations.
pub record Site : Type 0 where
  pub certs : List Cert
  pub crl : List Text
  pub revocations : List Text

abbrev pub is_positive : ℤ → Bool
is_positive (pos n) = ltb 0 n
is_positive (negsuc n) = false

-- `CheckPassphrase`
abbrev pub check_passphrase : Pki → Text → Result Error (Unit {0})
check_passphrase p pass = refuse (not (p.opens pass)) bad_passphrase

-- `Issue`
unfoldable pub issue : Pki → Text → Kind → Text → ℤ → Text → Result Error Cert
unfolding check_name
issue p drawn kind cn days pass =
    refuse (not (check_name cn)) bad_name
    >> (refuse (not (is_positive days)) bad_days
        >> (check_passphrase p pass >> ok (p.make_cert drawn kind cn days)))

abbrev pub stored : {A : Type 0} → Result Certs.Error A → Result Error A
stored (ok a) = ok a
stored (err e) = err (store_error e)

abbrev pub serials : List Cert → List Text
serials = map (λ c. c.serial)

-- `RegenCRL` of pki, for the serials of the entries.
unfoldable pub sign_crl : Pki → Bool → List Text → Text → Result Error (List Text)
unfolding any
sign_crl p writes entries pass =
    check_passphrase p pass
    >> (refuse (any (λ s. not (p.is_hex s)) entries) bad_serial
        >> (refuse (not writes) unwritten >> ok entries))

abbrev pub with_crl : Site → Result Error (List Text) → Result Error (Unit {0}) × Site
with_crl s (ok entries) = (ok tt, record s { crl = entries })
with_crl s (err e) = (err e, s)

-- `RegenCRL`
unfoldable pub regen_crl : Pki → Bool → Text → Site → Result Error (Unit {0}) × Site
unfolding sign_crl revoked_certs
regen_crl p writes pass s = with_crl s (sign_crl p writes (serials (revoked_certs s.certs)) pass)

pub record ClientRequest : Type 0 where
  pub cn : Text
  pub days : ℤ
  pub passphrase : Text
  pub key_pass : Text
  pub renew : Bool

abbrev pub key_check : Pki → Text → Result Error (Unit {0})
key_check p key_pass = refuse (not (is_empty key_pass) && not (p.encrypt_key key_pass)) bad_key

-- What `IssueClient` does before the store changes.
unfoldable pub prepare : Pki → Text → ClientRequest → List Cert → Result Error Cert
unfolding require_active_cert issue
prepare p drawn r rows =
    (if r.renew then stored (require_active_cert rows r.cn client) else ok tt)
    >> (issue p drawn client r.cn r.days r.passphrase >>= (λ c. key_check p r.key_pass >> ok c))

abbrev pub added : Site → Result Error (List Cert) → Result Error (Unit {0}) × Site
added s (ok rows) = (ok tt, record s { certs = rows })
added s (err e) = (err e, s)

abbrev pub renewed :
    Pki → Bool → Text → Site → Result Error (List Cert) → Result Error (Unit {0}) × Site
renewed p writes pass s (ok rows) = regen_crl p writes pass (record s { certs = rows })
renewed p writes pass s (err e) = (err e, s)

abbrev pub issue_prepared :
    Pki → Env → ClientRequest → Site → Result Error Cert → Result Error (Unit {0}) × Site
issue_prepared p e r s (err x) = (err x, s)
issue_prepared p e r s (ok c) =
    if r.renew
    then renewed p e.writes_crl r.passphrase s (stored (replace_cert e.now s.certs c))
    else added s (stored (add_cert s.certs c))

-- `IssueClient`
unfoldable pub issue_client : Pki → Env → ClientRequest → Site → Result Error (Unit {0}) × Site
unfolding prepare regen_crl replace_cert add_cert
issue_client p e r s = issue_prepared p e r s (prepare p e.drawn r s.certs)

abbrev pub audited : Text → Result Error (Unit {0}) × Site → Result Error (Unit {0}) × Site
audited serial (ok u, s) = (ok tt, record s { revocations = serial ∷ s.revocations })
audited serial (err e, s) = (err e, s)

abbrev pub revoke_listed :
    Pki
    → Bool
    → Text
    → Text
    → Site
    → Result Certs.Error (Text × List Cert)
    → Result Error (Unit {0}) × Site
revoke_listed p writes serial pass s (ok (cn, rows)) =
    audited serial (regen_crl p writes pass (record s { certs = rows }))
revoke_listed p writes serial pass s (err e) = (err (store_error e), s)

-- `RevokeCert`
unfoldable pub revoke_cert : Pki → Env → Text → Text → Site → Result Error (Unit {0}) × Site
unfolding regen_crl revoke
revoke_cert p e serial pass s =
    if p.opens pass
    then revoke_listed p e.writes_crl serial pass s (revoke s.certs serial e.now)
    else (err bad_passphrase, s)

-- What `RenewServer` does before its files are written.
unfoldable pub prepare_server : Pki → Env → Text → ℤ → Text → List Cert → Result Error Cert
unfolding require_active_cert issue
prepare_server p e cn days pass rows =
    stored (require_active_cert rows [] server)
    >> (refuse (is_empty cn) no_server_cn
        >> (issue p e.drawn server cn days pass
            >>= (λ c. refuse (not e.writes_server) unwritten >> ok c)))

abbrev pub server_prepared : Env → Site → Result Error Cert → Result Error (Unit {0}) × Site
server_prepared e s (err x) = (err x, s)
server_prepared e s (ok c) = added s (stored (replace_cert e.now s.certs c))

-- `RenewServer` with `WriteServerCert`: the CRL is not made again.
unfoldable pub renew_server : Pki → Env → Text → ℤ → Text → Site → Result Error (Unit {0}) × Site
unfolding prepare_server replace_cert
renew_server p e cn days pass s = server_prepared e s (prepare_server p e cn days pass s.certs)
