-- ===== src/Api/Certificates/Runs.antt =====
-- That the CRL keeps listing what is revoked, through any calls.
use ovcp.Base.{
  ◌≡◌, refl, ap, ◌∙◌, inl, inr, Bool, not, List, [], ◌∷◌, if◌then◌else◌, Bool-cases, Text, is_empty,
  Result, ok, err, refuse, >>=-eq-ok,
}
use ovcp.Base.{ℤ}
use ovcp.Store.Certs.{client, server, Cert, require_active_cert}
use ovcp.Api.Certificates.{
  Pki, Env, Error, no_server_cn, unwritten, Site, issue, stored, ClientRequest, prepare,
  issue_prepared, issue_client, revoke_cert, prepare_server, server_prepared, renew_server,
}
use ovcp.Api.Certificates.Listed.{IsPki, IsListed}
use ovcp.Api.Certificates.Calls.{
  mark, marked, mark-err, revoke_cert-IsListed, prepare-Issued, Issued, issue-Issued, ok-inj,
  renewed-IsListed, added-IsListed, server-IsListed,
}

-- A call of the CLI or the API, with its surroundings.
pub data Call : Type 0 where
  issues : Env → ClientRequest → Call
  revokes : Env → Text → Text → Call
  renews_server : Env → Text → ℤ → Text → Call

-- A renewal and a revocation make the CRL again, a new certificate does not.
abbrev after_issue : Bool → Bool → Result Error (Unit {0}) × Site → Bool × Site
after_issue b renew (r, s) = (if renew then mark b r else b, s)

-- The calls in their order; the Boolean says whether the CRL lags behind.
unfoldable pub run_calls : Pki → List Call → Bool × Site → Bool × Site
unfolding issue_client revoke_cert renew_server
run_calls p [] (b, s) = (b, s)
run_calls p (issues e r ∷ cs) (b, s) = run_calls p cs (after_issue b r.renew (issue_client p e r s))
run_calls p (revokes e serial pass ∷ cs) (b, s) =
    run_calls p cs (marked b (revoke_cert p e serial pass s))
run_calls p (renews_server e cn days pass ∷ cs) (b, s) =
    run_calls p cs (b, (renew_server p e cn days pass s).1)

issue_prepared-IsListed :
    (p : Pki) (e : Env) (b : Bool) (r : ClientRequest) (s : Site) (made : Result Error Cert)
    → ((c : Cert) → made ≡ ok c → Issued p r.passphrase client c)
    → IsListed p (b, s)
    → IsListed p (after_issue b r.renew (issue_prepared p e r s made))
issue_prepared-IsListed p e b r s (err x) k h = elim (Bool-cases r.renew) [
  | inl y ↦ rw y (mark-err p b s x h)
  | inr n ↦ rw n h
]
issue_prepared-IsListed p e b r s (ok c) k h =
    let made = k c refl in
    elim (Bool-cases r.renew) [
      | inl y ↦ rw y (renewed-IsListed p e.writes_crl b e.now r.passphrase s c made h)
      | inr n ↦ rw n (added-IsListed p b s c made.1 h)
    ]

issue_client-IsListed :
    (p : Pki) (e : Env) (b : Bool) (r : ClientRequest) (s : Site)
    → IsPki p
    → IsListed p (b, s)
    → IsListed p (after_issue b r.renew (issue_client p e r s))
unfolding issue_client
issue_client-IsListed p e b r s q h =
    issue_prepared-IsListed p e b r s (prepare p e.drawn r s.certs)
      (λ c made. prepare-Issued p e.drawn r s.certs c q made) h

prepare_server-Issued :
    (p : Pki) (e : Env) (cn : Text) (days : ℤ) (pass : Text) (rows : List Cert) (c : Cert)
    → IsPki p
    → prepare_server p e cn days pass rows ≡ ok c
    → Issued p pass server c
unfolding prepare_server
prepare_server-Issued p e cn days pass rows c q h =
    let a = >>=-eq-ok (stored (require_active_cert rows [] server)) _ h in
    let b = >>=-eq-ok (refuse (is_empty cn) no_server_cn) _ a.2 in
    let (v, i, k) = >>=-eq-ok (issue p e.drawn server cn days pass) _ b.2 in
    let d = >>=-eq-ok (refuse (not e.writes_server) unwritten) _ k in
    let same = ok-inj v c (ok v) (ok c) refl refl d.2 in
    issue-Issued p e.drawn server cn days pass c q (i ∙ ap (λ x. ok x) same)

server_prepared-IsListed :
    (p : Pki) (e : Env) (b : Bool) (pass : Text) (s : Site) (made : Result Error Cert)
    → ((c : Cert) → made ≡ ok c → Issued p pass server c)
    → IsListed p (b, s)
    → IsListed p (b, (server_prepared e s made).1)
server_prepared-IsListed p e b pass s (err x) k h = h
server_prepared-IsListed p e b pass s (ok c) k h =
    let made = k c refl in server-IsListed p b e.now s c made.1 made.2 h

renew_server-IsListed :
    (p : Pki) (e : Env) (b : Bool) (cn : Text) (days : ℤ) (pass : Text) (s : Site)
    → IsPki p
    → IsListed p (b, s)
    → IsListed p (b, (renew_server p e cn days pass s).1)
unfolding renew_server
renew_server-IsListed p e b cn days pass s q h =
    server_prepared-IsListed p e b pass s (prepare_server p e cn days pass s.certs)
      (λ c made. prepare_server-Issued p e cn days pass s.certs c q made) h

-- Through any issues, renewals, of the server's certificate too, and revocations that run one after the
-- other, those refused included, the CRL names revoked certificates only, and every revoked certificate of a
-- client, except from a write of the CRL that fails until it is made again: if it did so before, if
-- the serials of the store and those drawn are hexadecimal. A server certificate that a renewal replaces is
-- not promised to be in it.
pub run_calls-IsListed :
    (p : Pki) (cs : List Call) (b : Bool) (s : Site)
    → IsPki p
    → IsListed p (b, s)
    → IsListed p (run_calls p cs (b, s))
unfolding run_calls
run_calls-IsListed p [] b s q h = h
run_calls-IsListed p (issues e r ∷ cs) b s q h =
    let k = after_issue b r.renew (issue_client p e r s) in
    run_calls-IsListed p cs k.0 k.1 q (issue_client-IsListed p e b r s q h)
run_calls-IsListed p (revokes e serial pass ∷ cs) b s q h =
    let k = marked b (revoke_cert p e serial pass s) in
    run_calls-IsListed p cs k.0 k.1 q (revoke_cert-IsListed p e b serial pass s h)
run_calls-IsListed p (renews_server e cn days pass ∷ cs) b s q h =
    let k = renew_server p e cn days pass s in
    run_calls-IsListed p cs b k.1 q (renew_server-IsListed p e b cn days pass s q h)
