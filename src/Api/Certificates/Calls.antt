-- ===== src/Api/Certificates/Calls.antt =====
-- What one issue, renewal or revocation leaves of the CRL.
use ovcp.Base.{
  ℕ, ◌≡◌, refl, sym, ap, subst, ◌∙◌, inl, inr, Bool, true, false, not, none, List, [], ◌∷◌, map,
  arith, if◌then◌else◌, Bool-cases, any, any-map-true, In, Text, Result, ok, err, refuse, >>=-eq-ok,
  Result-cases,
}
use ovcp.Base.{ℤ}
use ovcp.Store.Certs.{
  Kind, client, server, Cert, is_revoked, add_cert, replace_cert, insert_cert, retire, revoke_row,
  active_cert, require_active_cert, revoke, revocable, revoked_certs,
}
use ovcp.Store.Certs
use ovcp.Store.Names.{check_name}
use ovcp.Api.Certificates.{
  Pki, Env, Error, bad_name, bad_days, bad_passphrase, bad_serial, bad_key, no_server_cn, unwritten,
  store_error, Site, check_passphrase, is_positive, issue, stored, regen_crl, ClientRequest,
  key_check, prepare, added, renewed, audited, revoke_listed, revoke_cert,
}
use ovcp.Api.Certificates.Listed.{
  IsPki, AllHex, revoked_as, ListsRevoked, IsListed, map-hex, fresh-IsListed, regen-ok,
  regen-unwritten, revoke-rows, revoke_row-serial, retire-serial, insert-rows, revoke_row-revoked,
  retire-revoked, insert-revoked,
}

-- Whether the CRL lags behind: since a write of it that failed, and until it is made again.
abbrev pub mark : Bool → Result Error (Unit {0}) → Bool
mark b (ok u) = false
mark b (err unwritten) = true
mark b (err e) = b

pub mark-err :
    (p : Pki) (b : Bool) (s : Site) (e : Error) → IsListed p (b, s) → IsListed p (mark b (err e), s)
mark-err p b s unwritten h = (h.0, h.1, λ e. absurd (ground arith))
mark-err p b s bad_name h = h
mark-err p b s bad_days h = h
mark-err p b s bad_passphrase h = h
mark-err p b s bad_serial h = h
mark-err p b s bad_key h = h
mark-err p b s no_server_cn h = h
mark-err p b s (store_error x) h = h

abbrev pub marked : Bool → Result Error (Unit {0}) × Site → Bool × Site
marked b (r, s) = (mark b r, s)

-- After a change of the store that keeps what is revoked, the CRL is made again.
settled-IsListed :
    (p : Pki) (writes b : Bool) (pass : Text) (s : Site) (rows : List Cert)
    → p.opens pass ≡ true
    → AllHex p rows
    → ((t : Text) → any (revoked_as t) s.certs ≡ true → any (revoked_as t) rows ≡ true)
    → ListsRevoked s
    → IsListed p (marked b (regen_crl p writes pass (record s { certs = rows })))
settled-IsListed p true b pass s rows o h k l =
    subst (λ q. IsListed p (marked b q)) (sym (regen-ok p pass (record s { certs = rows }) o h))
      (fresh-IsListed p false (record s { certs = rows }) h)
settled-IsListed p false b pass s rows o h k l =
    subst (λ q. IsListed p (marked b q))
      (sym (regen-unwritten p pass (record s { certs = rows }) o h))
      (h, λ t i. k t (l t i), λ e. absurd (ground arith))

audited-marked :
    (p : Pki) (b : Bool) (serial : Text) (q : Result Error (Unit {0}) × Site)
    → IsListed p (marked b q)
    → IsListed p (marked b (audited serial q))
audited-marked p b serial (ok u, s) h = h
audited-marked p b serial (err e, s) h = h

revoke_listed-IsListed :
    (p : Pki) (writes b : Bool) (serial pass : Text) (at : ℕ) (s : Site)
    (r : Result Certs.Error (Text × List Cert))
    → p.opens pass ≡ true
    → IsListed p (b, s)
    → ((cn : Text) (rows : List Cert)
        → r ≡ ok (cn, rows)
        → rows ≡ map (revoke_row serial at) s.certs)
    → IsListed p (marked b (revoke_listed p writes serial pass s r))
revoke_listed-IsListed p writes b serial pass at s (err e) o h k = mark-err p b s (store_error e) h
revoke_listed-IsListed p writes b serial pass at s (ok (cn, rows)) o h k =
    audited-marked p b serial (regen_crl p writes pass (record s { certs = rows })) (
      subst (λ l. IsListed p (marked b (regen_crl p writes pass (record s { certs = l }))))
        (sym (k cn rows refl))
        (settled-IsListed p writes b pass s (map (revoke_row serial at) s.certs) o
          (map-hex p (revoke_row serial at) s.certs (revoke_row-serial serial at) h.0)
          (λ t.
            any-map-true (revoked_as t) (revoked_as t) (revoke_row serial at) s.certs
              (revoke_row-revoked serial t at))
          h.1))

pub revoke_cert-IsListed :
    (p : Pki) (e : Env) (b : Bool) (serial pass : Text) (s : Site)
    → IsListed p (b, s)
    → IsListed p (marked b (revoke_cert p e serial pass s))
unfolding revoke_cert
revoke_cert-IsListed p e b serial pass s h = elim (Bool-cases (p.opens pass)) [
  | inl o ↦ rw o (
      revoke_listed-IsListed p e.writes_crl b serial pass e.now s (revoke s.certs serial e.now) o h
        (λ cn rows q. revoke-rows s.certs serial cn e.now rows q))
  | inr o ↦ rw o h
]

check-opens : (p : Pki) (pass : Text) → check_passphrase p pass ≡ ok tt → p.opens pass ≡ true
check-opens p pass h = elim (Bool-cases (p.opens pass)) [
  | inl o ↦ o
  | inr o ↦ absurd (ground arith)
]

pub ok-inj : (a b : Cert) (r s : Result Error Cert) → r ≡ ok a → s ≡ ok b → r ≡ s → a ≡ b
ok-inj a b r s p q e = cc

-- What is issued, under a passphrase that opens the key.
abbrev pub Issued : Pki → Text → Kind → Cert → Type 0
Issued p pass kind c = (p.opens pass ≡ true) × (p.is_hex c.serial ≡ true) × (c.kind ≡ kind)

pub issue-Issued :
    (p : Pki) (drawn : Text) (kind : Kind) (cn : Text) (days : ℤ) (pass : Text) (c : Cert)
    → IsPki p
    → issue p drawn kind cn days pass ≡ ok c
    → Issued p pass kind c
unfolding issue
issue-Issued p drawn kind cn days pass c q h =
    let a = >>=-eq-ok (refuse (not (check_name cn)) bad_name) _ h in
    let b = >>=-eq-ok (refuse (not (is_positive days)) bad_days) _ a.2 in
    let d = >>=-eq-ok (check_passphrase p pass) _ b.2 in
    let made =
      ok-inj (p.make_cert drawn kind cn days) c (ok (p.make_cert drawn kind cn days)) (ok c) refl
        refl d.2 in
    let good = q drawn kind cn days in
    subst (Issued p pass kind) made (check-opens p pass d.1, good.0, good.1)

pub prepare-Issued :
    (p : Pki) (drawn : Text) (r : ClientRequest) (rows : List Cert) (c : Cert)
    → IsPki p
    → prepare p drawn r rows ≡ ok c
    → Issued p r.passphrase client c
unfolding prepare
prepare-Issued p drawn r rows c q h =
    let a =
      >>=-eq-ok (if r.renew then stored (require_active_cert rows r.cn client) else ok tt) _ h in
    let (v, e, k) = >>=-eq-ok (issue p drawn client r.cn r.days r.passphrase) _ a.2 in
    let d = >>=-eq-ok (key_check p r.key_pass) _ k in
    let same = ok-inj v c (ok v) (ok c) refl refl d.2 in
    issue-Issued p drawn client r.cn r.days r.passphrase c q (e ∙ ap (λ x. ok x) same)

pub renewed-IsListed :
    (p : Pki) (writes b : Bool) (now : ℕ) (pass : Text) (s : Site) (c : Cert)
    → Issued p pass client c
    → IsListed p (b, s)
    → IsListed p (marked b (renewed p writes pass s (stored (replace_cert now s.certs c))))
unfolding replace_cert
renewed-IsListed p writes b now pass s c (o, x, k) h =
    elim (Result-cases (replace_cert now s.certs c)) [
      | inl (rows, e) ↦
          let old = map (retire now c.kind c.cn) s.certs in
          let new = insert-rows old c rows e in
          subst (λ k. IsListed p (marked b (renewed p writes pass s (stored k)))) (sym e)
            (subst (λ l. IsListed p (marked b (regen_crl p writes pass (record s { certs = l }))))
              (sym new)
              (settled-IsListed p writes b pass s (record c { revoked_at = none } ∷ old) o
                (x, map-hex p (retire now c.kind c.cn) s.certs (retire-serial now c.kind c.cn) h.0)
                (λ t i. insert-revoked t c old (
                  any-map-true (revoked_as t) (revoked_as t) (retire now c.kind c.cn) s.certs
                    (retire-revoked t c.cn now c.kind) i))
                h.1))
      | inr (f, e) ↦
          subst (λ k. IsListed p (marked b (renewed p writes pass s (stored k)))) (sym e)
            (mark-err p b s (store_error f) h)
    ]

-- A certificate that is valid is put before rows that keep what is revoked.
inserted-IsListed :
    (p : Pki) (b : Bool) (s : Site) (c : Cert) (old : List Cert)
    → p.is_hex c.serial ≡ true
    → AllHex p old
    → ((t : Text) → any (revoked_as t) s.certs ≡ true → any (revoked_as t) old ≡ true)
    → ((d : Cert) → In d old → d.kind ≡ client → In d s.certs)
    → IsListed p (b, s)
    → IsListed p (b, record s { certs = record c { revoked_at = none } ∷ old })
inserted-IsListed p b s c old x hex k back (h, l, m) = (
  (x, hex),
  λ t i. insert-revoked t c old (k t (l t i)),
  λ e d i kind r. elim i [
    | inl new ↦ let clash : false ≡ true = ap is_revoked new ∙ r in absurd (ground arith)
    | inr j ↦ m e d (back d j kind) kind r
  ],
)

pub added-IsListed :
    (p : Pki) (b : Bool) (s : Site) (c : Cert)
    → p.is_hex c.serial ≡ true
    → IsListed p (b, s)
    → IsListed p (b, (added s (stored (add_cert s.certs c))).1)
unfolding add_cert
added-IsListed p b s c x h = elim (Result-cases (add_cert s.certs c)) [
  | inl (rows, e) ↦
      let new = insert-rows s.certs c rows e in
      subst (λ k. IsListed p (b, (added s (stored k)).1)) (sym e)
        (subst (λ k. IsListed p (b, record s { certs = k })) (sym new)
          (inserted-IsListed p b s c s.certs x h.0 (λ t i. i) (λ d i k. i) h))
  | inr (f, e) ↦ subst (λ k. IsListed p (b, (added s (stored k)).1)) (sym e) h
]

In-map-cert :
    (f : Cert → Cert) (d : Cert) (rows : List Cert)
    → In d (map f rows)
    → (c : Cert) × In c rows × (f c ≡ d)
In-map-cert f d [] i = absurd i
In-map-cert f d (x ∷ xs) (inl e) = (x, inl refl, e)
In-map-cert f d (x ∷ xs) (inr i) = let (c, j, e) = In-map-cert f d xs i in (c, inr j, e)

retire-kind : (now : ℕ) (kind : Kind) (cn : Text) (c : Cert) → (retire now kind cn c).kind ≡ c.kind
unfolding retire
retire-kind now kind cn c = ground arith

server-active : (cn : Text) (c : Cert) → c.kind ≡ client → active_cert server cn c ≡ false
unfolding active_cert
server-active cn c h = rw h refl

-- The renewal of the server leaves the clients' certificates.
retire-client :
    (now : ℕ) (kind : Kind) (cn : Text) (c : Cert)
    → kind ≡ server
    → (retire now kind cn c).kind ≡ client
    → retire now kind cn c ≡ c
unfolding retire
retire-client now kind cn c e h =
    let same = sym (retire-kind now kind cn c) ∙ h in
    let q : active_cert kind cn c ≡ false =
      subst (λ k. active_cert k cn c ≡ false) (sym e) (server-active cn c same) in
    rw q refl

pub server-IsListed :
    (p : Pki) (b : Bool) (now : ℕ) (s : Site) (c : Cert)
    → p.is_hex c.serial ≡ true
    → c.kind ≡ server
    → IsListed p (b, s)
    → IsListed p (b, (added s (stored (replace_cert now s.certs c))).1)
unfolding replace_cert
server-IsListed p b now s c x k h = elim (Result-cases (replace_cert now s.certs c)) [
  | inl (rows, e) ↦
      let f = retire now c.kind c.cn in
      let old = map f s.certs in
      let new = insert-rows old c rows e in
      subst (λ k. IsListed p (b, (added s (stored k)).1)) (sym e)
        (subst (λ k. IsListed p (b, record s { certs = k })) (sym new)
          (inserted-IsListed p b s c old x (map-hex p f s.certs (retire-serial now c.kind c.cn) h.0)
            (λ t i.
              any-map-true (revoked_as t) (revoked_as t) f s.certs
                (retire-revoked t c.cn now c.kind) i)
            (λ d i kind.
              let (y, j, same) = In-map-cert f d s.certs i in
              let q = retire-client now c.kind c.cn y k (ap (λ z. z.kind) same ∙ kind) in
              subst (λ z. In z s.certs) (sym q ∙ same) j)
            h))
  | inr (x2, e) ↦ subst (λ k. IsListed p (b, (added s (stored k)).1)) (sym e) h
]
