-- ===== src/Api/Certificates/Listed.antt =====
-- What the CRL lists while certificates are issued, renewed and revoked.
use ovcp.Base.{
  ℕ, ◌≡◌, refl, ap, subst, ◌∙◌, inl, inr, Bool, true, false, not, ◌&&◌, none, List, [], ◌∷◌, map,
  arith, if◌then◌else◌, Bool-cases, keep, any, In, In-keep, All, Text, text_eq, text_discrete, ok,
  err,
}
use ovcp.Base.{ℤ}
use ovcp.Store.Certs.{
  Kind, client, Cert, is_revoked, insert_cert, retire, revoke_row, active_cert, revoke, revocable,
  revoked_certs,
}
use ovcp.Api.Certificates.{Pki, unwritten, Site, serials, sign_crl, regen_crl}

-- A drawn serial reads back, and a certificate is of the kind that it was issued as.
abbrev pub IsPki : Pki → Type 0
IsPki p =
    (drawn : Text) (kind : Kind) (cn : Text) (days : ℤ)
    → (p.is_hex (p.make_cert drawn kind cn days).serial ≡ true)
      × ((p.make_cert drawn kind cn days).kind ≡ kind)

abbrev pub AllHex : Pki → List Cert → Type 0
AllHex p = All (λ c. p.is_hex c.serial ≡ true)

-- Every revoked certificate of a client is in the CRL.
abbrev pub ListsClients : Site → Type 0
ListsClients s =
    (c : Cert) → In c s.certs → c.kind ≡ client → is_revoked c ≡ true → In c.serial s.crl

abbrev pub revoked_as : Text → Cert → Bool
revoked_as t c = is_revoked c && text_eq c.serial t

-- Every entry of the CRL is a revoked certificate.
abbrev pub ListsRevoked : Site → Type 0
ListsRevoked s = (t : Text) → In t s.crl → any (revoked_as t) s.certs ≡ true

-- The CRL names revoked certificates only, and every revoked one of a client, unless it lags behind.
abbrev pub IsListed : Pki → Bool × Site → Type 0
IsListed p (b, s) = AllHex p s.certs × ListsRevoked s × (b ≡ false → ListsClients s)

pub keep-hex :
    (p : Pki) (q : Cert → Bool) (rows : List Cert)
    → AllHex p rows
    → any (λ s. not (p.is_hex s)) (serials (keep q rows)) ≡ false
unfolding keep any
keep-hex p q [] h = refl
keep-hex p q (c ∷ cs) (a, b) = elim (Bool-cases (q c)) [
  | inl e ↦ rw e (rw a (keep-hex p q cs b))
  | inr e ↦ rw e (keep-hex p q cs b)
]

pub map-hex :
    (p : Pki) (f : Cert → Cert) (rows : List Cert)
    → ((c : Cert) → (f c).serial ≡ c.serial)
    → AllHex p rows
    → AllHex p (map f rows)
map-hex p f [] e h = tt
map-hex p f (c ∷ cs) e (a, b) = (ap (λ s. p.is_hex s) (e c) ∙ a, map-hex p f cs e b)

pub In-serial : (c : Cert) (rows : List Cert) → In c rows → In c.serial (serials rows)
In-serial c [] i = absurd i
In-serial c (x ∷ xs) (inl e) = inl (ap (λ k. k.serial) e)
In-serial c (x ∷ xs) (inr i) = inr (In-serial c xs i)

pub serials-revoked :
    (t : Text) (rows : List Cert)
    → In t (serials (keep is_revoked rows))
    → any (revoked_as t) rows ≡ true
unfolding keep any text_discrete
serials-revoked t [] i = absurd i
serials-revoked t (c ∷ cs) i = elim (Bool-cases (is_revoked c)) [
  | inr r ↦
      let q = serials-revoked t cs (
        subst (λ b. In t (serials (if b then c ∷ keep is_revoked cs else keep is_revoked cs))) r
          i) in
      ground arith
  | inl r ↦
      elim (subst (λ b. In t (serials (if b then c ∷ keep is_revoked cs else keep is_revoked cs))) r
        i) [
          | inl e ↦ let q : text_eq c.serial t ≡ true = ground arith in ground arith
          | inr j ↦ let q = serials-revoked t cs j in ground arith
        ]
]

-- What a CRL that was just made lists.
pub fresh-IsListed :
    (p : Pki) (b : Bool) (s : Site)
    → AllHex p s.certs
    → IsListed p (b, record s { crl = serials (revoked_certs s.certs) })
unfolding revoked_certs
fresh-IsListed p b s h = (
  h,
  λ t i. serials-revoked t s.certs i,
  λ e c i k r. In-serial c (keep is_revoked s.certs) (In-keep is_revoked c s.certs i r),
)

pub regen-ok :
    (p : Pki) (pass : Text) (s : Site)
    → p.opens pass ≡ true
    → AllHex p s.certs
    → regen_crl p true pass s ≡ (ok tt, record s { crl = serials (revoked_certs s.certs) })
unfolding regen_crl sign_crl revoked_certs
regen-ok p pass s o h = rw (o, keep-hex p is_revoked s.certs h) refl

pub regen-unwritten :
    (p : Pki) (pass : Text) (s : Site)
    → p.opens pass ≡ true
    → AllHex p s.certs
    → regen_crl p false pass s ≡ (err unwritten, s)
unfolding regen_crl sign_crl revoked_certs
regen-unwritten p pass s o h = rw (o, keep-hex p is_revoked s.certs h) refl

pub revoke-rows :
    (rows : List Cert) (serial cn : Text) (at : ℕ) (rows' : List Cert)
    → revoke rows serial at ≡ ok (cn, rows')
    → rows' ≡ map (revoke_row serial at) rows
unfolding revoke
revoke-rows rows serial cn at rows' h = ground arith

pub revoke_row-serial :
    (serial : Text) (at : ℕ) (c : Cert) → (revoke_row serial at c).serial ≡ c.serial
unfolding revoke_row
revoke_row-serial serial at c = ground arith

pub retire-serial :
    (now : ℕ) (kind : Kind) (cn : Text) (c : Cert) → (retire now kind cn c).serial ≡ c.serial
unfolding retire
retire-serial now kind cn c = ground arith

pub insert-rows :
    (rows : List Cert) (c : Cert) (rows' : List Cert)
    → insert_cert rows c ≡ ok rows'
    → rows' ≡ record c { revoked_at = none } ∷ rows
unfolding insert_cert
insert-rows rows c rows' h = ground arith

pub revoke_row-revoked :
    (serial t : Text) (at : ℕ) (c : Cert)
    → revoked_as t c ≡ true
    → revoked_as t (revoke_row serial at c) ≡ true
unfolding revoke_row revocable
revoke_row-revoked serial t at c h = ground arith

pub retire-revoked :
    (t cn : Text) (now : ℕ) (kind : Kind) (c : Cert)
    → revoked_as t c ≡ true
    → revoked_as t (retire now kind cn c) ≡ true
unfolding retire active_cert
retire-revoked t cn now kind c h = ground arith

pub insert-revoked :
    (t : Text) (c : Cert) (rows : List Cert)
    → any (revoked_as t) rows ≡ true
    → any (revoked_as t) (record c { revoked_at = none } ∷ rows) ≡ true
unfolding any
insert-revoked t c rows h = ground arith
