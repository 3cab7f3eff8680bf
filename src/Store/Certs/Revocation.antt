-- ===== src/Store/Certs/Revocation.antt =====
-- Renewal takes over from the active certificate, and a revocation is for ever.
use ovcp.Base.{
  [], Option-cases, some, none, ℕ, Bool, true, false, ◌&&◌, List, ◌∷◌, map, ◌≡◌, refl, ◌≢◌, inl,
  inr, Text, any, find, arith, ok, err, any-map-true, keep,
}
use ovcp.Store.Certs.Unique.{
  step-IsUnique, run-IsUnique, IsUnique, IsRetiring, retire-IsRetiring, revoke_row-IsRetiring,
  set_dns_row-IsRetiring,
}
use ovcp.Store.Certs.{
  Cert, Kind, duplicate_cn, no_active_cert, is_revoked, active_cert, clashes, same_serial,
  insert_cert, add_cert, require_active_cert, retire, replace_cert, revocable, revoke_row, revoke,
  set_dns_row, set_cert_dns, revoked_certs, Call, adds, replaces, revokes, sets_dns, after, step,
  run,
}

-- A row with this serial is revoked.
abbrev pub is_revoked_serial : Text → Cert → Bool
is_revoked_serial serial c = same_serial serial c && is_revoked c

-- The unique indexes see a new row as the statements see an active one.
any-clashes :
    (rows : List Cert) (c : Cert)
    → any (clashes (record c { revoked_at = none })) rows ≡ any (active_cert c.kind c.cn) rows
unfolding clashes
any-clashes rows c = refl

-- An issue is refused for its CN exactly when the check before a renewal finds a certificate to
-- replace.
pub add_cert-require_active_cert :
    (rows : List Cert) (c : Cert)
    → (add_cert rows c ≡ err duplicate_cn → require_active_cert rows c.cn c.kind ≡ ok tt)
      × (require_active_cert rows c.cn c.kind ≡ ok tt → add_cert rows c ≡ err duplicate_cn)
unfolding add_cert require_active_cert clashes
add_cert-require_active_cert rows c =
    (λ h. ground (arith, any-clashes rows c), λ h. ground (arith, any-clashes rows c))

any-retire :
    (now : ℕ) (kind : Kind) (cn : Text) (rows : List Cert)
    → any (active_cert kind cn) (map (retire now kind cn) rows) ≡ false
unfolding any retire
any-retire now kind cn [] = refl
any-retire now kind cn (r ∷ rs) = ground (arith, any-retire now kind cn rs)

-- A renewal is never refused for the CN.
pub replace_cert-ne-duplicate :
    (now : ℕ) (rows : List Cert) (c : Cert) → replace_cert now rows c ≢ err duplicate_cn
unfolding replace_cert clashes
replace_cert-ne-duplicate now rows c =
    ground
      (arith, any-clashes (map (retire now c.kind c.cn) rows) c, any-retire now c.kind c.cn rows)

keep-retire :
    (now : ℕ) (kind : Kind) (cn : Text) (rows : List Cert)
    → keep (active_cert kind cn) (map (retire now kind cn) rows) ≡ []
unfolding keep retire
keep-retire now kind cn [] = refl
keep-retire now kind cn (r ∷ rs) = ground (arith, keep-retire now kind cn rs)

active_cert_self : (c : Cert) → active_cert c.kind c.cn (record c { revoked_at = none }) ≡ true
unfolding active_cert
active_cert_self c = ground arith

-- After a renewal that succeeds the new certificate is the only active one of its kind and CN, or the
-- only active one of the server.
pub replace_cert-active :
    (now : ℕ) (rows : List Cert) (c : Cert) {rows' : List Cert}
    → replace_cert now rows c ≡ ok rows'
    → keep (active_cert c.kind c.cn) rows' ≡ record c { revoked_at = none } ∷ []
unfolding replace_cert insert_cert keep
replace_cert-active now rows c h =
    ground (arith, keep-retire now c.kind c.cn rows, active_cert_self c)

retiring-revoked :
    (serial : Text) (f : Cert → Cert) (rows : List Cert)
    → IsRetiring f
    → any (is_revoked_serial serial) rows ≡ true
    → any (is_revoked_serial serial) (map f rows) ≡ true
unfolding same_serial
retiring-revoked serial f rows h =
    any-map-true (is_revoked_serial serial) (is_revoked_serial serial) f rows
      (λ c e. ground (arith, h.serial c, h.revoked c))

insert_cert-revoked :
    (serial : Text) (old rows : List Cert) (c : Cert)
    → any (is_revoked_serial serial) old ≡ true
    → any (is_revoked_serial serial) rows ≡ true
    → any (is_revoked_serial serial) (after old (insert_cert rows c)) ≡ true
unfolding insert_cert any
insert_cert-revoked serial old rows c h k = ground arith

-- A row revoked once stays revoked under each call.
step-revoked :
    (serial : Text) (rows : List Cert) (c : Call)
    → any (is_revoked_serial serial) rows ≡ true
    → any (is_revoked_serial serial) (step rows c) ≡ true
unfolding step add_cert replace_cert revoke set_cert_dns
step-revoked serial rows (adds c) h = insert_cert-revoked serial rows rows c h h
step-revoked serial rows (replaces now c) h =
    insert_cert-revoked serial rows (map (retire now c.kind c.cn) rows) c h
      (retiring-revoked serial (retire now c.kind c.cn) rows (retire-IsRetiring now c.kind c.cn) h)
step-revoked serial rows (revokes s at) h =
    ground (arith, retiring-revoked serial (revoke_row s at) rows (revoke_row-IsRetiring s at) h)
step-revoked serial rows (sets_dns s include) h = ground (
  arith,
  retiring-revoked serial (set_dns_row s include) rows (set_dns_row-IsRetiring s include) h,
)

run-revoked :
    (serial : Text) (calls : List Call) (rows : List Cert)
    → any (is_revoked_serial serial) rows ≡ true
    → any (is_revoked_serial serial) (run rows calls) ≡ true
unfolding run
run-revoked serial [] rows h = h
run-revoked serial (c ∷ cs) rows h =
    run-revoked serial cs (step rows c) (step-revoked serial rows c h)

revoked_certs-any :
    (serial : Text) (rows : List Cert)
    → any (is_revoked_serial serial) rows ≡ any (same_serial serial) (revoked_certs rows)
unfolding revoked_certs any
revoked_certs-any serial [] = refl
revoked_certs-any serial (c ∷ cs) = ground (arith, revoked_certs-any serial cs)

revoke-marks :
    (serial : Text) (at : ℕ) (rows : List Cert) (c : Cert)
    → find (revocable serial) rows ≡ some c
    → any (is_revoked_serial serial) (map (revoke_row serial at) rows) ≡ true
unfolding find any revoke_row
revoke-marks serial at [] c h = cc
revoke-marks serial at (r ∷ rs) c h = ground (arith, revoke-marks serial at rs c)

revoke-any :
    (rows : List Cert) (serial cn : Text) (at : ℕ) (rows' : List Cert)
    → revoke rows serial at ≡ ok (cn, rows')
    → any (is_revoked_serial serial) rows' ≡ true
unfolding revoke
revoke-any rows serial cn at rows' h = elim (Option-cases (find (revocable serial) rows)) [
  | inl e ↦ ground arith
  | inr (c, e) ↦ ground (arith, revoke-marks serial at rows c e)
]

-- Once `Revoke` has accepted a serial, the serial is in `RevokedCerts`, from which the CRL is made,
-- after any further issues, renewals, revocations and DNS changes.
pub revoke-revoked_certs :
    (rows : List Cert) (serial cn : Text) (at : ℕ) (rows' : List Cert) (calls : List Call)
    → revoke rows serial at ≡ ok (cn, rows')
    → any (same_serial serial) (revoked_certs (run rows' calls)) ≡ true
revoke-revoked_certs rows serial cn at rows' calls h =
    rw (← revoked_certs-any serial (run rows' calls))
      (run-revoked serial calls rows' (revoke-any rows serial cn at rows' h))

no_serial-none :
    (serial : Text) (rows : List Cert)
    → any (same_serial serial) rows ≡ false
    → (find (revocable serial) rows ≡ none) × (any (is_revoked_serial serial) rows ≡ false)
unfolding find any revocable
no_serial-none serial [] h = (refl, refl)
no_serial-none serial (r ∷ rs) h = ground (arith, no_serial-none serial rs)

revoked-none :
    (serial : Text) (rows : List Cert)
    → IsUnique rows
    → any (is_revoked_serial serial) rows ≡ true
    → find (revocable serial) rows ≡ none
unfolding find any revocable
revoked-none serial [] u h = refl
revoked-none serial (r ∷ rs) u h =
    ground (arith, no_serial-none r.serial rs u.1, revoked-none serial rs u.2)

revoke-IsUnique :
    (rows : List Cert) (serial cn : Text) (at : ℕ) (rows' : List Cert)
    → IsUnique rows
    → revoke rows serial at ≡ ok (cn, rows')
    → IsUnique rows'
unfolding step
revoke-IsUnique rows serial cn at rows' u h =
    let kept : IsUnique (step rows (revokes serial at)) =
      step-IsUnique rows (revokes serial at) u in
    rw h at kept

revoke-none :
    (rows : List Cert) (serial : Text) (at : ℕ)
    → find (revocable serial) rows ≡ none
    → revoke rows serial at ≡ err no_active_cert
unfolding revoke
revoke-none rows serial at h = ground arith

-- In a table without duplicates, once a serial is revoked a second revocation of it is refused,
-- whatever was issued, renewed, revoked or changed in between.
pub revoke_twice :
    (rows : List Cert) (serial cn : Text) (at later : ℕ) (rows' : List Cert) (calls : List Call)
    → IsUnique rows
    → revoke rows serial at ≡ ok (cn, rows')
    → revoke (run rows' calls) serial later ≡ err no_active_cert
revoke_twice rows serial cn at later rows' calls u h = revoke-none (run rows' calls) serial later (
    revoked-none serial (run rows' calls)
      (run-IsUnique calls rows' (revoke-IsUnique rows serial cn at rows' u h))
      (run-revoked serial calls rows' (revoke-any rows serial cn at rows' h)))
