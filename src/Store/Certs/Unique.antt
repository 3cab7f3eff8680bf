-- ===== src/Store/Certs/Unique.antt =====
-- The certs table holds at most one active client certificate for a CN and at most one active server
-- certificate, and each serial once.
use ovcp.Base.{[], ℕ, Bool, true, false, List, ◌∷◌, map, ◌≡◌, Text, any, arith, any-map}
use ovcp.Store.Certs.{
  Call, adds, replaces, revokes, sets_dns, after, step, run, Cert, Kind, is_revoked, active_cert,
  clashes, same_serial, insert_cert, add_cert, retire, replace_cert, revoke_row, revoke,
  set_dns_row, set_cert_dns,
}

abbrev pub IsUnique : List Cert → Type 0
IsUnique [] = Unit
IsUnique (c ∷ cs) =
    (any (clashes c) cs ≡ false) × (any (same_serial c.serial) cs ≡ false) × IsUnique cs

-- An update that keeps who a certificate is for, and never brings a revoked one back.
pub record IsRetiring (f : Cert → Cert) : Type 0 where
  pub serial : (c : Cert) → (f c).serial ≡ c.serial
  pub cn : (c : Cert) → (f c).cn ≡ c.cn
  pub kind : (c : Cert) → (f c).kind ≡ c.kind
  pub revoked : (c : Cert) → is_revoked c ≡ true → is_revoked (f c) ≡ true

clashes-map :
    (f : Cert → Cert)
    → IsRetiring f
    → (c r : Cert) → clashes c r ≡ false
    → clashes (f c) (f r) ≡ false
unfolding clashes active_cert
clashes-map f h c r e = ground (arith, h.cn c, h.kind c, h.revoked c, h.cn r, h.kind r, h.revoked r)

same_serial-map :
    (f : Cert → Cert)
    → IsRetiring f
    → (c r : Cert) → same_serial c.serial r ≡ false
    → same_serial (f c).serial (f r) ≡ false
unfolding same_serial
same_serial-map f h c r e = ground (arith, h.serial c, h.serial r)

map-IsUnique :
    (f : Cert → Cert) → IsRetiring f → (cs : List Cert) → IsUnique cs → IsUnique (map f cs)
map-IsUnique f h [] u = tt
map-IsUnique f h (c ∷ cs) u = (
  any-map (clashes c) (clashes (f c)) f cs (clashes-map f h c) u.0,
  any-map (same_serial c.serial) (same_serial (f c).serial) f cs (same_serial-map f h c) u.1,
  map-IsUnique f h cs u.2,
)

insert_cert-IsUnique :
    (old rows : List Cert) (c : Cert)
    → IsUnique old
    → IsUnique rows
    → IsUnique (after old (insert_cert rows c))
unfolding insert_cert
insert_cert-IsUnique old rows c v u = ground arith

pub retire-IsRetiring : (now : ℕ) (kind : Kind) (cn : Text) → IsRetiring (retire now kind cn)
unfolding retire
retire-IsRetiring now kind cn = record {
  serial = λ c. ground arith;
  cn = λ c. ground arith;
  kind = λ c. ground arith;
  revoked = λ c h. ground arith;
}

pub revoke_row-IsRetiring : (serial : Text) (at : ℕ) → IsRetiring (revoke_row serial at)
unfolding revoke_row
revoke_row-IsRetiring serial at = record {
  serial = λ c. ground arith;
  cn = λ c. ground arith;
  kind = λ c. ground arith;
  revoked = λ c h. ground arith;
}

pub set_dns_row-IsRetiring :
    (serial : Text) (include : Bool) → IsRetiring (set_dns_row serial include)
unfolding set_dns_row
set_dns_row-IsRetiring serial include = record {
  serial = λ c. ground arith;
  cn = λ c. ground arith;
  kind = λ c. ground arith;
  revoked = λ c h. ground arith;
}

pub step-IsUnique : (rows : List Cert) (c : Call) → IsUnique rows → IsUnique (step rows c)
unfolding step add_cert replace_cert revoke set_cert_dns
step-IsUnique rows (adds c) u = insert_cert-IsUnique rows rows c u u
step-IsUnique rows (replaces now c) u =
    insert_cert-IsUnique rows (map (retire now c.kind c.cn) rows) c u
      (map-IsUnique (retire now c.kind c.cn) (retire-IsRetiring now c.kind c.cn) rows u)
step-IsUnique rows (revokes serial at) u =
    ground (arith, map-IsUnique (revoke_row serial at) (revoke_row-IsRetiring serial at) rows u)
step-IsUnique rows (sets_dns serial include) u = ground (
  arith,
  map-IsUnique (set_dns_row serial include) (set_dns_row-IsRetiring serial include) rows u,
)

-- Whatever sequence of issues, renewals, revocations and DNS changes is made, a table in which no
-- two rows share a serial, no two active client certificates a CN, and no two active certificates
-- are the server's stays one.
pub run-IsUnique :
    (calls : List Call) (rows : List Cert) → IsUnique rows → IsUnique (run rows calls)
unfolding run
run-IsUnique [] rows u = u
run-IsUnique (c ∷ cs) rows u = run-IsUnique cs (step rows c) (step-IsUnique rows c u)
