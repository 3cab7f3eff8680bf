-- ===== src/Store/Certs.antt =====
-- internal/store/store.go, the certs table: issue, renewal, revocation, the DNS flag and the reports.
pub mod Unique
pub mod Revocation
pub mod Report
use ovcp.Base.{
  [], ℕ, ◌+◌, ◌-◌, ◌*◌, Bool, true, false, not, ◌&&◌, ◌||◌, List, ◌∷◌, map, Option, none, some, ltb,
  leb, if◌then◌else◌, Text, text_eq, keep, any, find, Result, ok, err, ◌>>=◌,
}

pub data Kind : Type 0 where
  server client : Kind

pub record Cert : Type 0 where
  pub serial : Text
  pub cn : Text
  pub kind : Kind
  pub cert_pem : Text
  pub issued_at : ℕ
  pub not_after : ℕ
  pub revoked_at : Option ℕ
  pub include_dns : Bool

-- `constraint` is any other violated constraint, here the primary key on the serial.
pub data Error : Type 0 where
  duplicate_cn no_active_cert constraint : Error

abbrev pub is_revoked : Cert → Bool
is_revoked c = elim c.revoked_at [ none ↦ false | some t ↦ true ]

abbrev pub same_kind : Kind → Kind → Bool
same_kind server server = true
same_kind client client = true
same_kind _ _ = false

abbrev pub is_server : Kind → Bool
is_server server = true
is_server client = false

-- `kind = ? AND (kind = 'server' OR cn = ?) AND revoked_at IS NULL`
unfoldable pub active_cert : Kind → Text → Cert → Bool
active_cert kind cn c =
    same_kind kind c.kind && (is_server kind || text_eq c.cn cn) && not (is_revoked c)

-- The unique indexes refuse `r` beside a new row `c`.
unfoldable pub clashes : Cert → Cert → Bool
unfolding active_cert
clashes c r = not (is_revoked c) && active_cert c.kind c.cn r

unfoldable pub same_serial : Text → Cert → Bool
same_serial serial c = text_eq c.serial serial

-- `INSERT INTO certs`: a new row has no revocation time.
unfoldable pub insert_cert : List Cert → Cert → Result Error (List Cert)
unfolding clashes same_serial any
insert_cert rows c =
    let new : Cert = record c { revoked_at = none } in
    if any (clashes new) rows
    then err duplicate_cn
    else if any (same_serial c.serial) rows
    then err constraint
    else ok (new ∷ rows)

unfoldable pub add_cert : List Cert → Cert → Result Error (List Cert)
unfolding insert_cert
add_cert rows c = insert_cert rows c

unfoldable pub require_active_cert : List Cert → Text → Kind → Result Error (Unit {0})
unfolding active_cert any
require_active_cert rows cn kind =
    if any (active_cert kind cn) rows then ok tt else err no_active_cert

-- The UPDATE of `ReplaceCert`, on one row.
unfoldable pub retire : ℕ → Kind → Text → Cert → Cert
unfolding active_cert
retire now kind cn r = if active_cert kind cn r then record r { revoked_at = some now } else r

-- One transaction: an insert that fails rolls the update back.
unfoldable pub replace_cert : ℕ → List Cert → Cert → Result Error (List Cert)
unfolding retire insert_cert
replace_cert now rows c = insert_cert (map (retire now c.kind c.cn) rows) c

-- `serial = ? AND kind = 'client' AND revoked_at IS NULL`
unfoldable pub revocable : Text → Cert → Bool
unfolding same_serial
revocable serial c = same_serial serial c && same_kind client c.kind && not (is_revoked c)

unfoldable pub revoke_row : Text → ℕ → Cert → Cert
unfolding revocable
revoke_row serial at r = if revocable serial r then record r { revoked_at = some at } else r

-- The UPDATE ... RETURNING cn.
unfoldable pub revoke : List Cert → Text → ℕ → Result Error (Text × List Cert)
unfolding revoke_row find
revoke rows serial at = elim (find (revocable serial) rows) [
  | none ↦ err no_active_cert
  | some c ↦ ok (c.cn, map (revoke_row serial at) rows)
]

unfoldable pub set_dns_row : Text → Bool → Cert → Cert
unfolding same_serial
set_dns_row serial include r =
    if same_serial serial r then record r { include_dns = include } else r

abbrev same_bool : Bool → Bool → Bool
same_bool true b = b
same_bool false b = not b

-- The CN, whether the flag changed, and the rows.
unfoldable pub set_cert_dns : List Cert → Text → Bool → Result Error (Text × Bool × List Cert)
unfolding set_dns_row revocable find
set_cert_dns rows serial include = elim (find (revocable serial) rows) [
  | none ↦ err no_active_cert
  | some c ↦
      if same_bool c.include_dns include
      then ok (c.cn, false, rows)
      else ok (c.cn, true, map (set_dns_row serial include) rows)
]

unfoldable pub revoked_certs : List Cert → List Cert
unfolding keep
revoked_certs rows = keep is_revoked rows

pub data Status : Type 0 where
  revoked expired expiring valid : Status

-- ExpiryWarnDays in seconds.
abbrev pub expiry_warn : ℕ
expiry_warn = 30 * 24 * 60 * 60

unfoldable pub status : ℕ → Cert → Status
status now c =
    if is_revoked c
    then revoked
    else if ltb c.not_after now
    then expired
    else if leb (c.not_after - now) expiry_warn
    then expiring
    else valid

abbrev is_expiring : Status → Bool
is_expiring expiring = true
is_expiring _ = false

-- (live, expiring)
unfoldable pub cert_counts : ℕ → List Cert → ℕ × ℕ
unfolding status
cert_counts now [] = (0, 0)
cert_counts now (c ∷ cs) =
    let (live, soon) = cert_counts now cs in
    if is_revoked c
    then (live, soon)
    else (live + 1, if is_expiring (status now c) then soon + 1 else soon)

-- A call on the table; one that fails leaves it as it was.
pub data Call : Type 0 where
  adds : Cert → Call
  replaces : ℕ → Cert → Call
  revokes : Text → ℕ → Call
  sets_dns : Text → Bool → Call

abbrev pub after : List Cert → Result Error (List Cert) → List Cert
after rows (ok rows') = rows'
after rows (err e) = rows

unfoldable pub step : List Cert → Call → List Cert
unfolding add_cert replace_cert
step rows (adds c) = after rows (add_cert rows c)
step rows (replaces now c) = after rows (replace_cert now rows c)
step rows (revokes serial at) = after rows (revoke rows serial at >>= λ r. ok r.1)
step rows (sets_dns serial include) = after rows (set_cert_dns rows serial include >>= λ r. ok r.2)

unfoldable pub run : List Cert → List Call → List Cert
run rows [] = rows
run rows (c ∷ cs) = run (step rows c) cs
