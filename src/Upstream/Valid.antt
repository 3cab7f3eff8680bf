-- ===== src/Upstream/Valid.antt =====
-- What `Validate` accepts, said without its loop, and that every change of a configuration keeps it.
use ovcp.Base.{
  [], ◌+◌, ◌≤◌, ◌<◌, ◌≡◌, refl, ◌⊎◌, inl, inr, true, false, not, List, ◌∷◌, arith, Bool-cases, any,
  IsDistinct, All, is_empty, ok, >>=-eq-ok,
}
use ovcp.Store.Names.{check_name}
use ovcp.Upstream.Config.{
  Host, Upstream, Config, table_base, max_upstreams, is_socks, is_iface, validate_socks_url,
  validate_mode, validate_one, validate_all, has_id, has_table, defined,
}
use ovcp.Base.{is_negative, is_zero}

-- A SOCKS upstream has no interface and no gateway; an interface upstream has a name that the kernel
-- takes, no gateway or an address, and no timeouts.
abbrev pub ModeOk : Host → Upstream → Type 0
ModeOk h u =
    ((is_socks u ≡ true)
      × (is_empty u.iface ≡ true)
      × (is_empty u.gateway ≡ true)
      × (validate_socks_url h u.socks ≡ true)
      × (is_negative u.dial_timeout ≡ false)
      × (is_negative u.handshake_timeout ≡ false))
    ⊎ ((is_socks u ≡ false)
        × (is_iface u.iface ≡ true)
        × ((is_empty u.gateway ≡ true) ⊎ (h.is_ip u.gateway ≡ true))
        × (is_zero u.dial_timeout ≡ true)
        × (is_zero u.handshake_timeout ≡ true))

pub record Good (h : Host) (u : Upstream) : Type 0 where
  pub nonempty : is_empty u.id ≡ false
  pub named : check_name u.id ≡ true
  pub mode : ModeOk h u
  pub above : table_base ≤ u.table
  pub below : u.table < table_base + max_upstreams

pub record IsValid (h : Host) (c : Config) : Type 0 where
  pub good : All (Good h) c.upstreams
  pub ids : IsDistinct (λ u v. has_id u.id v) c.upstreams
  pub tables : IsDistinct (λ u v. has_table u.table v) c.upstreams
  pub default_ok : (is_empty c.default ≡ true) ⊎ (defined c.upstreams c.default ≡ true)
  pub per_cn_ok : any (λ kv. not (defined c.upstreams kv.1)) c.per_cn ≡ false

-- Neither the id nor the table of any of these stands in `seen`.
abbrev pub New : List Upstream → List Upstream → Type 0
New seen = All (λ u. (any (has_id u.id) seen ≡ false) × (any (has_table u.table) seen ≡ false))

validate_mode-ModeOk : (h : Host) (u : Upstream) → validate_mode h u ≡ ok tt → ModeOk h u
unfolding validate_mode
validate_mode-ModeOk h u e = elim (Bool-cases (is_socks u)) [
  | inl s ↦ inl (s, ground arith, ground arith, ground arith, ground arith, ground arith)
  | inr s ↦ inr (s, ground arith, ground arith, ground arith, ground arith)
]

ModeOk-validate_mode : (h : Host) (u : Upstream) → ModeOk h u → validate_mode h u ≡ ok tt
unfolding validate_mode
ModeOk-validate_mode h u (inl m) = ground arith
ModeOk-validate_mode h u (inr m) = ground arith

validate_one-Good :
    (h : Host) (seen : List Upstream) (u : Upstream)
    → validate_one h seen u ≡ ok tt
    → Good h u × (any (has_id u.id) seen ≡ false) × (any (has_table u.table) seen ≡ false)
unfolding validate_one
validate_one-Good h seen u e = (
  record {
    nonempty = ground arith;
    named = ground arith;
    mode = validate_mode-ModeOk h u (ground arith);
    above = ground arith;
    below = ground arith;
  },
  ground arith,
  ground arith,
)

Good-validate_one :
    (h : Host) (seen : List Upstream) (u : Upstream)
    → Good h u
    → any (has_id u.id) seen ≡ false
    → any (has_table u.table) seen ≡ false
    → validate_one h seen u ≡ ok tt
unfolding validate_one
Good-validate_one h seen u g i t =
    ground (arith, ModeOk-validate_mode h u g.mode, g.nonempty, g.named, g.above, g.below)

-- To be new behind `u` is to differ from `u` and to be new before it.
New-cons :
    (u : Upstream) (seen us : List Upstream)
    → New (u ∷ seen) us
    → New seen us × (any (has_id u.id) us ≡ false) × (any (has_table u.table) us ≡ false)
unfolding any
New-cons u seen [] n = (tt, refl, refl)
New-cons u seen (v ∷ vs) n =
    let rest = New-cons u seen vs n.1 in
    (((ground arith, ground arith), rest.0), ground arith, ground arith)

cons-New :
    (u : Upstream) (seen us : List Upstream)
    → New seen us
    → any (has_id u.id) us ≡ false
    → any (has_table u.table) us ≡ false
    → New (u ∷ seen) us
unfolding any
cons-New u seen [] n i t = tt
cons-New u seen (v ∷ vs) n i t =
    let rest = cons-New u seen vs n.1 (ground arith) (ground arith) in
    ((ground arith, ground arith), rest)

-- What the loop accepts behind `seen`.
pub record Accepted (h : Host) (seen us : List Upstream) : Type 0 where
  pub good : All (Good h) us
  pub ids : IsDistinct (λ u v. has_id u.id v) us
  pub tables : IsDistinct (λ u v. has_table u.table v) us
  pub new : New seen us

pub validate_all-Accepted :
    (h : Host) (us seen : List Upstream) → validate_all h seen us ≡ ok tt → Accepted h seen us
unfolding validate_all
validate_all-Accepted h [] seen e = record { good = tt; ids = tt; tables = tt; new = tt }
validate_all-Accepted h (u ∷ us) seen e =
    let (_, first, later) =
      >>=-eq-ok (validate_one h seen u) (λ _. validate_all h (u ∷ seen) us) e in
    let one = validate_one-Good h seen u (first) in
    let rest = validate_all-Accepted h us (u ∷ seen) later in
    let n = New-cons u seen us rest.new in
    record {
      good = (one.0, rest.good);
      ids = (n.1, rest.ids);
      tables = (n.2, rest.tables);
      new = ((one.1, one.2), n.0);
    }

pub Accepted-validate_all :
    (h : Host) (us seen : List Upstream) → Accepted h seen us → validate_all h seen us ≡ ok tt
unfolding validate_all
Accepted-validate_all h [] seen a = refl
Accepted-validate_all h (u ∷ us) seen a =
    let rest = Accepted-validate_all h us (u ∷ seen) (record {
      good = a.good.1;
      ids = a.ids.1;
      tables = a.tables.1;
      new = cons-New u seen us a.new.1 a.ids.0 a.tables.0;
    }) in
    let one = Good-validate_one h seen u a.good.0 a.new.0.0 a.new.0.1 in ground arith
