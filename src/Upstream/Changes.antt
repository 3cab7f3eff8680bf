-- ===== src/Upstream/Changes.antt =====
-- Every change of a configuration keeps it valid, removal too, which checks nothing.
use ovcp.Base.{
  [], ◌≡◌, refl, subst, ◌≢◌, ◌↔◌, inl, Bool, false, not, ◌||◌, List, ◌∷◌, arith, if-intro, keep,
  any, IsDistinct-keep, All, Text, text_discrete, text_eq, is_empty, Map, ok, refuse, >>=-eq-ok,
}
use ovcp.Upstream.Config.{
  bad_assign, Host, Upstream, Config, validate_all, validate, has_id, defined, next_table,
  with_added, added_to, without, assign, assigned, same_bool, set_default, validated,
}
use ovcp.Upstream.Valid.{Good, IsValid, New, validate_all-Accepted, Accepted-validate_all}

New-nil : (us : List Upstream) → New [] us
unfolding any
New-nil [] = tt
New-nil (u ∷ us) = ((refl, refl), New-nil us)

-- `Validate` accepts exactly the configurations whose upstreams are each well formed, differ in id and
-- in table, and are where the default and every override point.
pub validate-IsValid : (h : Host) (c : Config) → (validate h c ≡ ok tt) ↔ IsValid h c
unfolding validate
validate-IsValid h c = (sound, complete)
  where
    sound : validate h c ≡ ok tt → IsValid h c
    sound e =
        let (_, first, later) = >>=-eq-ok (validate_all h [] c.upstreams) _ e in
        let a = validate_all-Accepted h c.upstreams [] first in
        record {
          good = a.good;
          ids = a.ids;
          tables = a.tables;
          default_ok = ground arith;
          per_cn_ok = ground arith;
        }

    complete : IsValid h c → validate h c ≡ ok tt
    complete v =
        let all =
          Accepted-validate_all h c.upstreams []
            (record { good = v.good; ids = v.ids; tables = v.tables; new = New-nil c.upstreams }) in
        ground (arith, v.default_ok, v.per_cn_ok)

All-keep :
    (h : Host) (p : Upstream → Bool) (us : List Upstream)
    → All (Good h) us
    → All (Good h) (keep p us)
unfolding keep
All-keep h p [] a = tt
All-keep h p (u ∷ us) a =
    if-intro (All (Good h)) (p u) _ _ (a.0, All-keep h p us a.1) (All-keep h p us a.1)

defined-keep :
    (us : List Upstream) (id other : Text)
    → other ≢ id
    → defined (keep (λ u. not (has_id id u)) us) other ≡ defined us other
unfolding keep any
defined-keep [] id other n = refl
defined-keep (u ∷ us) id other n = ground (arith, defined-keep us id other n)

per_cn-keep :
    (us : List Upstream) (id : Text) (m : Map Text Text)
    → any (λ kv. not (defined us kv.1)) m ≡ false
    → any
        (λ kv. not (defined (keep (λ u. not (has_id id u)) us) kv.1))
        (keep (λ kv. not (text_eq kv.1 id)) m)
      ≡ false
unfolding keep any
per_cn-keep us id [] h = refl
per_cn-keep us id ((cn, target) ∷ m) h =
    ground (arith, per_cn-keep us id m, defined-keep us id target)

-- A valid configuration without one of its upstreams, or without an id that it does not have, is valid.
pub without-IsValid : (h : Host) (c : Config) (id : Text) → IsValid h c → IsValid h (without c id).0
unfolding without
without-IsValid h c id v = record {
  good = All-keep h (λ u. not (has_id id u)) c.upstreams v.good;
  ids = IsDistinct-keep _ (λ u. not (has_id id u)) c.upstreams v.ids;
  tables = IsDistinct-keep _ (λ u. not (has_id id u)) c.upstreams v.tables;
  default_ok = elim (text_discrete c.default id) [
    | yes e ↦ inl (ground arith)
    | no n ↦ ground (arith, v.default_ok, defined-keep c.upstreams id c.default n)
  ];
  per_cn_ok = per_cn-keep c.upstreams id c.per_cn v.per_cn_ok;
}

pub validated-IsValid : (h : Host) (c c' : Config) → validated h c ≡ ok c' → (c ≡ c') × IsValid h c'
unfolding validated
validated-IsValid h c c' e =
    let (_, checked, same) = >>=-eq-ok (validate h c) (λ _. ok c) e in
    let q : c ≡ c' = ground arith in (q, subst (IsValid h) q ((validate-IsValid h c).0 checked))

-- A `SetDefault` that succeeds leaves a valid configuration.
pub set_default-IsValid :
    (h : Host) (c c' : Config) (id : Text) → set_default h c id ≡ ok c' → IsValid h c'
unfolding set_default
set_default-IsValid h c c' id e = (validated-IsValid h _ c' e).1

-- An `Assign` that succeeds leaves a valid configuration, whatever it was given.
pub assign-IsValid :
    (h : Host) (c c' : Config) (cn id : Text) (clear : Bool)
    → assign h c cn id clear ≡ ok c'
    → IsValid h c'
unfolding assign
assign-IsValid h c c' cn id clear e =
    let (_, _, later) =
      >>=-eq-ok (refuse (is_empty cn || same_bool clear (not (is_empty id))) bad_assign)
        (λ _. validated h (assigned c cn id clear)) e in
    (validated-IsValid h (assigned c cn id clear) c' later).1

-- An `Add` that succeeds leaves a valid configuration, whatever it was given.
pub with_added-IsValid :
    (h : Host) (c c' : Config) (u added : Upstream)
    → with_added h c u ≡ ok (c', added)
    → IsValid h c'
unfolding with_added
with_added-IsValid h c c' u added e =
    let (t, _, later) = >>=-eq-ok (next_table c.upstreams) _ e in
    let (_, checked, same) = >>=-eq-ok (validate h (added_to c u t)) _ later in
    let q : added_to c u t ≡ c' = ground arith in
    subst (IsValid h) q ((validate-IsValid h (added_to c u t)).0 checked)
