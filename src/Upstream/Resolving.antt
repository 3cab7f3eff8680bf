-- ===== src/Upstream/Resolving.antt =====
-- The upstream that `Resolve` gives a client before and after each change of a configuration.
use ovcp.Base.{
  [], ◌≡◌, refl, subst, ◌⊎◌, inl, inr, Bool, true, false, not, ◌||◌, some, List, ◌∷◌, arith,
  if◌then◌else◌, Option-cases, any, find, Text, text_discrete, text_eq, is_empty, Map, lookup,
  insert, lookup-erase_self, lookup-erase_ne, IsMap, lookup-keep, ok, refuse, >>=-eq-ok,
}
use ovcp.Upstream.Config.{
  bad_assign, Host, Upstream, Config, defined, has_id, find_upstream, resolve, without, assign,
  assigned, same_bool, validated,
}
use ovcp.Upstream.Valid.{IsValid}
use ovcp.Upstream.Changes.{validated-IsValid}

resolve-assigned :
    (c : Config) (cn id : Text) (clear : Bool) (other : Text)
    → resolve (assigned c cn id clear) other
      ≡ (if text_eq cn other then (if clear then c.default else id) else resolve c other)
unfolding assigned resolve lookup insert
resolve-assigned c cn id clear other = ground (
  arith,
  lookup-erase_self text_discrete cn c.per_cn,
  lookup-erase_ne text_discrete cn other c.per_cn,
)

-- A successful `Assign` with `clear` sends its client to the default, one without `clear` sends it to
-- the upstream named, and neither changes where another client goes.
pub resolve-assign :
    (h : Host) (c c' : Config) (cn id : Text) (clear : Bool) (other : Text)
    → assign h c cn id clear ≡ ok c'
    → resolve c' other
      ≡ (if text_eq cn other then (if clear then c.default else id) else resolve c other)
unfolding assign
resolve-assign h c c' cn id clear other e =
    let (_, _, later) =
      >>=-eq-ok (refuse (is_empty cn || same_bool clear (not (is_empty id))) bad_assign)
        (λ _. validated h (assigned c cn id clear)) e in
    let q = (validated-IsValid h (assigned c cn id clear) c' later).0 in
    subst
      (λ d.
        resolve d other
        ≡ (if text_eq cn other then (if clear then c.default else id) else resolve c other))
      q (resolve-assigned c cn id clear other)

-- With a map for its overrides: once an upstream is removed, the clients that it carried go to the
-- default, or to none when it was the default itself, and every other client stays where it was.
pub resolve-without :
    (c : Config) (id cn : Text)
    → IsMap text_discrete c.per_cn
    → resolve (without c id).0 cn ≡ (
        if text_eq (resolve c cn) id
        then (if text_eq c.default id then [] else c.default)
        else resolve c cn)
unfolding without resolve
resolve-without c id cn m =
    ground (arith, lookup-keep text_discrete (λ kv. not (text_eq kv.1 id)) cn c.per_cn m)

-- What a test on the entries refuses, no lookup finds.
lookup-any :
    (p : Text × Text → Bool) (k id : Text) (m : Map Text Text)
    → lookup text_discrete k m ≡ some id
    → any p m ≡ false
    → p (k, id) ≡ false
unfolding lookup any
lookup-any p k id [] e n = cc
lookup-any p k id ((j, v) ∷ m) e n = ground (arith, lookup-any p k id m)

defined-find :
    (us : List Upstream) (id : Text)
    → defined us id ≡ true
    → (u : Upstream) × (find (has_id id) us ≡ some u) × (u.id ≡ id)
unfolding any find
defined-find [] id d = cc
defined-find (u ∷ us) id d = elim (text_discrete u.id id) [
  | yes e ↦ (u, ground arith, e)
  | no n ↦ let (w, f, e) = defined-find us id (ground arith) in (w, ground arith, e)
]

is_empty-nil : (t : Text) → is_empty t ≡ true → t ≡ []
is_empty-nil [] e = refl
is_empty-nil (c ∷ t) e = cc

-- In a valid configuration every client goes to no upstream or to one that the configuration has.
pub resolve-defined :
    (h : Host) (c : Config) (cn : Text)
    → IsValid h c
    → (resolve c cn ≡ [])
      ⊎ ((u : Upstream) × (find_upstream c (resolve c cn) ≡ some u) × (u.id ≡ resolve c cn))
unfolding resolve find_upstream
resolve-defined h c cn v =
    let Found : Text → Type 0 =
      λ t. (t ≡ []) ⊎ ((u : Upstream) × (find_upstream c t ≡ some u) × (u.id ≡ t)) in
    elim (Option-cases (lookup text_discrete cn c.per_cn)) [
      | inl none_there ↦
          let q : c.default ≡ resolve c cn = ground arith in
          elim v.default_ok [
            | inl empty ↦ subst Found q (inl (is_empty-nil c.default empty))
            | inr there ↦ subst Found q (inr (defined-find c.upstreams c.default there))
          ]
      | inr (id, found) ↦
          let q : id ≡ resolve c cn = ground arith in
          let there : defined c.upstreams id ≡ true = ground (
            arith,
            lookup-any (λ kv. not (defined c.upstreams kv.1)) cn id c.per_cn found v.per_cn_ok,
          ) in
          subst Found q (inr (defined-find c.upstreams id there))
    ]
