-- ===== src/Upstream/Tables.antt =====
-- `NextTable`: the table of a new upstream is the lowest that no other one has, and there is one as
-- long as there are fewer than 64 upstreams.
use ovcp.Base.{
  [], ℕ, zero, suc, ◌+◌, ◌≤◌, ◌<◌, ◌≡◌, refl, sym, subst, ◌∙◌, ◌≢◌, inl, inr, true, false, not,
  List, ◌∷◌, arith, ℕ_discrete, Bool-cases, length, keep, length-keep-le, any, ok, err,
  Result-cases,
}
use ovcp.Upstream.Config.{
  Upstream, Error, has_table, next_table_from, next_table, table_base, max_upstreams,
}

-- The first number from `t` on that no upstream has.
record IsLowest (t n : ℕ) (us : List Upstream) (r : ℕ) : Type 0 where
  at_least : t ≤ r
  inside : r < t + n
  free : any (has_table r) us ≡ false
  lowest : (s : ℕ) → t ≤ s → s < r → any (has_table s) us ≡ true

next_table_from-IsLowest :
    (n t r : ℕ) (us : List Upstream) → next_table_from n t us ≡ ok r → IsLowest t n us r
unfolding next_table_from
next_table_from-IsLowest zero t r us h = absurd (ground arith)
next_table_from-IsLowest (suc n) t r us h = elim (Bool-cases (any (has_table t) us)) [
  | inr e ↦
      let q : t ≡ r = ground arith in
      record {
        at_least = omega arith;
        inside = omega arith;
        free = subst (λ k. any (has_table k) us ≡ false) q e;
        lowest = λ s a b. absurd (omega arith);
      }
  | inl e ↦
      let rest = next_table_from-IsLowest n (t + 1) r us (ground arith) in
      record {
        at_least = omega (arith, rest.at_least);
        inside = omega (arith, rest.inside);
        free = rest.free;
        lowest = λ s a b. elim (ℕ_discrete s t) [
          | yes q ↦ subst (λ k. any (has_table k) us ≡ true) (sym q) e
          | no n ↦ rest.lowest s (omega arith) b
        ];
      }
]

any-keep_table :
    (s t : ℕ) (us : List Upstream)
    → s ≢ t
    → any (has_table t) (keep (λ u. not (has_table s u)) us) ≡ any (has_table t) us
unfolding any keep
any-keep_table s t [] h = refl
any-keep_table s t (u ∷ us) h = ground (arith, any-keep_table s t us h)

next_table_from-keep :
    (n t s : ℕ) (us : List Upstream)
    → s < t
    → next_table_from n t (keep (λ u. not (has_table s u)) us) ≡ next_table_from n t us
unfolding next_table_from
next_table_from-keep zero t s us h = refl
next_table_from-keep (suc n) t s us h =
    ground (
      arith,
      next_table_from-keep n (t + 1) s us (omega arith),
      any-keep_table s t us (omega arith),
    )

length-keep_table :
    (t : ℕ) (us : List Upstream)
    → any (has_table t) us ≡ true
    → length (keep (λ u. not (has_table t u)) us) < length us
unfolding any keep
length-keep_table t [] h = absurd (ground arith)
length-keep_table t (u ∷ us) h =
    ground (arith, length-keep_table t us, length-keep-le (λ v. not (has_table t v)) us)

-- Where no number is free, each has an upstream of its own.
next_table_from-full :
    (n t : ℕ) (us : List Upstream) {e : Error} → next_table_from n t us ≡ err e → n ≤ length us
unfolding next_table_from
next_table_from-full zero t us h = omega arith
next_table_from-full (suc n) t us {e} h = elim (Bool-cases (any (has_table t) us)) [
  | inr f ↦ absurd (ground arith)
  | inl f ↦
      let other = keep (λ u. not (has_table t u)) us in
      let rest : next_table_from n (t + 1) other ≡ err e =
        next_table_from-keep n (t + 1) t us (omega arith) ∙ ground arith in
      omega (arith, next_table_from-full n (t + 1) other rest, length-keep_table t us f)
]

-- A table that `NextTable` returns lies in the managed band, no upstream has it, and each lower one of
-- the band is in use.
pub next_table-lowest :
    (us : List Upstream) (t : ℕ)
    → next_table us ≡ ok t
    → (table_base ≤ t)
      × (t < table_base + max_upstreams)
      × (any (has_table t) us ≡ false)
      × ((s : ℕ) → table_base ≤ s → s < t → any (has_table s) us ≡ true)
unfolding next_table
next_table-lowest us t h =
    let l = next_table_from-IsLowest max_upstreams table_base t us h in
    (l.at_least, l.inside, l.free, l.lowest)

-- With fewer than 64 upstreams there is a free table, whatever tables they have.
pub next_table-total :
    (us : List Upstream) → length us < max_upstreams → (t : ℕ) × (next_table us ≡ ok t)
unfolding next_table
next_table-total us h = elim (Result-cases (next_table_from max_upstreams table_base us)) [
  | inl r ↦ r
  | inr (e, q) ↦ absurd (omega (arith, next_table_from-full max_upstreams table_base us q))
]
