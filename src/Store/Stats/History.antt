-- ===== src/Store/Stats/History.antt =====
-- That a table of samples stays in order, what pruning leaves, and that no client's reset hides another's
-- growth.
use ovcp.Base.{
  ℕ, ◌+◌, ◌-◌, ◌^◌, some, Option, find, ◌≤◌, ◌<◌, ◌≡◌, refl, ap, subst, ◌∙◌, inl, inr, Bool, true,
  ◌&&◌, none, List, [], ◌∷◌, arith, leb, leb, keep, In, Text, text_eq,
}
use ovcp.Store.Stats.{
  Reading, Sample, ClientSession, Stats, add64, add_client_sample, end_session, prune_stats, Tick,
  ticks_of, sum_of, growth_since, growth, clamped_delta, delta_of, samples_of, samples,
  client_samples, client_samples_after,
}

-- In the order of time.
abbrev pub InTime : ℕ → List Reading → Type 0
InTime k [] = Unit
InTime k (r ∷ rs) = (k ≤ r.ts) × InTime r.ts rs

keep-twice :
    (p q : Reading → Bool) (rs : List Reading)
    → ((r : Reading) → p r ≡ true → q r ≡ true)
    → keep p (keep q rs) ≡ keep p rs
unfolding keep
keep-twice p q [] h = refl
keep-twice p q (r ∷ rs) h = ground (arith, keep-twice p q rs h, h r)

-- Pruning what is older than the start of a query leaves the query's answers as they were, of the whole
-- VPN and of each client.
pub samples-prune_stats :
    (before since : ℕ) (s : Stats)
    → before ≤ since
    → (samples since (prune_stats before s) ≡ samples since s)
      × ((cn : Text) → client_samples cn since (prune_stats before s) ≡ client_samples cn since s)
unfolding samples client_samples prune_stats
samples-prune_stats before since s q = (
  ap (λ l. samples_of (ticks_of l))
      (keep-twice (λ x. leb since x.ts) (λ x. leb before x.ts) s.client_samples
        (λ r e. ground arith)),
  λ cn. ap (client_samples_after none) (
      keep-twice (λ x. text_eq x.cn cn && leb since x.ts) (λ x. leb before x.ts) s.client_samples
        (λ r e. ground arith)),
)

-- What happens to the table.
pub data Event : Type 0 where
  sampled : Reading → Event
  ended : ClientSession → Event
  pruned : ℕ → Event

unfoldable pub record_all : List Event → Stats → Stats
unfolding add_client_sample end_session prune_stats
record_all [] s = s
record_all (sampled r ∷ es) s = record_all es (add_client_sample r s)
record_all (ended c ∷ es) s = record_all es (end_session c s)
record_all (pruned before ∷ es) s = record_all es (prune_stats before s)

-- Strictly in the order of time.
abbrev TicksAscend : ℕ → List Tick → Type 0
TicksAscend k [] = Unit
TicksAscend k (t ∷ ts) = (k ≤ t.0) × TicksAscend (t.0 + 1) ts

abbrev pub SamplesAscend : ℕ → List Sample → Type 0
SamplesAscend k [] = Unit
SamplesAscend k (x ∷ xs) = (k ≤ x.ts) × SamplesAscend (x.ts + 1) xs

-- The sum before it wraps around.
abbrev pub total_of : (Reading → ℕ) → List Reading → ℕ
total_of f [] = 0
total_of f (r ∷ rs) = f r + total_of f rs

add64-small : (a b : ℕ) → a + b < 2 ^ 64 → add64 a b ≡ a + b
add64-small a b h = omega arith

sum-total :
    (f : Reading → ℕ) (rs : List Reading) → total_of f rs < 2 ^ 64 → sum_of f rs ≡ total_of f rs
unfolding sum_of
sum-total f [] h = refl
sum-total f (r ∷ rs) h =
    let q = sum-total f rs (omega arith) in
    ap (λ k. add64 (f r) k) q ∙ add64-small (f r) (total_of f rs) h

total-ge : (f : Reading → ℕ) (r : Reading) (rs : List Reading) → In r rs → f r ≤ total_of f rs
total-ge f r [] i = absurd i
total-ge f r (x ∷ rs) (inl e) =
    let q : f r ≤ f x = subst (λ k. f k ≤ f x) e (omega arith) in omega arith
total-ge f r (x ∷ rs) (inr i) = let q = total-ge f r rs i in omega arith

total-le :
    (f g : Reading → ℕ) (rs : List Reading)
    → ((r : Reading) → f r ≤ g r)
    → total_of f rs ≤ total_of g rs
total-le f g [] h = omega arith
total-le f g (x ∷ rs) h = let q = total-le f g rs h in omega (arith, h x)

clamped-monus : (prev cur : ℕ) → clamped_delta prev cur ≡ cur - prev
unfolding clamped_delta
clamped-monus prev cur = ground arith

growth-le : (f : Reading → ℕ) (o : Option Reading) (r : Reading) → growth f o r ≤ f r
growth-le f none r = omega arith
growth-le f (some p) r = omega (arith, clamped-monus (f p) (f r))

-- What a counter has gained since the client's reading at the tick before: nothing where it was reset, and
-- nothing for a client that was not there.
abbrev gained : (Reading → ℕ) → Option Reading → Reading → ℕ
gained f none r = 0
gained f (some p) r = f r - f p

abbrev pub gain_since : (Reading → ℕ) → List Reading → Reading → ℕ
gain_since f before r = gained f (find (λ q. text_eq q.cn r.cn) before) r

gained-growth : (f : Reading → ℕ) (o : Option Reading) (r : Reading) → growth f o r ≡ gained f o r
gained-growth f none r = refl
gained-growth f (some p) r = clamped-monus (f p) (f r)

total-eq :
    (f g : Reading → ℕ) (rs : List Reading)
    → ((r : Reading) → f r ≡ g r)
    → total_of f rs ≡ total_of g rs
total-eq f g [] h = refl
total-eq f g (x ∷ rs) h = let q = total-eq f g rs h in omega (arith, h x)

-- The growth of the whole VPN over one tick, from which its rate is made, is the sum of what each client's
-- counter has gained since its reading at the tick before, nothing where it was reset or has no such
-- reading, if the sum of the counters fits into 64 bits;
-- so it is no less than the gain of any one client: the reset of one counter hides no growth of another.
pub delta_of-gains :
    (f : Reading → ℕ) (before now : List Reading)
    → total_of f now < 2 ^ 64
    → (delta_of f before now ≡ total_of (gain_since f before) now)
      × ((r p : Reading)
          → In r now
          → find (λ q. text_eq q.cn r.cn) before ≡ some p
          → f r - f p ≤ delta_of f before now)
unfolding delta_of find
delta_of-gains f before now h =
    let g = growth_since f before in
    let le = total-le g f now (λ r. growth-le f (find (λ p. text_eq p.cn r.cn) before) r) in
    let q = sum-total g now (omega arith) in
    (
      q
          ∙ total-eq g (gain_since f before) now
              (λ r. gained-growth f (find (λ p. text_eq p.cn r.cn) before) r),
      λ r p i e.
          let one = total-ge g r now i in
          let here : g r ≡ f r - f p = ap (λ o. growth f o r) e ∙ clamped-monus (f p) (f r) in
          omega arith,
    )
