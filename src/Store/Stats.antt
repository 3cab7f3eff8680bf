-- ===== src/Store/Stats.antt =====
-- internal/store/stats.go: the samples of the clients' counters and the sessions that have ended. The table
-- of samples stands in the order of its key's time, which is the order the queries ask for. A rate is the
-- whole part of bytes per second, which the float of the source gives below 2^53 bytes.
pub mod History
use ovcp.Base.{
  ℕ, zero, suc, ◌+◌, ◌-◌, ◌*◌, ◌/◌, ◌%◌, ◌^◌, max, ◌≤◌, ◌<◌, ◌≡◌, refl, sym, ap, subst, ◌∙◌, ◌≢◌,
  ◌↔◌, ◌⊎◌, inl, inr, ite, dite, if_pos, if_neg, Bool, true, false, not, ◌&&◌, ◌||◌, Option, none,
  some, List, [], ◌∷◌, ◌++◌, map, arith, dec_lt, dec_le, ℕ_discrete, ltb, leb, ◌==◌, within,
  if◌then◌else◌, is_yes, ltb→lt, lt→ltb, leb, Bool-cases, if-intro, Option-cases, length, take,
  drop, keep, length-append, length-keep-le, any, find, any-map, any-map-true, find-holds, find-any,
  find-none, find-not, find-keep, find-keep_of_imp, find-keep-none, any-keep, IsDistinct,
  IsDistinct-keep, In, In-keep, keep-In, All, Text, codes, text_discrete, text_eq, is_empty, Map,
  lookup, erase, insert, lookup-erase_self, lookup-erase_ne, lookup-insert_self, lookup-insert_ne,
  IsMap, IsMap-keep, IsMap-erase, IsMap-insert, lookup-keep, Result, ok, err, ◌>>=◌, ◌>>◌, refuse,
  >>=-eq-ok, Result-cases, trim_space, trim_right_space, trim_left_space, is_space, cut, cut-found,
  cut_prefix, cut_prefix-append, has_prefix, lacks, one_line, split, join,
}

pub record Reading : Type 0 where
  pub ts : ℕ
  pub cn : Text
  pub bytes_recv : ℕ
  pub bytes_sent : ℕ

pub record Sample : Type 0 where
  pub ts : ℕ
  pub clients : ℕ
  pub bytes_recv : ℕ
  pub bytes_sent : ℕ
  pub bytes_recv_rate : ℕ
  pub bytes_sent_rate : ℕ

pub record ClientSession : Type 0 where
  pub id : ℕ
  pub cn : Text
  pub real_address : Text
  pub connected_at : ℕ
  pub disconnected_at : ℕ
  pub bytes_recv : ℕ
  pub bytes_sent : ℕ

pub record Stats : Type 0 where
  pub client_samples : List Reading
  pub client_sessions : List ClientSession

-- `ClampedDelta`
unfoldable pub clamped_delta : ℕ → ℕ → ℕ
clamped_delta prev cur = if leb cur prev then 0 else cur - prev

-- `Rate`, over whole seconds.
unfoldable pub rate : ℕ → ℕ → ℕ → ℕ
unfolding clamped_delta
rate prev cur dt = if dt == 0 then 0 else clamped_delta prev cur / dt

abbrev pub add64 : ℕ → ℕ → ℕ
add64 a b = (a + b) % 2 ^ 64

abbrev pub same_key : Reading → Reading → Bool
same_key a b = a.ts == b.ts && text_eq a.cn b.cn

unfoldable pub insert_reading : Reading → List Reading → List Reading
insert_reading r [] = r ∷ []
insert_reading r (x ∷ xs) =
    let later = insert_reading r xs in if leb x.ts r.ts then x ∷ later else r ∷ x ∷ xs

-- `AddClientSample`: INSERT OR REPLACE.
unfoldable pub add_client_sample : Reading → Stats → Stats
unfolding insert_reading keep text_discrete
add_client_sample r s = record s {
  client_samples = insert_reading r (keep (λ x. not (same_key x r)) s.client_samples);
}

-- `EndSession`
unfoldable pub end_session : ClientSession → Stats → Stats
end_session c s = record s { client_sessions = c ∷ s.client_sessions }

unfoldable pub insert_session : ClientSession → List ClientSession → List ClientSession
insert_session c [] = c ∷ []
insert_session c (x ∷ xs) =
    let later = insert_session c xs in
    if ltb c.disconnected_at x.disconnected_at then x ∷ later else c ∷ x ∷ xs

unfoldable pub newest_first : List ClientSession → List ClientSession
unfolding insert_session
newest_first [] = []
newest_first (c ∷ cs) = insert_session c (newest_first cs)

-- `Sessions`
unfoldable pub sessions : ℕ → Stats → List ClientSession
unfolding newest_first
sessions limit s = take limit (newest_first s.client_sessions)

-- `PruneStats`
unfoldable pub prune_stats : ℕ → Stats → Stats
unfolding keep
prune_stats before s = record {
  client_samples = keep (λ x. leb before x.ts) s.client_samples;
  client_sessions = keep (λ c. leb before c.disconnected_at) s.client_sessions;
}

-- One tick: its time and what each client's counters were.
abbrev pub Tick : Type 0
Tick = ℕ × List Reading

abbrev pub add_to_ticks : Reading → List Tick → List Tick
add_to_ticks r [] = (r.ts, r ∷ []) ∷ []
add_to_ticks r ((t, rs) ∷ ticks) =
    if r.ts == t then (t, r ∷ rs) ∷ ticks else (r.ts, r ∷ []) ∷ (t, rs) ∷ ticks

-- The first loop of `Samples`, over readings in the order of time.
unfoldable pub ticks_of : List Reading → List Tick
ticks_of [] = []
ticks_of (r ∷ rs) = add_to_ticks r (ticks_of rs)

unfoldable pub sum_of : (Reading → ℕ) → List Reading → ℕ
sum_of f [] = 0
sum_of f (r ∷ rs) = add64 (f r) (sum_of f rs)

-- A client's growth since the tick before; none for one that was not there.
abbrev pub growth : (Reading → ℕ) → Option Reading → Reading → ℕ
growth f none r = 0
growth f (some prev) r = clamped_delta (f prev) (f r)

abbrev pub growth_since : (Reading → ℕ) → List Reading → Reading → ℕ
growth_since f before r = growth f (find (λ p. text_eq p.cn r.cn) before) r

unfoldable pub delta_of : (Reading → ℕ) → List Reading → List Reading → ℕ
unfolding sum_of clamped_delta find text_discrete
delta_of f before now = sum_of (growth_since f before) now

abbrev recv_of : Reading → ℕ
recv_of r = r.bytes_recv

abbrev sent_of : Reading → ℕ
sent_of r = r.bytes_sent

unfoldable pub first_sample : Tick → Sample
unfolding sum_of
first_sample (t, rs) = record {
  ts = t;
  clients = length rs;
  bytes_recv = sum_of recv_of rs;
  bytes_sent = sum_of sent_of rs;
  bytes_recv_rate = 0;
  bytes_sent_rate = 0;
}

unfoldable pub next_sample : Tick → Tick → Sample
unfolding first_sample delta_of rate
next_sample (t0, before) (t, rs) = record (first_sample (t, rs)) {
  bytes_recv_rate = rate 0 (delta_of recv_of before rs) (t - t0);
  bytes_sent_rate = rate 0 (delta_of sent_of before rs) (t - t0);
}

unfoldable pub samples_after : Tick → List Tick → List Sample
unfolding next_sample
samples_after before [] = []
samples_after before (t ∷ ts) = next_sample before t ∷ samples_after t ts

unfoldable pub samples_of : List Tick → List Sample
unfolding first_sample samples_after
samples_of [] = []
samples_of (t ∷ ts) = first_sample t ∷ samples_after t ts

-- `Samples`
unfoldable pub samples : ℕ → Stats → List Sample
unfolding keep ticks_of samples_of
samples since s = samples_of (ticks_of (keep (λ x. leb since x.ts) s.client_samples))

unfoldable pub client_samples_after : Option Reading → List Reading → List Sample
unfolding rate
client_samples_after last [] = []
client_samples_after last (r ∷ rs) =
    (record {
      ts = r.ts;
      clients = 0;
      bytes_recv = r.bytes_recv;
      bytes_sent = r.bytes_sent;
      bytes_recv_rate = elim last [
        | none ↦ 0
        | some p ↦ rate p.bytes_recv r.bytes_recv (r.ts - p.ts)
      ];
      bytes_sent_rate = elim last [
        | none ↦ 0
        | some p ↦ rate p.bytes_sent r.bytes_sent (r.ts - p.ts)
      ];
    })
    ∷ client_samples_after (some r) rs

-- `ClientSamples`
unfoldable pub client_samples : Text → ℕ → Stats → List Sample
unfolding keep client_samples_after text_discrete
client_samples cn since s =
    client_samples_after none (keep (λ x. text_eq x.cn cn && leb since x.ts) s.client_samples)
