-- ===== src/Auth/Limiter/Refinement.antt =====
-- What a key's own history says of it, without the other keys and without the sweeping, and that
-- the table of the limiter holds exactly this at every later moment.
use ovcp.Base.{
  [], ℕ, ◌≤◌, ◌≡◌, refl, sym, subst, ◌∙◌, not, List, ◌∷◌, Option, none, some, if◌then◌else◌, is_yes,
  Text, text_discrete, Map, lookup, arith, lookup-erase_self, lookup-erase_ne, lookup-insert_self,
  lookup-insert_ne, IsMap, IsMap-erase, IsMap-insert, IsMap-keep, lookup-keep,
}
use ovcp.Auth.Limiter.{
  Entry, Limiter, is_expired, allow, sweep, bump, fail, reset, Call, allows, fails, resets, step,
  run,
}

-- An entry counts only until its window has passed.
unfoldable pub visible : ℕ → ℕ → Option Entry → Option Entry
visible window now none = none
visible window now (some e) = if is_expired window now e then none else some e

-- The live entry of a key.
unfoldable pub live : Limiter → ℕ → Text → Option Entry
unfolding visible
live l now key = visible l.window now (lookup text_discrete key l.failures)

-- The specification: one key's entry, from the calls about that key alone.
unfoldable pub track : ℕ → Text → Option Entry → ℕ × Call → Option Entry
track window key o (now, allows k) = o
track window key o (now, fails k) =
    if is_yes (text_discrete k key) then some (bump window now (visible window now o)) else o
track window key o (now, resets k) = if is_yes (text_discrete k key) then none else o

unfoldable pub track_all : ℕ → Text → Option Entry → List (ℕ × Call) → Option Entry
track_all window key o [] = o
track_all window key o (c ∷ cs) = track_all window key (track window key o c) cs

-- The calls come in the order of their times, none before `from` and none after `to`.
abbrev pub Ordered : ℕ → ℕ → List (ℕ × Call) → Type 0
Ordered from to [] = from ≤ to
Ordered from to ((t, c) ∷ cs) = (from ≤ t) × Ordered t to cs

visible-visible :
    (window now later : ℕ) (o : Option Entry)
    → now ≤ later
    → visible window later (visible window now o) ≡ visible window later o
unfolding visible
visible-visible window now later none h = refl
visible-visible window now later (some e) h = ground arith

-- The sweep leaves what is live.
pub lookup-sweep :
    (window now : ℕ) (key : Text) (m : Map Text Entry)
    → IsMap text_discrete m
    → lookup text_discrete key (sweep window now m)
      ≡ visible window now (lookup text_discrete key m)
unfolding visible sweep
lookup-sweep window now key m h =
    ground (arith, lookup-keep text_discrete (λ kv. not (is_expired window now kv.1)) key m h)

-- The table of `l` shows at every moment from `from` on what the history `o` of the key says.
abbrev pub Shows : ℕ → Limiter → Text → Option Entry → ℕ → Type 0
Shows window l key o from = (t : ℕ) → from ≤ t → live l t key ≡ visible window t o

abbrev pub HasMap : Limiter → Type 0
HasMap l = IsMap text_discrete l.failures

pub step-HasMap : (l : Limiter) (c : ℕ × Call) → HasMap l → HasMap (step l c)
unfolding step allow fail reset
step-HasMap l (now, allows k) h = ground (arith, IsMap-erase text_discrete k l.failures h)
step-HasMap l (now, fails k) h =
    IsMap-insert text_discrete k _ _ (IsMap-keep text_discrete _ l.failures h)
step-HasMap l (now, resets k) h = IsMap-erase text_discrete k l.failures h

pub step-window : (l : Limiter) (c : ℕ × Call) → (step l c).window ≡ l.window
unfolding step allow fail reset
step-window l (now, allows k) = ground arith
step-window l (now, fails k) = refl
step-window l (now, resets k) = refl

pub step-max : (l : Limiter) (c : ℕ × Call) → (step l c).max ≡ l.max
unfolding step allow fail reset
step-max l (now, allows k) = ground arith
step-max l (now, fails k) = refl
step-max l (now, resets k) = refl

allow-Shows :
    (l : Limiter) (key k : Text) (o : Option Entry) (now : ℕ)
    → Shows l.window l key o now
    → Shows l.window (allow l now k).0 key o now
unfolding allow live visible
allow-Shows l key k o now s t h = elim (text_discrete k key) [
  | yes e ↦ ground (arith, s t h, s now, lookup-erase_self text_discrete k l.failures)
  | no n ↦ ground (arith, s t h, lookup-erase_ne text_discrete k key l.failures n)
]

reset-Shows :
    (l : Limiter) (key k : Text) (o : Option Entry) (now : ℕ)
    → Shows l.window l key o now
    → Shows l.window (reset l k) key (track l.window key o (now, resets k)) now
unfolding reset live visible track
reset-Shows l key k o now s t h = elim (text_discrete k key) [
  | yes e ↦ ground (arith, lookup-erase_self text_discrete k l.failures)
  | no n ↦ ground (arith, s t h, lookup-erase_ne text_discrete k key l.failures n)
]

fail-Shows :
    (l : Limiter) (key k : Text) (o : Option Entry) (now : ℕ)
    → HasMap l
    → Shows l.window l key o now
    → Shows l.window (fail l now k) key (track l.window key o (now, fails k)) now
unfolding fail live track
fail-Shows l key k o now m s t h =
    let swept = sweep l.window now l.failures in
    let left = lookup text_discrete k swept in
    elim (text_discrete k key) [
      | yes e ↦ ground (
        arith,
        lookup-insert_self text_discrete k (bump l.window now left) swept,
        lookup-sweep l.window now k l.failures m,
        s now,
      )
      | no n ↦ ground (
        arith,
        lookup-insert_ne text_discrete k key (bump l.window now left) swept n,
        lookup-sweep l.window now key l.failures m,
        visible-visible l.window now t (lookup text_discrete key l.failures) h,
        s t h,
      )
    ]

pub step-Shows :
    (l : Limiter) (key : Text) (o : Option Entry) (now : ℕ) (c : Call)
    → HasMap l
    → Shows l.window l key o now
    → Shows l.window (step l (now, c)) key (track l.window key o (now, c)) now
unfolding step track
step-Shows l key o now (allows k) m s = allow-Shows l key k o now s
step-Shows l key o now (fails k) m s = fail-Shows l key k o now m s
step-Shows l key o now (resets k) m s = reset-Shows l key k o now s

run-Shows :
    (window : ℕ) (key : Text) (cs : List (ℕ × Call)) (l : Limiter) (o : Option Entry) (from to : ℕ)
    → HasMap l
    → l.window ≡ window
    → Shows window l key o from
    → Ordered from to cs
    → Shows window (run l cs) key (track_all window key o cs) to
unfolding run track_all
run-Shows window key [] l o from to m e s h = λ t k. s t (omega arith)
run-Shows window key ((now, c) ∷ cs) l o from to m e s h =
    let later : Shows l.window l key o now =
      subst (λ u. Shows u l key o now) (sym e) (λ u g. s u (omega arith)) in
    let next = step-Shows l key o now c m later in
    run-Shows window key cs (step l (now, c)) (track window key o (now, c)) now to
      (step-HasMap l (now, c) m) (step-window l (now, c) ∙ e)
      (subst (λ u. Shows u (step l (now, c)) key (track u key o (now, c)) now) e next) h.1

-- With one entry for each key at the start: after any sequence of calls in the order of their times, on any keys, the live entry of a key is
-- what the calls about that key alone make of the entry that it had: the sweeping of expired
-- entries and the calls on other keys change nothing.
pub run-live :
    (key : Text) (cs : List (ℕ × Call)) (l : Limiter) (from to : ℕ)
    → HasMap l
    → Ordered from to cs
    → live (run l cs) to key
      ≡ visible l.window to (track_all l.window key (lookup text_discrete key l.failures) cs)
run-live key cs l from to m h =
    run-Shows l.window key cs l (lookup text_discrete key l.failures) from to m refl
      (unfold live in λ t k. refl) h to (omega arith)
