-- ===== src/Auth/Limiter/Lockout.antt =====
-- The verdict of `Allow` after any history: a key is locked by `max` failures within the window, and
-- by nothing else.
use ovcp.Base.{
  [], false, lookup, lookup-insert_self, lookup-insert_ne, ℕ, ◌+◌, ◌≤◌, ◌<◌, ◌≡◌, refl, ◌≢◌, ap,
  ◌∙◌, Bool, true, List, ◌∷◌, Option, none, some, ltb, if◌then◌else◌, is_yes, Text, text_discrete,
  arith,
}
use ovcp.Auth.Limiter.{
  fail, is_expired, sweep, Entry, Limiter, allow, bump, Call, allows, fails, resets, step, run,
}
use ovcp.Auth.Limiter.Refinement.{
  lookup-sweep, visible, live, track, track_all, Ordered, HasMap, step-max, run-live,
}

-- What `Allow` answers for a live entry.
unfoldable pub verdict : ℕ → Option Entry → Bool
verdict max none = true
verdict max (some e) = ltb e.count max

pub allow-verdict :
    (l : Limiter) (now : ℕ) (key : Text) → (allow l now key).1 ≡ verdict l.max (live l now key)
unfolding allow verdict live visible
allow-verdict l now key = ground arith

run-max : (cs : List (ℕ × Call)) (l : Limiter) → (run l cs).max ≡ l.max
unfolding run
run-max [] l = refl
run-max (c ∷ cs) l = run-max cs (step l c) ∙ step-max l c

-- The failures of a key among the calls.
unfoldable pub failures_of : Text → List (ℕ × Call) → ℕ
failures_of key [] = 0
failures_of key ((t, fails k) ∷ cs) =
    (if is_yes (text_discrete k key) then 1 else 0) + failures_of key cs
failures_of key ((t, allows k) ∷ cs) = failures_of key cs
failures_of key ((t, resets k) ∷ cs) = failures_of key cs

-- No call resets the key.
abbrev pub NoReset : Text → List (ℕ × Call) → Type 0
NoReset key [] = Unit
NoReset key ((t, allows k) ∷ cs) = NoReset key cs
NoReset key ((t, fails k) ∷ cs) = NoReset key cs
NoReset key ((t, resets k) ∷ cs) = (k ≢ key) × NoReset key cs

Ordered-le : (cs : List (ℕ × Call)) (from to : ℕ) → Ordered from to cs → from ≤ to
Ordered-le [] from to h = h
Ordered-le ((t, c) ∷ cs) from to h = omega (arith, Ordered-le cs t to h.1)

track_all-some :
    (window : ℕ) (key : Text) (cs : List (ℕ × Call)) (n first from to : ℕ)
    → Ordered from to cs
    → to ≤ first + window
    → NoReset key cs
    → track_all window key (some (record { count = n; first = first })) cs
      ≡ some (record { count = n + failures_of key cs; first = first })
unfolding track_all track failures_of visible bump
track_all-some window key [] n first from to h w r = ground arith
track_all-some window key ((t, allows k) ∷ cs) n first from to h w r =
    track_all-some window key cs n first t to h.1 w r
track_all-some window key ((t, resets k) ∷ cs) n first from to h w r =
    ground (arith, track_all-some window key cs n first t to h.1 w r.1)
track_all-some window key ((t, fails k) ∷ cs) n first from to h w r = ground (
  arith,
  Ordered-le cs t to h.1,
  track_all-some window key cs n first t to h.1 w r,
  track_all-some window key cs (n + 1) first t to h.1 w r,
)

pub visible_later :
    (window now later : ℕ) (o : Option Entry)
    → now ≤ later
    → visible window now o ≡ none
    → visible window later o ≡ none
unfolding visible
visible_later window now later none h e = refl
visible_later window now later (some x) h e = ground arith

track_all-fresh :
    (window max : ℕ) (key : Text) (cs : List (ℕ × Call)) (o : Option Entry) (from to : ℕ)
    → 0 < max
    → visible window from o ≡ none
    → Ordered from to cs
    → to ≤ from + window
    → NoReset key cs
    → verdict max (visible window to (track_all window key o cs)) ≡ ltb (failures_of key cs) max
unfolding track_all track failures_of visible bump verdict
track_all-fresh window max key [] none from to p v h w r = ground arith
track_all-fresh window max key [] (some e) from to p v h w r = ground arith
track_all-fresh window max key ((t, allows k) ∷ cs) o from to p v h w r =
    track_all-fresh window max key cs o t to p (visible_later window from t o h.0 v) h.1
      (omega arith) r
track_all-fresh window max key ((t, resets k) ∷ cs) o from to p v h w r =
    let gone = visible_later window from t o h.0 v in
    let rest = track_all-fresh window max key cs o t to p gone h.1 (omega arith) r.1 in ground arith
track_all-fresh window max key ((t, fails k) ∷ cs) o from to p v h w r =
    let gone = visible_later window from t o h.0 v in
    let rest = track_all-fresh window max key cs o t to p gone h.1 (omega arith) r in
    let counted = track_all-some window key cs 1 t t to h.1 (omega arith) r in ground arith

-- With one entry for each key and a positive maximum:
-- from a moment at which a key has no live failure, after any calls on any keys within one window,
-- of which none resets the key, `Allow` accepts the key exactly when it failed less than `max`
-- times, however the other keys' calls came in between.
pub run-allow :
    (key : Text) (cs : List (ℕ × Call)) (l : Limiter) (from now : ℕ)
    → HasMap l
    → 0 < l.max
    → live l from key ≡ none
    → Ordered from now cs
    → now ≤ from + l.window
    → NoReset key cs
    → (allow (run l cs) now key).1 ≡ ltb (failures_of key cs) l.max
unfolding live
run-allow key cs l from now m p v h w r =
    let shown = run-live key cs l from now m h in
    let fresh = track_all-fresh l.window l.max key cs _ from now p v h w r in
    allow-verdict (run l cs) now key
    ∙ ap (λ (n : ℕ). verdict n (live (run l cs) now key)) (run-max cs l)
    ∙ ap (verdict l.max) shown
    ∙ fresh

-- With one entry for each key, `Fail` leaves no expired entry behind, of any key.
pub fail-unexpired :
    (l : Limiter) (now : ℕ) (key k : Text) (e : Entry)
    → HasMap l
    → lookup text_discrete k (fail l now key).failures ≡ some e
    → is_expired l.window now e ≡ false
unfolding fail visible bump
fail-unexpired l now key k e m h =
    let swept = sweep l.window now l.failures in
    let new = bump l.window now (lookup text_discrete key swept) in
    elim (text_discrete key k) [
      | yes p ↦ ground (arith, lookup-insert_self text_discrete key new swept)
      | no n ↦ ground (
        arith,
        lookup-insert_ne text_discrete key k new swept n,
        lookup-sweep l.window now k l.failures m,
      )
    ]
