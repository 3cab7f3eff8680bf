-- ===== src/Auth/Limiter.antt =====
-- internal/auth/totp.go, the `Limiter`: it locks a key after `max` failures within `window`.
-- The clock is an argument of each call: a call takes the limiter's mutex for its whole body, so
-- calls happen one after another. `now.Sub(first) > window` is a truncated difference here, which
-- is the same test for a window that is not negative.
pub mod Refinement
pub mod Lockout
use ovcp.Base.{
  [], ℕ, ◌+◌, ◌-◌, Bool, true, not, List, ◌∷◌, Option, none, some, ltb, if◌then◌else◌, Text,
  text_discrete, Map, lookup, insert, erase, keep,
}

pub record Entry : Type 0 where
  pub count : ℕ
  pub first : ℕ

pub record Limiter : Type 0 where
  pub max : ℕ
  pub window : ℕ
  pub failures : Map Text Entry

unfoldable pub new_limiter : ℕ → ℕ → Limiter
new_limiter max window = record { max = max; window = window; failures = [] }

-- `now.Sub(e.first) > l.window`
abbrev pub is_expired : ℕ → ℕ → Entry → Bool
is_expired window now e = ltb window (now - e.first)

-- The entry that `Allow` found, if any; an expired one is deleted.
allow_entry : Limiter → ℕ → Text → Option Entry → Limiter × Bool
allow_entry l now key none = (l, true)
allow_entry l now key (some e) =
    if is_expired l.window now e
    then (record l { failures = erase text_discrete key l.failures }, true)
    else (l, ltb e.count l.max)

unfoldable pub allow : Limiter → ℕ → Text → Limiter × Bool
unfolding allow_entry
allow l now key = allow_entry l now key (lookup text_discrete key l.failures)

-- The loop that deletes every expired entry.
unfoldable pub sweep : ℕ → ℕ → Map Text Entry → Map Text Entry
unfolding keep
sweep window now = keep (λ kv. not (is_expired window now kv.1))

-- The entry to store, from the one that the sweep left.
unfoldable pub bump : ℕ → ℕ → Option Entry → Entry
bump window now none = record { count = 1; first = now }
bump window now (some e) =
    if is_expired window now e
    then record { count = 1; first = now }
    else record e { count = e.count + 1 }

unfoldable pub fail : Limiter → ℕ → Text → Limiter
unfolding sweep bump
fail l now key =
    let swept = sweep l.window now l.failures in
    record l {
      failures =
          insert text_discrete key (bump l.window now (lookup text_discrete key swept)) swept;
    }

unfoldable pub reset : Limiter → Text → Limiter
reset l key = record l { failures = erase text_discrete key l.failures }

-- One call, with the time at which it takes the lock.
pub data Call : Type 0 where
  allows fails resets : Text → Call

unfoldable pub step : Limiter → ℕ × Call → Limiter
step l (now, allows key) = (allow l now key).0
step l (now, fails key) = fail l now key
step l (now, resets key) = reset l key

unfoldable pub run : Limiter → List (ℕ × Call) → Limiter
run l [] = l
run l (c ∷ cs) = run (step l c) cs
