-- ===== src/Auth/Login/Guessing.antt =====
-- How often a password can be guessed, by logins that do not overlap: every wrong guess on an account counts against the account's
-- own limiter, whatever address it comes from and whatever else is logged in between.
use ovcp.Base.{
  [], ℕ, ◌+◌, max, ◌≤◌, ◌<◌, ◌≡◌, refl, sym, ap, subst, ◌∙◌, inl, inr, Bool, true, false, Option,
  none, some, List, ◌∷◌, arith, if◌then◌else◌, Text, text_discrete, text_eq, Result, ok, err,
}
use ovcp.Auth.Limiter.{Limiter, Entry, allow, reset, bump, Call, allows, fails, resets, step}
use ovcp.Auth.Limiter.Refinement.{
  HasMap, Shows, live, visible, track, step-Shows, step-HasMap, step-max, step-window,
}
use ovcp.Auth.Limiter.Lockout.{verdict, allow-verdict, visible_later}
use ovcp.Store.Users.{User}
use ovcp.Auth.Login.{
  World, Service, Error, bad_credentials, totp_required, rate_limited, store_failed, known_name,
  login,
}
use ovcp.Auth.Login.Outcome.{Leaves, login-Leaves, login-allowed}

-- One attempt, with the world that it meets.
pub record Attempt : Type 0 where
  pub world : World
  pub username : Text
  pub password : Text
  pub code : Text
  pub ip : Text

unfoldable pub attempt : Service → Attempt → Service × Result Error (Text × User)
attempt s a = login a.world s a.username a.password a.code a.ip

-- The answer was "invalid credentials", for this name.
abbrev pub is_wrong : Text → Attempt → Result Error (Text × User) → Bool
is_wrong name a (err bad_credentials) = text_eq (known_name a.username) name
is_wrong name a _ = false

abbrev pub is_success : Text → Attempt → Result Error (Text × User) → Bool
is_success name a (ok t) = text_eq (known_name a.username) name
is_success name a (err e) = false

-- The wrong guesses on a name in a row of attempts.
unfoldable pub wrong_guesses : Text → Service → List Attempt → ℕ
unfolding attempt
wrong_guesses name s [] = 0
wrong_guesses name s (a ∷ rest) =
    (if is_wrong name a (attempt s a).1 then 1 else 0) + wrong_guesses name (attempt s a).0 rest

-- The attempts come in the order of their times, from `from` to `to`, and none logs the name in.
abbrev pub Unsuccessful : Text → ℕ → ℕ → Service → List Attempt → Type 0
Unsuccessful name from to s [] = from ≤ to
Unsuccessful name from to s (a ∷ rest) =
    (from ≤ a.world.now)
    × (is_success name a (attempt s a).1 ≡ false)
    × Unsuccessful name a.world.now to (attempt s a).0 rest

-- The entry of a name after an attempt.
abbrev pub next_entry :
    Text → ℕ → Attempt → Option Entry → Result Error (Text × User) → Option Entry
next_entry name window a o (err bad_credentials) =
    track window name o (a.world.now, fails (known_name a.username))
next_entry name window a o _ = o

-- What an attempt leaves of the limiter: its limits, its well-formedness, and the entry of the name.
pub record Next (l l' : Limiter) (name : Text) (o : Option Entry) (now : ℕ) : Type 0 where
  pub has_map : HasMap l'
  pub same_window : l'.window ≡ l.window
  pub same_max : l'.max ≡ l.max
  pub shows : Shows l.window l' name o now

pub Next-step :
    (l l' : Limiter) (name : Text) (o : Option Entry) (now : ℕ) (c : Call)
    → Next l l' name o now
    → Next l (step l' (now, c)) name (track l.window name o (now, c)) now
Next-step l l' name o now c n = record {
  has_map = step-HasMap l' (now, c) n.has_map;
  same_window = step-window l' (now, c) ∙ n.same_window;
  same_max = step-max l' (now, c) ∙ n.same_max;
  shows =
      subst (λ w. Shows w (step l' (now, c)) name (track w name o (now, c)) now) n.same_window
        (step-Shows l' name o now c n.has_map
          (subst (λ w. Shows w l' name o now) (sym n.same_window) n.shows));
}

pub Next-allow :
    (l : Limiter) (name k : Text) (o : Option Entry) (now : ℕ)
    → Next l l name o now
    → Next l (allow l now k).0 name o now
unfolding step track
Next-allow l name k o now n = Next-step l l name o now (allows k) n

pub Next-reset :
    (l l' : Limiter) (name k : Text) (o : Option Entry) (now : ℕ)
    → text_eq k name ≡ false
    → Next l l' name o now
    → Next l (reset l' k) name o now
unfolding step track
Next-reset l l' name k o now h n =
    let after = Next-step l l' name o now (resets k) n in
    subst (λ u. Next l (reset l' k) name u now) (ground arith) after

attempt-Next :
    (name : Text) (s s' : Service) (a : Attempt) (o : Option Entry) (r : Result Error (Text × User))
    → Leaves a.world s s' (known_name a.username) a.ip r
    → is_success name a r ≡ false
    → Next s.user_limiter s.user_limiter name o a.world.now
    → Next s.user_limiter s'.user_limiter name
        (next_entry name s.user_limiter.window a o r)
        a.world.now
unfolding step
attempt-Next name s s' a o (err bad_credentials) v h n = rw v.3 (
    Next-step s.user_limiter _ name o a.world.now (fails (known_name a.username))
      (Next-allow s.user_limiter name (known_name a.username) o a.world.now n))
attempt-Next name s s' a o (err rate_limited) v h n = elim v.3 [
  | inl e ↦ rw e n
  | inr e ↦ rw e (Next-allow s.user_limiter name (known_name a.username) o a.world.now n)
]
attempt-Next name s s' a o (err totp_required) v h n =
    rw v.3 (Next-allow s.user_limiter name (known_name a.username) o a.world.now n)
attempt-Next name s s' a o (err (store_failed e)) v h n =
    rw v.3 (Next-allow s.user_limiter name (known_name a.username) o a.world.now n)
attempt-Next name s s' a o (ok (token, u)) v h n = rw v.3 (
    Next-reset s.user_limiter _ name (known_name a.username) o a.world.now h
      (Next-allow s.user_limiter name (known_name a.username) o a.world.now n))

abbrev pub used : Option Entry → ℕ
used none = 0
used (some e) = e.count

-- From `from` to `to` the entry, or one made in this time, does not expire.
abbrev pub Fits : ℕ → ℕ → ℕ → Option Entry → Type 0
Fits window from to none = to ≤ from + window
Fits window from to (some e) = (e.first ≤ from) × (to ≤ e.first + window)

Unsuccessful-le :
    (name : Text) (rest : List Attempt) (s : Service) (from to : ℕ)
    → Unsuccessful name from to s rest
    → from ≤ to
Unsuccessful-le name [] s from to h = h
Unsuccessful-le name (a ∷ rest) s from to h =
    omega (arith, h.0, Unsuccessful-le name rest (attempt s a).0 a.world.now to h.2)

pub next_entry-used :
    (name : Text) (window to : ℕ) (a : Attempt) (o : Option Entry) (r : Result Error (Text × User))
    → Fits window a.world.now to o
    → a.world.now ≤ to
    → (used (next_entry name window a o r) ≡ used o + (if is_wrong name a r then 1 else 0))
      × Fits window a.world.now to (next_entry name window a o r)
unfolding track bump visible
next_entry-used name window to a none (err bad_credentials) f h = ground arith
next_entry-used name window to a (some e) (err bad_credentials) f h = ground arith
next_entry-used name window to a o (err rate_limited) f h = (omega arith, f)
next_entry-used name window to a o (err totp_required) f h = (omega arith, f)
next_entry-used name window to a o (err (store_failed e)) f h = (omega arith, f)
next_entry-used name window to a o (ok t) f h = (omega arith, f)

pub Fits-later :
    (window from now to : ℕ) (o : Option Entry)
    → from ≤ now
    → Fits window from to o
    → Fits window now to o
Fits-later window from now to none h f = omega arith
Fits-later window from now to (some e) h f = omega arith

pub below_of_verdict :
    (o : Option Entry) (window max to now : ℕ)
    → 0 < max
    → Fits window now to o
    → now ≤ to
    → verdict max (visible window now o) ≡ true
    → used o < max
unfolding verdict visible
below_of_verdict none window max to now p f h e = p
below_of_verdict (some e) window max to now p f h q = ground arith

-- A wrong guess is made only below the limit.
wrong-below :
    (name : Text) (s : Service) (a : Attempt) (o : Option Entry) (window max to : ℕ)
    → s.user_limiter.max ≡ max
    → 0 < max
    → live s.user_limiter a.world.now name ≡ visible window a.world.now o
    → Fits window a.world.now to o
    → a.world.now ≤ to
    → (r : Result Error (Text × User)) → (attempt s a).1 ≡ r
    → used o ≤ max
    → used o + (if is_wrong name a r then 1 else 0) ≤ max
unfolding attempt
wrong-below name s a o window max to m p v f h (err bad_credentials) e u =
    elim (text_discrete (known_name a.username) name) [
      | no n ↦ ground arith
      | yes q ↦
          let allowed : (allow s.user_limiter a.world.now name).1 ≡ true =
            subst (λ k. (allow s.user_limiter a.world.now k).1 ≡ true) q
              (login-allowed a.world s a.username a.password a.code a.ip e) in
          let below = below_of_verdict o window max to a.world.now p f h in
          let seen = sym (allow-verdict s.user_limiter a.world.now name) ∙ allowed in
          let small = below (
            sym (ap (verdict max) v)
            ∙ ap (λ (k : ℕ). verdict k (live s.user_limiter a.world.now name)) (sym m)
            ∙ seen) in
          ground arith
    ]
wrong-below name s a o window max to m p v f h (err rate_limited) e u = omega arith
wrong-below name s a o window max to m p v f h (err totp_required) e u = omega arith
wrong-below name s a o window max to m p v f h (err (store_failed q)) e u = omega arith
wrong-below name s a o window max to m p v f h (ok t) e u = omega arith

attempt-limiter :
    (name : Text) (s : Service) (a : Attempt) (o : Option Entry) (window : ℕ)
    → s.user_limiter.window ≡ window
    → HasMap s.user_limiter
    → Shows window s.user_limiter name o a.world.now
    → is_success name a (attempt s a).1 ≡ false
    → Next s.user_limiter
        (attempt s a).0.user_limiter
        name
        (next_entry name s.user_limiter.window a o (attempt s a).1)
        a.world.now
unfolding attempt
attempt-limiter name s a o window w hm v h =
    attempt-Next name s _ a o _ (login-Leaves a.world s a.username a.password a.code a.ip) h
      (record {
        has_map = hm;
        same_window = refl;
        same_max = refl;
        shows = subst (λ k. Shows k s.user_limiter name o a.world.now) (sym w) v;
      })

bounded :
    (name : Text) (rest : List Attempt) (s : Service) (o : Option Entry) (window max from to : ℕ)
    → s.user_limiter.window ≡ window
    → s.user_limiter.max ≡ max
    → 0 < max
    → HasMap s.user_limiter
    → Shows window s.user_limiter name o from
    → Fits window from to o
    → used o ≤ max
    → Unsuccessful name from to s rest
    → used o + wrong_guesses name s rest ≤ max
unfolding wrong_guesses
bounded name [] s o window max from to w m p hm v f u h = omega arith
bounded name (a ∷ rest) s o window max from to w m p hm v f u h =
    let now = a.world.now in
    let r = (attempt s a).1 in
    let fits = Fits-later window from now to o h.0 f in
    let to_le = Unsuccessful-le name rest (attempt s a).0 now to h.2 in
    let before : Shows window s.user_limiter name o now = λ t g. v t (omega (arith, h.0)) in
    let left = next_entry-used name window to a o r fits to_le in
    let below =
      wrong-below name s a o window max to m p (before now (omega arith)) fits to_le r refl u in
    let next = attempt-limiter name s a o window w hm before h.1 in
    let step =
      bounded name rest (attempt s a).0 (next_entry name window a o r) window max now to
        (next.same_window ∙ w) (next.same_max ∙ m) p next.has_map
        (subst (λ k. Shows k (attempt s a).0.user_limiter name (next_entry name k a o r) now) w
          next.shows)
        left.1 (omega arith) h.2 in
    omega arith

-- With one entry for each key and a positive maximum in the account's limiter:
-- from a moment at which an account has no live failure, and for logins of which each ends before the next
-- one starts, however many addresses take part and whatever other accounts are logged in to, within one
-- window in which no login to the account succeeds no more wrong guesses on it are answered than the maximum
-- of the account's limiter.
pub wrong_guesses-le-max :
    (name : Text) (attempts : List Attempt) (s : Service) (from to : ℕ)
    → HasMap s.user_limiter
    → 0 < s.user_limiter.max
    → live s.user_limiter from name ≡ none
    → to ≤ from + s.user_limiter.window
    → Unsuccessful name from to s attempts
    → wrong_guesses name s attempts ≤ s.user_limiter.max
unfolding live visible
wrong_guesses-le-max name attempts s from to m p v w h =
    let shown : Shows s.user_limiter.window s.user_limiter name none from =
      λ t g. visible_later s.user_limiter.window from t _ g v in
    let total =
      bounded name attempts s none s.user_limiter.window s.user_limiter.max from to refl refl p m
        shown w (omega arith) h in
    omega arith
