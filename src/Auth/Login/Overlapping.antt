-- ===== src/Auth/Login/Overlapping.antt =====
-- How often a password can be guessed by logins that overlap. Nothing holds a lock over a whole `Login`, so a
-- login is two steps, between which others may run: it asks the limiters, and later it reads the account,
-- checks the password and counts what comes out.
use ovcp.Base.{
  [], ℕ, zero, suc, ◌+◌, ◌≤◌, ◌≡◌, refl, inl, inr, Bool, false, Option, Bool-cases, none, some,
  List, ◌∷◌, arith, if◌then◌else◌, Text, text_eq, Result, ok, err,
}
use ovcp.Auth.Limiter.{allow}
use ovcp.Store.Users.{User}
use ovcp.Auth.Login.{
  World, Service, Error, bad_credentials, totp_required, rate_limited, store_failed, known_name,
  bucket, login, login_admit, login_user,
}
use ovcp.Auth.Login.Guessing.{Attempt, is_wrong, is_success}

-- The service, and the logins that were admitted and have no answer yet.
pub record Flight : Type 0 where
  pub service : Service
  pub pending : List Attempt

-- A login comes in, or the one at a place goes on, at a later time.
pub data Step : Type 0 where
  enters : Attempt → Step
  goes_on : World → ℕ → Step

abbrev pub time_of : Step → ℕ
time_of (enters a) = a.world.now
time_of (goes_on w i) = w.now

abbrev pub at_place : ℕ → List Attempt → Option Attempt
at_place i [] = none
at_place zero (a ∷ l) = some a
at_place (suc i) (a ∷ l) = at_place i l

abbrev pub without : ℕ → List Attempt → List Attempt
without i [] = []
without zero (a ∷ l) = l
without (suc i) (a ∷ l) = a ∷ without i l

abbrev pub enter_as : Attempt → List Attempt → Service × Bool → Flight
enter_as a pending (s, admitted) = record {
  service = s;
  pending = if admitted then a ∷ pending else pending;
}

-- The rest of a login, with the world that it meets then.
abbrev pub finish : World → Service → Attempt → Service × Result Error (Text × User)
finish w s a = login_user w s (known_name a.username) a.password a.code a.ip

abbrev pub go_on : World → ℕ → Flight → Option Attempt → Flight
go_on w i f none = f
go_on w i f (some a) = record { service = (finish w f.service a).0; pending = without i f.pending }

unfoldable pub move : Flight → Step → Flight
unfolding login_admit login_user
move f (enters a) = enter_as a f.pending (login_admit a.world f.service a.username a.ip)
move f (goes_on w i) = go_on w i f (at_place i f.pending)

abbrev pub counts : Bool → ℕ
counts b = if b then 1 else 0

abbrev pub wrong_of : Text → World → Service → Option Attempt → ℕ
wrong_of name w s none = 0
wrong_of name w s (some a) = counts (is_wrong name a (finish w s a).1)

-- The wrong guesses on a name that the steps answer.
unfoldable pub wrong_answers : Text → Flight → List Step → ℕ
unfolding move login_user
wrong_answers name f [] = 0
wrong_answers name f (enters a ∷ rest) = wrong_answers name (move f (enters a)) rest
wrong_answers name f (goes_on w i ∷ rest) =
    wrong_of name w f.service (at_place i f.pending)
    + wrong_answers name (move f (goes_on w i)) rest

-- The logins to a name that have no answer yet.
abbrev pub waiting : Text → List Attempt → ℕ
waiting name [] = 0
waiting name (a ∷ l) = counts (text_eq (known_name a.username) name) + waiting name l

abbrev pub FailsFor : Text → World → Service → Option Attempt → Type 0
FailsFor name w s none = Unit
FailsFor name w s (some a) = is_success name a (finish w s a).1 ≡ false

-- The steps come in the order of their times, from `from` to `to`; none logs the name in, and never more
-- than `k` logins to it are waiting.
abbrev pub Crowd : Text → ℕ → ℕ → ℕ → Flight → List Step → Type 0
Crowd name k from to f [] = from ≤ to
Crowd name k from to f (enters a ∷ rest) =
    (from ≤ a.world.now)
    × (waiting name (move f (enters a)).pending ≤ k)
    × Crowd name k a.world.now to (move f (enters a)) rest
Crowd name k from to f (goes_on w i ∷ rest) =
    (from ≤ w.now)
    × FailsFor name w f.service (at_place i f.pending)
    × Crowd name k w.now to (move f (goes_on w i)) rest

-- A login is its two steps, with nothing in between.
pub login-admit :
    (w : World) (s : Service) (raw password code ip : Text)
    → login w s raw password code ip ≡ (
        if (login_admit w s raw ip).1
        then login_user w (login_admit w s raw ip).0 (known_name raw) password code ip
        else ((login_admit w s raw ip).0, err rate_limited))
unfolding login login_admit
login-admit w s raw password code ip =
    let name = known_name raw in
    elim (Bool-cases (allow s.limiter w.now (bucket name ip)).1) [
      | inr a ↦ rw a refl
      | inl a ↦ elim (Bool-cases (allow s.user_limiter w.now name).1) [
        | inr b ↦ rw (a, b) refl
        | inl b ↦ rw (a, b) refl
      ]
    ]

pub Crowd-le :
    (name : Text) (k from to : ℕ) (f : Flight) (rest : List Step)
    → Crowd name k from to f rest
    → from ≤ to
Crowd-le name k from to f [] h = h
Crowd-le name k from to f (enters a ∷ rest) h =
    let q = Crowd-le name k a.world.now to (move f (enters a)) rest h.2 in omega (arith, h.0)
Crowd-le name k from to f (goes_on w i ∷ rest) h =
    let q = Crowd-le name k w.now to (move f (goes_on w i)) rest h.2 in omega (arith, h.0)

pub waiting-without :
    (name : Text) (i : ℕ) (l : List Attempt) (a : Attempt)
    → at_place i l ≡ some a
    → waiting name l ≡ counts (text_eq (known_name a.username) name) + waiting name (without i l)
waiting-without name i [] a h = cc
waiting-without name zero (x ∷ l) a h = ground arith
waiting-without name (suc i) (x ∷ l) a h = let q = waiting-without name i l a h in omega arith

pub is_wrong-le :
    (name : Text) (a : Attempt) (r : Result Error (Text × User))
    → counts (is_wrong name a r) ≤ counts (text_eq (known_name a.username) name)
is_wrong-le name a (err bad_credentials) = omega arith
is_wrong-le name a (err rate_limited) = ground arith
is_wrong-le name a (err totp_required) = ground arith
is_wrong-le name a (err (store_failed e)) = ground arith
is_wrong-le name a (ok t) = ground arith
