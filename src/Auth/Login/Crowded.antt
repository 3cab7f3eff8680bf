-- ===== src/Auth/Login/Crowded.antt =====
-- The bound on wrong guesses by logins that overlap.
use ovcp.Base.{
  [], ℕ, ◌+◌, ◌≤◌, ◌<◌, ◌≡◌, refl, sym, ap, subst, ◌∙◌, inl, inr, true, false, Option, Option-cases,
  Bool-cases, none, some, List, ◌∷◌, arith, Text, text_discrete, Result, ok, err,
}
use ovcp.Auth.Limiter.{Limiter, Entry, allow, fails, step}
use ovcp.Auth.Limiter.Refinement.{HasMap, Shows, live, visible}
use ovcp.Auth.Limiter.Lockout.{verdict, allow-verdict, visible_later}
use ovcp.Store.Users.{User}
use ovcp.Auth.Login.{
  World, Service, Error, bad_credentials, totp_required, rate_limited, store_failed, known_name,
  bucket, login_admit,
}
use ovcp.Auth.Login.Outcome.{UserLeaves, login_user-UserLeaves}
use ovcp.Auth.Login.Guessing.{
  Attempt, is_wrong, is_success, Next, Next-step, Next-allow, Next-reset, next_entry, used, Fits,
  next_entry-used, Fits-later, below_of_verdict,
}
use ovcp.Auth.Login.Overlapping.{
  Flight, Step, at_place, finish, go_on, move, counts, wrong_of, wrong_answers, waiting, FailsFor,
  Crowd, Crowd-le, waiting-without, is_wrong-le, enters, goes_on,
}

admit-Next :
    (name : Text) (s : Service) (a : Attempt) (o : Option Entry)
    → Next s.user_limiter s.user_limiter name o a.world.now
    → Next s.user_limiter (login_admit a.world s a.username a.ip).0.user_limiter name o a.world.now
unfolding login_admit
admit-Next name s a o n =
    elim (Bool-cases (allow s.limiter a.world.now (bucket (known_name a.username) a.ip)).1) [
      | inr b ↦ rw b n
      | inl b ↦ rw b (Next-allow s.user_limiter name (known_name a.username) o a.world.now n)
    ]

admit-allowed :
    (s : Service) (a : Attempt)
    → (login_admit a.world s a.username a.ip).1 ≡ true
    → (allow s.user_limiter a.world.now (known_name a.username)).1 ≡ true
unfolding login_admit
admit-allowed s a h =
    elim (Bool-cases (allow s.limiter a.world.now (bucket (known_name a.username) a.ip)).1) [
      | inr b ↦ absurd (ground arith)
      | inl b ↦ ground arith
    ]

-- A login is admitted only below the limit, and then is one of those that wait.
enter-room :
    (name : Text) (f : Flight) (a : Attempt) (o : Option Entry) (window max k to : ℕ)
    → f.service.user_limiter.max ≡ max
    → 0 < max
    → live f.service.user_limiter a.world.now name ≡ visible window a.world.now o
    → Fits window a.world.now to o
    → a.world.now ≤ to
    → used o + waiting name f.pending + 1 ≤ max + k
    → waiting name (move f (enters a)).pending ≤ k
    → used o + waiting name (move f (enters a)).pending + 1 ≤ max + k
unfolding move
enter-room name f a o window max k to m p v g h u w =
    elim (Bool-cases (login_admit a.world f.service a.username a.ip).1) [
      | inr n ↦ rw n u
      | inl y ↦ elim (text_discrete (known_name a.username) name) [
        | no d ↦ rw y (ground arith)
        | yes e ↦
            let allowed : (allow f.service.user_limiter a.world.now name).1 ≡ true =
              subst (λ j. (allow f.service.user_limiter a.world.now j).1 ≡ true) e
                (admit-allowed f.service a y) in
            let below = below_of_verdict o window max to a.world.now p g h in
            let seen = sym (allow-verdict f.service.user_limiter a.world.now name) ∙ allowed in
            let small = below (
              sym (ap (verdict max) v)
              ∙ ap (λ (j : ℕ). verdict j (live f.service.user_limiter a.world.now name)) (sym m)
              ∙ seen) in
            omega arith
      ]
    ]

finish-Next :
    (name : Text) (w : World) (s s' : Service) (a : Attempt) (o : Option Entry)
    (r : Result Error (Text × User))
    → UserLeaves w s s' (known_name a.username) a.ip r
    → is_success name a r ≡ false
    → Next s.user_limiter s.user_limiter name o w.now
    → Next s.user_limiter s'.user_limiter name
        (next_entry name s.user_limiter.window (record a { world = w }) o r)
        w.now
unfolding step
finish-Next name w s s' a o (err bad_credentials) v h n =
    rw v.3 (Next-step s.user_limiter _ name o w.now (fails (known_name a.username)) n)
finish-Next name w s s' a o (err rate_limited) v h n = absurd v
finish-Next name w s s' a o (err totp_required) v h n = rw v.3 n
finish-Next name w s s' a o (err (store_failed e)) v h n = rw v.3 n
finish-Next name w s s' a o (ok (token, u)) v h n =
    rw v.3 (Next-reset s.user_limiter _ name (known_name a.username) o w.now h n)

is_wrong-world :
    (name : Text) (w : World) (a : Attempt) (r : Result Error (Text × User))
    → is_wrong name (record a { world = w }) r ≡ is_wrong name a r
is_wrong-world name w a (err bad_credentials) = refl
is_wrong-world name w a (err rate_limited) = refl
is_wrong-world name w a (err totp_required) = refl
is_wrong-world name w a (err (store_failed e)) = refl
is_wrong-world name w a (ok t) = refl

-- What a limiter with one entry for each key shows of the name, in a run that has come to `from`.
record Seen (l : Limiter) (name : Text) (o : Option Entry) (window max from to : ℕ) : Type 0 where
  seen_map : HasMap l
  seen_window : l.window ≡ window
  seen_max : l.max ≡ max
  seen_shows : Shows window l name o from
  seen_fits : Fits window from to o

start-Next :
    (l : Limiter) (name : Text) (o : Option Entry) (window max from to now : ℕ)
    → Seen l name o window max from to
    → from ≤ now
    → Next l l name o now
start-Next l name o window max from to now s h = record {
  has_map = s.seen_map;
  same_window = refl;
  same_max = refl;
  shows =
      subst (λ k. Shows k l name o now) (sym s.seen_window)
        (λ t g. s.seen_shows t (omega (arith, h)));
}

Next-Seen :
    (l l' : Limiter) (name : Text) (o o' : Option Entry) (window max from now to : ℕ)
    → Seen l name o window max from to
    → Next l l' name o' now
    → Fits window now to o'
    → Seen l' name o' window max now to
Next-Seen l l' name o o' window max from now to s n f = record {
  seen_map = n.has_map;
  seen_window = n.same_window ∙ s.seen_window;
  seen_max = n.same_max ∙ s.seen_max;
  seen_shows = subst (λ k. Shows k l' name o' now) s.seen_window n.shows;
  seen_fits = f;
}

-- What the rest of a login leaves of the limiter and of the entry of the name, and whether it counts.
finish-Seen :
    (name : Text) (w : World) (f : Flight) (a : Attempt) (o : Option Entry) (window max from to : ℕ)
    → Seen f.service.user_limiter name o window max from to
    → from ≤ w.now
    → w.now ≤ to
    → is_success name a (finish w f.service a).1 ≡ false
    → (o' : Option Entry) × (used o' ≡ used o + counts (is_wrong name a (finish w f.service a).1))
      × Seen (finish w f.service a).0.user_limiter name o' window max w.now to
finish-Seen name w f a o window max from to s h le fails_here =
    let l = f.service.user_limiter in
    let r = (finish w f.service a).1 in
    let b : Attempt = record a { world = w } in
    let o' = next_entry name l.window b o r in
    let left = login_user-UserLeaves w f.service (known_name a.username) a.password a.code a.ip in
    let next =
      finish-Next name w f.service _ a o r left fails_here
        (start-Next l name o window max from to w.now s h) in
    let fits = Fits-later window from w.now to o h s.seen_fits in
    let grown =
      next_entry-used name l.window to b o r
        (subst (λ k. Fits k w.now to o) (sym s.seen_window) fits) le in
    (
      o',
      grown.0 ∙ ap (λ k. used o + counts k) (is_wrong-world name w a r),
      Next-Seen l _ name o o' window max from w.now to s next
          (subst (λ k. Fits k w.now to o') s.seen_window grown.1),
    )

crowded :
    (name : Text) (steps : List Step) (f : Flight) (o : Option Entry) (window max k from to : ℕ)
    → 0 < max
    → Seen f.service.user_limiter name o window max from to
    → used o + waiting name f.pending + 1 ≤ max + k
    → Crowd name k from to f steps
    → used o + wrong_answers name f steps + 1 ≤ max + k
unfolding wrong_answers move
crowded name [] f o window max k from to p s u h = omega arith
crowded name (enters a ∷ rest) f o window max k from to p s u h =
    let now = a.world.now in
    let le = Crowd-le name k now to (move f (enters a)) rest h.2 in
    let fits = Fits-later window from now to o h.0 s.seen_fits in
    let room =
      enter-room name f a o window max k to s.seen_max p (s.seen_shows now h.0) fits le u h.1 in
    let next =
      admit-Next name f.service a o
        (start-Next f.service.user_limiter name o window max from to now s h.0) in
    let seen = Next-Seen f.service.user_limiter _ name o o window max from now to s next fits in
    crowded name rest (move f (enters a)) o window max k now to p seen room h.2
crowded name (goes_on w i ∷ rest) f o window max k from to p s u h =
    elim (Option-cases (at_place i f.pending)) [
      | inl e ↦
          let crowd = subst (λ q. Crowd name k w.now to (go_on w i f q) rest) e h.2 in
          let le = Crowd-le name k w.now to f rest crowd in
          let n = start-Next f.service.user_limiter name o window max from to w.now s h.0 in
          let fits = Fits-later window from w.now to o h.0 s.seen_fits in
          let seen =
            Next-Seen f.service.user_limiter _ name o o window max from w.now to s n fits in
          let later = crowded name rest f o window max k w.now to p seen u crowd in
          subst
            (λ q.
              used o + (wrong_of name w f.service q + wrong_answers name (go_on w i f q) rest) + 1
              ≤ max + k)
            (sym e) (omega arith)
      | inr (a, e) ↦
          let g = go_on w i f (some a) in
          let crowd = subst (λ q. Crowd name k w.now to (go_on w i f q) rest) e h.2 in
          let le = Crowd-le name k w.now to g rest crowd in
          let failed = subst (FailsFor name w f.service) e h.1 in
          let (o', grown, seen) = finish-Seen name w f a o window max from to s h.0 le failed in
          let fewer = waiting-without name i f.pending a e in
          let one = is_wrong-le name a (finish w f.service a).1 in
          let later = crowded name rest g o' window max k w.now to p seen (omega arith) crowd in
          subst
            (λ q.
              used o + (wrong_of name w f.service q + wrong_answers name (go_on w i f q) rest) + 1
              ≤ max + k)
            (sym e) (omega arith)
    ]

-- With one entry for each key and a positive maximum in the account's limiter, for logins that overlap as
-- they like, each asking the limiters in one step and answered in a later one: from a moment at which an
-- account has no live failure, whatever addresses take part and whatever other accounts are logged in to,
-- within one window in which no login to the account succeeds and never more than `k` logins to it are
-- between their two steps, fewer wrong guesses on it are answered than the maximum of its limiter and `k`
-- together; so at most the maximum where no two logins to it overlap.
pub wrong_answers-lt :
    (name : Text) (steps : List Step) (f : Flight) (k from to : ℕ)
    → HasMap f.service.user_limiter
    → 0 < f.service.user_limiter.max
    → live f.service.user_limiter from name ≡ none
    → to ≤ from + f.service.user_limiter.window
    → waiting name f.pending ≤ k
    → Crowd name k from to f steps
    → wrong_answers name f steps < f.service.user_limiter.max + k
unfolding live visible
wrong_answers-lt name steps f k from to m p v w u h =
    let l = f.service.user_limiter in
    let total =
      crowded name steps f none l.window l.max k from to p
        (record {
          seen_map = m;
          seen_window = refl;
          seen_max = refl;
          seen_shows = λ t g. visible_later l.window from t _ g v;
          seen_fits = w;
        })
        (omega arith) h in
    omega arith
