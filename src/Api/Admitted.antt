-- ===== src/Api/Admitted.antt =====
-- Who reaches a handler.
use ovcp.Base.{
  is_empty, ◌≡◌, refl, sym, ap, subst, ◌∙◌, ◌≢◌, ◌⊎◌, inl, inr, Bool, true, false, not, ◌&&◌, ◌||◌,
  Option, none, some, List, [], ◌∷◌, arith, ℕ_discrete, if◌then◌else◌, Bool-cases, any, In, Text,
  codes, text_discrete, text_eq, lookup, Result, ok, err, ◌>>=◌, refuse, >>=-eq-ok, Result-cases,
  cut,
}
use ovcp.Auth.Roles.{can, can_trans, role_operator}
use ovcp.Auth.Login.{World, Service, validate}
use ovcp.Store.Users.{User}
use ovcp.Store.Users
use ovcp.Api.Routes.{Route, routes, no_role, method_of}
use ovcp.Api.Gate.{
  csrf_header, header_of, csrf_matches, csrf_cookie, Request, Response, session_cookie, json_err,
  user_of, session_of, authenticate, csrf_ok, wrap_checks, admit_route, admit, Handlers,
  serve_admitted, serve_http,
}

-- What net/http matches: a route of the table, by its method, GET also for HEAD.
abbrev pub IsMux : (Request → Option Route) → Type 0
IsMux mux =
    (r : Request) (rt : Route)
    → mux r ≡ some rt
    → In rt routes
      × ((r.method ≡ method_of rt) ⊎ ((method_of rt ≡ codes "GET") × (r.method ≡ codes "HEAD")))

-- The method is GET, or the CSRF cookie stands and the header repeats it.
abbrev pub Repeats : Request → Type 0
Repeats r =
    (r.method ≡ codes "GET")
    ⊎ ((v : Text) × (lookup text_discrete csrf_cookie r.cookies ≡ some v)
        × (is_empty v ≡ false)
        × (lookup text_discrete csrf_header r.headers ≡ some v))

-- The request bears a live session of the user, and the CSRF token where its method is not GET.
abbrev pub Speaks : World → Service → Request → User → Type 0
Speaks w s r u =
    ((token : Text) × (lookup text_discrete session_cookie r.cookies ≡ some token)
      × (validate w s token ≡ ok (some u)))
    × Repeats r

header-some : (o : Option Text) (v : Text) → header_of o ≡ v → is_empty v ≡ false → o ≡ some v
header-some none v e n = absurd (ground arith)
header-some (some h) v e n = ap (λ k. some k) e

matches-some :
    (c h : Option Text)
    → csrf_matches c (header_of h) ≡ true
    → (v : Text) × (c ≡ some v) × (is_empty v ≡ false) × (h ≡ some v)
matches-some none h e = absurd (ground arith)
matches-some (some v) h e =
    let n : is_empty v ≡ false = ground arith in
    let same : header_of h ≡ v = ground arith in (v, refl, n, header-some h v same n)

csrf_ok-Repeats : (r : Request) → csrf_ok r ≡ true → Repeats r
unfolding csrf_ok
csrf_ok-Repeats r h = elim (text_discrete r.method (codes "GET")) [
  | yes e ↦ inl e
  | no n ↦ inr (
      matches-some (lookup text_discrete csrf_cookie r.cookies)
        (lookup text_discrete csrf_header r.headers) (ground arith))
]

user_of-ok : (v : Result Users.Error (Option User)) (u : User) → user_of v ≡ ok u → v ≡ ok (some u)
user_of-ok (ok (some v)) u h = cc
user_of-ok (ok none) u h = absurd (ground arith)
user_of-ok (err e) u h = absurd (ground arith)

session_of-ok :
    (w : World) (s : Service) (o : Option Text) (u : User)
    → session_of w s o ≡ ok u
    → (token : Text) × (o ≡ some token) × (validate w s token ≡ ok (some u))
session_of-ok w s none u h = absurd (ground arith)
session_of-ok w s (some token) u h = (token, refl, user_of-ok (validate w s token) u h)

refuse-ok : (b : Bool) (e : Response) → refuse (not b) e ≡ ok tt → b ≡ true
refuse-ok true e h = refl
refuse-ok false e h = absurd (ground arith)

ok-inj : (a b : User) (r s : Result Response User) → r ≡ ok a → s ≡ ok b → r ≡ s → a ≡ b
ok-inj a b r s p q e = cc

wrap_checks-ok :
    (w : World) (s : Service) (required : Text) (r : Request) (u : User)
    → wrap_checks w s required r ≡ ok u
    → Speaks w s r u × (can u.role required ≡ true)
unfolding wrap_checks authenticate
wrap_checks-ok w s required r u h =
    let (v, q, k) = >>=-eq-ok (authenticate w s r) _ h in
    let (t, c, m) =
      >>=-eq-ok (refuse (not (csrf_ok r)) (json_err 403 (codes "csrf check failed"))) _ k in
    let (t2, d, e) =
      >>=-eq-ok (refuse (not (can v.role required)) (json_err 403 (codes "insufficient role"))) _
        m in
    let same : v ≡ u = ok-inj v u (ok v) (ok u) refl refl e in
    subst (λ x. Speaks w s r x × (can x.role required ≡ true)) same
      (
        (
          session_of-ok w s (lookup text_discrete session_cookie r.cookies) v q,
          csrf_ok-Repeats r (refuse-ok (csrf_ok r) _ c),
        ),
        refuse-ok (can v.role required) _ d,
      )

-- A route's role is public, or its method only reads, or it ends the caller's own session, or operator.
abbrev pub is_guarded : Route → Bool
is_guarded rt =
    text_eq rt.0 (codes "POST /api/login")
    || text_eq rt.0 (codes "POST /api/logout")
    || text_eq (method_of rt) (codes "GET")
    || can rt.1 role_operator

-- The public routes.
abbrev pub is_open : Route → Bool
is_open rt = text_eq rt.0 (codes "GET /healthz") || text_eq rt.0 (codes "POST /api/login")

routes-guarded : any (λ rt. not (is_guarded rt)) routes ≡ false
unfolding any text_discrete ℕ_discrete can method_of cut
routes-guarded = refl

routes-open : any (λ rt. text_eq rt.1 no_role && not (is_open rt)) routes ≡ false
unfolding any text_discrete ℕ_discrete
routes-open = refl

none-In :
    (p : Route → Bool) (rt : Route) (rts : List Route)
    → any p rts ≡ false
    → In rt rts
    → p rt ≡ false
unfolding any
none-In p rt [] h i = absurd i
none-In p rt (x ∷ rts) h (inl e) = subst (λ k. p k ≡ false) e (ground arith)
none-In p rt (x ∷ rts) h (inr i) = none-In p rt rts (ground arith) i

-- A public route for nobody, or any other for a user whose role may do its work.
abbrev pub Gate : World → Service → Request → Route → Option User → Type 0
Gate w s r rt ou =
    ((ou ≡ none) × (is_open rt ≡ true))
    ⊎ ((u : User) × (ou ≡ some u) × Speaks w s r u × (can u.role rt.1 ≡ true))

abbrev Through : World → Service → Request → Result Response (Route × Option User) → Type 0
Through w s r (err e) = Unit
Through w s r (ok (rt, ou)) = In rt routes × Gate w s r rt ou

role-Through :
    (w : World) (s : Service) (r : Request) (rt : Route)
    → In rt routes
    → Through w s r (wrap_checks w s rt.1 r >>= (λ u. ok (rt, some u)))
role-Through w s r rt i = elim (Result-cases (wrap_checks w s rt.1 r)) [
  | inl (u, e) ↦
      let (speaks, may) = wrap_checks-ok w s rt.1 r u e in
      subst (λ k. Through w s r (k >>= (λ v. ok (rt, some v)))) (sym e)
        (i, inr (u, refl, speaks, may))
  | inr (x, e) ↦ subst (λ k. Through w s r (k >>= (λ v. ok (rt, some v)))) (sym e) tt
]

route-Through :
    (w : World) (s : Service) (r : Request) (o : Option Route)
    → ((rt : Route) → o ≡ some rt → In rt routes)
    → Through w s r (admit_route w s r o)
route-Through w s r none h = tt
route-Through w s r (some rt) h = elim (Bool-cases (text_eq rt.1 no_role)) [
  | inl b ↦
      let listed =
        none-In (λ k. text_eq k.1 no_role && not (is_open k)) rt routes routes-open (h rt refl) in
      subst
        (λ k.
          Through w s r
            (if k then ok (rt, none) else wrap_checks w s rt.1 r >>= (λ u. ok (rt, some u))))
        (sym b) (h rt refl, inl (refl, ground arith))
  | inr b ↦
      subst
        (λ k.
          Through w s r
            (if k then ok (rt, none) else wrap_checks w s rt.1 r >>= (λ u. ok (rt, some u))))
        (sym b) (role-Through w s r rt (h rt refl))
]

admit-Through :
    (mux : Request → Option Route) (w : World) (s : Service) (r : Request)
    → IsMux mux
    → Through w s r (admit mux w s r)
unfolding admit
admit-Through mux w s r h = route-Through w s r (mux r) (λ rt e. (h r rt e).0)

served :
    {S : Type 0} (h : Handlers S) (w : World) (r : Request) (s : S)
    (a : Result Response (Route × Option User))
    → Through w (h.service s) r a
    → ((e : Response) × (serve_admitted h r s a ≡ (s, e)))
      ⊎ ((rt : Route) × (ou : Option User) × (serve_admitted h r s a ≡ h.serve rt ou r s)
          × In rt routes
          × Gate w (h.service s) r rt ou)
served h w r s (err e) t = inl (e, refl)
served h w r s (ok (rt, ou)) t = inr (rt, ou, refl, t.0, t.1)

-- A request changes nothing and gets an error, or it reaches the handler of a route of the table: a public
-- one, which is the health check or the login, for nobody, or any other for the user of its session, whose
-- role may do the route's work, with the CSRF header equal to its cookie unless the method is GET; if the
-- mux only matches routes of the table.
pub serve_http-Gate :
    {S : Type 0} (h : Handlers S) (mux : Request → Option Route) (w : World) (r : Request) (s : S)
    → IsMux mux
    → ((e : Response) × (serve_http h mux w r s ≡ (s, e)))
      ⊎ ((rt : Route) × (ou : Option User) × (serve_http h mux w r s ≡ h.serve rt ou r s)
          × In rt routes
          × Gate w (h.service s) r rt ou)
unfolding serve_http
serve_http-Gate h mux w r s q =
    served h w r s (admit mux w (h.service s) r) (admit-Through mux w (h.service s) r q)

-- The two routes that write without the role of an operator.
abbrev pub is_own : Route → Bool
is_own rt = text_eq rt.0 (codes "POST /api/login") || text_eq rt.0 (codes "POST /api/logout")

guarded-writes :
    (rt : Route)
    → In rt routes
    → method_of rt ≢ codes "GET"
    → is_own rt ≡ false
    → can rt.1 role_operator ≡ true
guarded-writes rt i n o =
    let g = none-In (λ k. not (is_guarded k)) rt routes routes-guarded i in ground arith

healthz-reads : (role : Text) → method_of (codes "GET /healthz", role) ≡ codes "GET"
unfolding method_of cut
healthz-reads role = refl

open-reads : (rt : Route) → is_open rt ≡ true → is_own rt ≡ false → method_of rt ≡ codes "GET"
open-reads rt p o = elim (text_discrete rt.0 (codes "GET /healthz")) [
  | yes e ↦ ap (λ k. method_of (k, rt.1)) e ∙ healthz-reads rt.1
  | no n ↦ absurd (ground arith)
]

-- A request of another method than GET or HEAD that reaches a handler, but those of login and logout, is
-- one of a user with a live session, the CSRF token, and at least the operator's role.
pub admit-writes :
    (mux : Request → Option Route) (w : World) (s : Service) (r : Request) (rt : Route)
    (ou : Option User)
    → IsMux mux
    → mux r ≡ some rt
    → r.method ≢ codes "GET"
    → r.method ≢ codes "HEAD"
    → is_own rt ≡ false
    → admit mux w s r ≡ ok (rt, ou)
    → (u : User) × (ou ≡ some u) × Speaks w s r u × (can u.role role_operator ≡ true)
admit-writes mux w s r rt ou q m g d o a =
    let t = subst (Through w s r) a (admit-Through mux w s r q) in
    let writes : method_of rt ≢ codes "GET" = elim (q r rt m).1 [
      | inl e ↦ λ k. g (e ∙ k)
      | inr (e, f) ↦ absurd (d f)
    ] in
    elim t.1 [
      | inl (n, p) ↦ absurd (writes (open-reads rt p o))
      | inr (u, e, speaks, may) ↦
          (u, e, speaks, can_trans u.role rt.1 role_operator may (guarded-writes rt t.0 writes o))
    ]
