-- ===== src/Api/Gate.antt =====
-- internal/api/api.go: `Handler` and `wrap`, the way of a request to a handler. The match of a pattern is
-- that of net/http, `mux`. A handler acts on a state `S` that holds the service.
use ovcp.Base.{
  ℕ, Bool, false, not, ◌&&◌, ◌||◌, Option, none, some, [], if◌then◌else◌, Text, codes,
  text_discrete, text_eq, is_empty, Map, lookup, Result, ok, err, ◌>>=◌, ◌>>◌, refuse,
}
use ovcp.Auth.Roles.{can}
use ovcp.Auth.Login.{World, Service, validate}
use ovcp.Store.Users.{User}
use ovcp.Store.Users
use ovcp.Api.Routes.{Route, no_role}

pub record Request : Type 0 where
  pub method : Text
  pub cookies : Map Text Text
  pub headers : Map Text Text

pub record Response : Type 0 where
  pub code : ℕ
  pub message : Text

abbrev pub session_cookie : Text
session_cookie = codes "ovcp_session"

abbrev pub csrf_cookie : Text
csrf_cookie = codes "ovcp_csrf"

abbrev pub csrf_header : Text
csrf_header = codes "X-OVCP-CSRF"

abbrev pub json_err : ℕ → Text → Response
json_err code message = record { code = code; message = message }

abbrev pub not_authenticated : Response
not_authenticated = json_err 401 (codes "not authenticated")

-- `err != nil || u == nil`
abbrev pub user_of : Result Users.Error (Option User) → Result Response User
user_of (ok (some u)) = ok u
user_of (ok none) = err not_authenticated
user_of (err e) = err not_authenticated

abbrev pub session_of : World → Service → Option Text → Result Response User
session_of w s none = err not_authenticated
session_of w s (some token) = user_of (validate w s token)

-- The session of a request.
unfoldable pub authenticate : World → Service → Request → Result Response User
unfolding validate lookup
authenticate w s r = session_of w s (lookup text_discrete session_cookie r.cookies)

abbrev pub header_of : Option Text → Text
header_of none = []
header_of (some v) = v

-- Whether the cookie stands, and the header repeats it.
abbrev pub csrf_matches : Option Text → Text → Bool
csrf_matches none header = false
csrf_matches (some v) header = not (is_empty v) && text_eq header v

unfoldable pub csrf_ok : Request → Bool
unfolding lookup text_discrete
csrf_ok r =
    text_eq r.method (codes "GET")
    || csrf_matches (lookup text_discrete csrf_cookie r.cookies)
        (header_of (lookup text_discrete csrf_header r.headers))

-- The tests of `wrap`, in their order.
unfoldable pub wrap_checks : World → Service → Text → Request → Result Response User
unfolding authenticate csrf_ok can
wrap_checks w s required r = authenticate w s r >>= (λ u.
    refuse (not (csrf_ok r)) (json_err 403 (codes "csrf check failed"))
    >> (refuse (not (can u.role required)) (json_err 403 (codes "insufficient role")) >> ok u))

-- Which handler serves a request, and for whom; nobody on a public route.
abbrev pub admit_route :
    World → Service → Request → Option Route → Result Response (Route × Option User)
admit_route w s r none = err (json_err 404 (codes "404 page not found"))
admit_route w s r (some rt) =
    if text_eq rt.1 no_role
    then ok (rt, none)
    else wrap_checks w s rt.1 r >>= (λ u. ok (rt, some u))

unfoldable pub admit :
    (Request → Option Route) → World → Service → Request → Result Response (Route × Option User)
unfolding wrap_checks text_discrete
admit mux w s r = admit_route w s r (mux r)

pub record Handlers (S : Type 0) : Type 0 where
  pub service : S → Service
  pub serve : Route → Option User → Request → S → S × Response

abbrev pub serve_admitted :
    {S : Type 0} → Handlers S → Request → S → Result Response (Route × Option User) → S × Response
serve_admitted h r s (err e) = (s, e)
serve_admitted h r s (ok (rt, u)) = h.serve rt u r s

-- `Handler`, without the UI.
unfoldable pub serve_http :
    {S : Type 0} → Handlers S → (Request → Option Route) → World → Request → S → S × Response
unfolding admit
serve_http h mux w r s = serve_admitted h r s (admit mux w (h.service s) r)

-- What a handler returns for an error.
pub data Failure : Type 0 where
  http_error : ℕ → Text → Failure
  not_connected no_active_cert no_upstream : Text → Failure
  other : Text → Failure

-- `respond`, the error side.
unfoldable pub respond : Failure → Response
respond (http_error code message) = json_err code message
respond (not_connected message) = json_err 404 message
respond (no_active_cert message) = json_err 404 message
respond (no_upstream message) = json_err 404 message
respond (other message) = json_err 400 message
