-- ===== src/Api/Routes.antt =====
-- internal/api/api.go: `routes`, `wildcards` and `readIn`. A route is its pattern and the role it needs.
use ovcp.Base.{
  Bool, ◌&&◌, Option, none, some, List, [], ◌∷◌, ◌++◌, map, ◌==◌, if◌then◌else◌, Text, codes,
  text_discrete, is_empty, Map, insert, cut, cut_prefix, split,
}
use ovcp.Auth.Roles.{role_admin, role_operator, role_readonly}

abbrev pub Route : Type 0
Route = Text × Text

-- The role of a public route.
abbrev pub no_role : Text
no_role = []

-- `controller.LogNames`
abbrev pub log_names : List Text
log_names = codes "openvpn" ∷ codes "ovcp" ∷ codes "dnsmasq" ∷ []

abbrev log_route : Text → Route
log_route name = (codes "GET /api/logs/" ++ name, role_readonly)

abbrev pub static_routes : List Route
static_routes =
    (codes "GET /healthz", no_role)
    ∷ (codes "POST /api/login", no_role)
    ∷ (codes "POST /api/logout", role_readonly)
    ∷ (codes "GET /api/me", role_readonly)
    ∷ (codes "GET /api/status", role_readonly)
    ∷ (codes "GET /api/stats", role_readonly)
    ∷ (codes "GET /api/certs", role_readonly)
    ∷ (codes "GET /api/vpn/config", role_readonly)
    ∷ (codes "GET /api/audit", role_readonly)
    ∷ (codes "GET /api/logs/download", role_operator)
    ∷ (codes "GET /api/logs/config", role_readonly)
    ∷ (codes "PUT /api/logs/config", role_admin)
    ∷ (codes "POST /api/logs/rotate", role_admin)
    ∷ (codes "GET /api/stats/config", role_readonly)
    ∷ (codes "PUT /api/stats/config", role_admin)
    ∷ (codes "GET /api/debug", role_readonly)
    ∷ (codes "POST /api/debug", role_admin)
    ∷ (codes "POST /api/clients/kill", role_operator)
    ∷ (codes "POST /api/certs", role_operator)
    ∷ (codes "POST /api/certs/revoke", role_operator)
    ∷ (codes "POST /api/certs/renew", role_admin)
    ∷ (codes "POST /api/backup", role_admin)
    ∷ (codes "POST /api/certs/export", role_operator)
    ∷ (codes "PUT /api/vpn/config", role_admin)
    ∷ (codes "POST /api/vpn/config/preview", role_admin)
    ∷ (codes "POST /api/vpn/{op}", role_admin)
    ∷ (codes "POST /api/dns/{op}", role_admin)
    ∷ (codes "PATCH /api/certs/{serial}/dns", role_operator)
    ∷ (codes "GET /api/records", role_readonly)
    ∷ (codes "PUT /api/records/custom", role_admin)
    ∷ (codes "POST /api/records/custom/preview", role_admin)
    ∷ (codes "GET /api/dns/config", role_readonly)
    ∷ (codes "PUT /api/dns/config", role_admin)
    ∷ (codes "GET /api/upstreams", role_readonly)
    ∷ (codes "POST /api/upstreams", role_admin)
    ∷ (codes "DELETE /api/upstreams/{id}", role_admin)
    ∷ (codes "PUT /api/upstreams/default", role_admin)
    ∷ (codes "PUT /api/upstreams/assign", role_admin)
    ∷ (codes "POST /api/upstreams/reconcile", role_admin)
    ∷ (codes "GET /api/telegram/config", role_readonly)
    ∷ (codes "PUT /api/telegram/config", role_admin)
    ∷ (codes "POST /api/telegram/{op}", role_admin)
    ∷ (codes "GET /api/certs/download", role_readonly)
    ∷ (codes "GET /api/users", role_admin)
    ∷ (codes "POST /api/users", role_admin)
    ∷ (codes "DELETE /api/users/{name}", role_admin)
    ∷ (codes "PATCH /api/users/{name}", role_admin)
    ∷ (codes "POST /api/users/{name}/password", role_admin)
    ∷ (codes "POST /api/users/{name}/totp", role_admin)
    ∷ (codes "DELETE /api/users/{name}/totp", role_admin)
    ∷ []

abbrev pub routes : List Route
routes = static_routes ++ map log_route log_names

abbrev first_part : Text × Text × Bool → Text
first_part (before, after, found) = before

-- The method of a pattern.
unfoldable pub method_of : Route → Text
unfolding cut
method_of (pattern, role) = first_part (cut 32 pattern)

-- strings.TrimSuffix(name, "}")
unfoldable pub trim_brace : Text → Text
trim_brace [] = []
trim_brace (c ∷ cs) = let rest = trim_brace cs in if c == 125 && is_empty cs then [] else c ∷ rest

abbrev wild_of : Option Text → List Text → List Text
wild_of none names = names
wild_of (some name) names = trim_brace name ∷ names

unfoldable pub wild_names : List Text → List Text
unfolding cut_prefix trim_brace
wild_names [] = []
wild_names (seg ∷ segs) = wild_of (cut_prefix (123 ∷ []) seg) (wild_names segs)

-- `wildcards`
unfoldable pub wildcards : Text → List Text
unfolding wild_names split
wildcards pattern = wild_names (split b'/' pattern)

-- The values over those of the map, in their order.
unfoldable pub set_all : Map Text Text → Map Text Text → Map Text Text
unfolding insert
set_all [] m = m
set_all ((k, v) ∷ kvs) m = set_all kvs (insert text_discrete k v m)

unfoldable pub path_values : (Text → Text) → List Text → Map Text Text
path_values path [] = []
path_values path (k ∷ ks) = (k, path k) ∷ path_values path ks

-- `readIn`, on the string fields: what the body sets (an error where it is no JSON), the query, and the
-- value that the path gives each wildcard.
unfoldable pub read_in :
    Bool
    → Map Text Text
    → Option (Map Text Text)
    → (Text → Text)
    → List Text
    → Option (Map Text Text)
unfolding set_all path_values
read_in is_get query body path wild =
    if is_get
    then some (set_all (path_values path wild) (set_all query []))
    else elim body [ none ↦ none | some fields ↦ some (set_all (path_values path wild) fields) ]
