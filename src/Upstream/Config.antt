-- ===== src/Upstream/Config.antt =====
-- internal/upstream/upstream.go: `Upstream`, `Config`, and the operations that change a configuration.
-- A map is an association list. What is an IP address, how a URL is taken apart and which interfaces
-- exist is Go's net and net/url packages and the host: the operations of `Host`.
use ovcp.Base.{
  is_zero, ℤ, is_negative, [], ℕ, zero, suc, ◌+◌, ◌-◌, Bool, true, false, not, ◌&&◌, ◌||◌, Option,
  none, some, List, ◌∷◌, ◌++◌, ltb, leb, ◌==◌, within, if◌then◌else◌, length, keep, any, find, Text,
  codes, text_discrete, text_eq, is_empty, Map, lookup, erase, insert, Result, ok, err, ◌>>=◌, ◌>>◌,
  refuse,
}
use ovcp.Store.Names.{check_name}

pub record Url : Type 0 where
  pub scheme : Text
  pub hostname : Text
  pub port : Text

pub record Host : Type 0 where
  pub is_ip : Text → Bool
  pub parse_url : Text → Option Url
  pub iface_exists : Text → Bool

abbrev pub table_base : ℕ
table_base = 100

abbrev pub max_upstreams : ℕ
max_upstreams = 64

abbrev pub socks_port_base : ℕ
socks_port_base = 20000

pub record Upstream : Type 0 where
  pub id : Text
  pub iface : Text
  pub gateway : Text
  pub socks : Text
  pub dial_timeout : ℤ
  pub handshake_timeout : ℤ
  pub table : ℕ
  pub description : Text

pub record Config : Type 0 where
  pub upstreams : List Upstream
  pub default : Text
  pub per_cn : Map Text Text

pub data Error : Type 0 where
  empty_id bad_id duplicate_id : Error
  socks_exclusive bad_socks negative_timeout : Error
  bad_iface bad_gateway socks_only_timeout : Error
  table_range table_used : Error
  default_undefined per_cn_undefined : Error
  no_free_table bad_assign : Error

abbrev pub is_socks : Upstream → Bool
is_socks u = not (is_empty u.socks)

unfoldable pub socks_port : Upstream → ℕ
socks_port u = socks_port_base + (u.table - table_base)

unfoldable pub is_up : Host → Upstream → Bool
is_up h u = is_socks u || h.iface_exists u.iface

unfoldable pub down_ids : Host → List Upstream → List Text
unfolding is_up
down_ids h [] = []
down_ids h (u ∷ us) = if is_up h u then down_ids h us else u.id ∷ down_ids h us

unfoldable pub resolve : Config → Text → Text
resolve c cn = elim (lookup text_discrete cn c.per_cn) [ some id ↦ id | none ↦ c.default ]

abbrev pub has_id : Text → Upstream → Bool
has_id id u = text_eq u.id id

unfoldable pub find_upstream : Config → Text → Option Upstream
unfolding find
find_upstream c id = find (has_id id) c.upstreams

abbrev pub has_table : ℕ → Upstream → Bool
has_table t u = u.table == t

-- The loop of `NextTable`, with `n` numbers left from `t` on.
unfoldable pub next_table_from : ℕ → ℕ → List Upstream → Result Error ℕ
unfolding any
next_table_from zero t us = err no_free_table
next_table_from (suc n) t us =
    let rest = next_table_from n (t + 1) us in if any (has_table t) us then rest else ok t

unfoldable pub next_table : List Upstream → Result Error ℕ
unfolding next_table_from
next_table us = next_table_from max_upstreams table_base us

-- ^[A-Za-z0-9][A-Za-z0-9._:-]{0,14}$
abbrev is_alnum : ℕ → Bool
is_alnum c = within b'A' b'Z' c || within b'a' b'z' c || within b'0' b'9' c

abbrev is_iface_byte : ℕ → Bool
is_iface_byte c = is_alnum c || c == b'.' || c == b'_' || c == b':' || c == b'-'

unfoldable pub all_iface_bytes : Text → Bool
all_iface_bytes [] = true
all_iface_bytes (c ∷ cs) = is_iface_byte c && all_iface_bytes cs

unfoldable pub is_iface : Text → Bool
unfolding all_iface_bytes
is_iface [] = false
is_iface (c ∷ cs) = is_alnum c && all_iface_bytes cs && leb (length cs) 14

unfoldable pub all_ascii : Text → Bool
all_ascii [] = true
all_ascii (c ∷ cs) = leb c 127 && all_ascii cs

unfoldable pub validate_socks_url : Host → Text → Bool
unfolding all_ascii
validate_socks_url h raw = elim (h.parse_url raw) [
  | none ↦ false
  | some u ↦
      text_eq u.scheme (codes "socks5")
      && not (is_empty u.hostname || is_empty u.port)
      && all_ascii raw
]

-- The part of `Validate` that depends on the mode.
unfoldable pub validate_mode : Host → Upstream → Result Error (Unit {0})
unfolding is_iface validate_socks_url
validate_mode h u =
    if is_socks u
    then (do
      refuse (not (is_empty u.iface) || not (is_empty u.gateway)) socks_exclusive
      refuse (not (validate_socks_url h u.socks)) bad_socks
      refuse (is_negative u.dial_timeout || is_negative u.handshake_timeout) negative_timeout)
    else (do
      refuse (not (is_iface u.iface)) bad_iface
      refuse (not (is_empty u.gateway) && not (h.is_ip u.gateway)) bad_gateway
      refuse (not (is_zero u.dial_timeout) || not (is_zero u.handshake_timeout)) socks_only_timeout)

-- One round of the loop, with the upstreams before it.
unfoldable pub validate_one : Host → List Upstream → Upstream → Result Error (Unit {0})
unfolding validate_mode any
validate_one h seen u = do
  refuse (is_empty u.id) empty_id
  refuse (not (check_name u.id)) bad_id
  refuse (any (has_id u.id) seen) duplicate_id
  validate_mode h u
  refuse (ltb u.table table_base || leb (table_base + max_upstreams) u.table) table_range
  refuse (any (has_table u.table) seen) table_used

unfoldable pub validate_all : Host → List Upstream → List Upstream → Result Error (Unit {0})
unfolding validate_one
validate_all h seen [] = ok tt
validate_all h seen (u ∷ us) = validate_one h seen u >> validate_all h (u ∷ seen) us

-- `seen[id]`
abbrev pub defined : List Upstream → Text → Bool
defined us id = any (has_id id) us

unfoldable pub validate : Host → Config → Result Error (Unit {0})
unfolding validate_all any
validate h c = do
  validate_all h [] c.upstreams
  refuse (not (is_empty c.default) && not (defined c.upstreams c.default)) default_undefined
  refuse (any (λ kv. not (defined c.upstreams kv.1)) c.per_cn) per_cn_undefined

abbrev pub added_to : Config → Upstream → ℕ → Config
added_to c u t = record c { upstreams = c.upstreams ++ (record u { table = t }) ∷ [] }

unfoldable pub with_added : Host → Config → Upstream → Result Error (Config × Upstream)
unfolding next_table validate
with_added h c u = do
  t ← next_table c.upstreams
  validate h (added_to c u t)
  ok (added_to c u t, record u { table = t })

-- The upstream removed and every reference to it cleared, and whether there was one.
unfoldable pub without : Config → Text → Config × Bool
unfolding keep any
without c id = (
  record {
    upstreams = keep (λ u. not (has_id id u)) c.upstreams;
    default = if text_eq c.default id then [] else c.default;
    per_cn = keep (λ kv. not (text_eq kv.1 id)) c.per_cn;
  },
  any (has_id id) c.upstreams,
)

-- `validated`: the changed copy, or the error.
unfoldable pub validated : Host → Config → Result Error Config
unfolding validate
validated h cfg = validate h cfg >> ok cfg

abbrev pub same_bool : Bool → Bool → Bool
same_bool true b = b
same_bool false b = not b

unfoldable pub assigned : Config → Text → Text → Bool → Config
unfolding insert erase
assigned c cn id clear = record c {
  per_cn = if clear then erase text_discrete cn c.per_cn else insert text_discrete cn id c.per_cn;
}

unfoldable pub assign : Host → Config → Text → Text → Bool → Result Error Config
unfolding validated assigned
assign h c cn id clear = do
  refuse (is_empty cn || same_bool clear (not (is_empty id))) bad_assign
  validated h (assigned c cn id clear)

unfoldable pub set_default : Host → Config → Text → Result Error Config
unfolding validated
set_default h c id = validated h (record c { default = id })
