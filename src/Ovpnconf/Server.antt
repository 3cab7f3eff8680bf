-- ===== src/Ovpnconf/Server.antt =====
-- internal/ovpnconf/config.go: `Config`, `Validate`, `Render`, `WriteAtomic` and what they call. Package
-- net, and the printing of an int, are parameters. White space is that of ASCII.
use ovcp.Base.{
  ℤ, pos, negsuc, ℤ, ℕ, ◌+◌, ◌%◌, ◌^◌, Bool, true, false, not, ◌||◌, Option, none, some, List, [],
  ◌∷◌, ◌==◌, within, if◌then◌else◌, any, Text, codes, text_discrete, text_eq, is_empty, Result, ok,
  err, ◌>>◌, refuse, trim_space, trim_left_space, is_space, cut_prefix, split,
}

-- A parsed CIDR: its masked address and its mask as they print, and its four bytes where it is IPv4.
pub record Network : Type 0 where
  pub address : Text
  pub mask : Text
  pub four : Option (List ℕ)

pub record Net : Type 0 where
  pub parse_cidr : Text → Option Network
  pub is_ip : Text → Bool
  pub print_ip : List ℕ → Text
  pub print_int : ℤ → Text

pub record Config : Type 0 where
  pub proto : Text
  pub port : ℤ
  pub subnet : Text
  pub cipher : Text
  pub dns : List Text
  pub push_internal_dns : Bool
  pub routes : List Text
  pub redirect_gw : Bool
  pub extra : Text
  pub ca_cert : Text
  pub server_cert : Text
  pub server_key : Text
  pub crl : Text
  pub tls_crypt : Text
  pub mgmt_socket : Text
  pub status_log : Text
  pub server_cn : Text
  pub status_interval : ℤ
  pub management_client_auth : Bool

pub data Error : Type 0 where
  bad_proto bad_port bad_cipher bad_subnet not_ipv4 : Error
  bad_dns bad_route bad_directive : Text → Error

-- `c.StatusInterval <= 0`
abbrev pub effective_status_interval : Config → ℤ
effective_status_interval c = elim c.status_interval [
  | pos n ↦ if n == 0 then pos 3 else pos n
  | negsuc n ↦ pos 3
]

abbrev pub bump_last : List ℕ → List ℕ
bump_last [] = []
bump_last (b ∷ []) = ((b + 1) % 2 ^ 8) ∷ []
bump_last (b ∷ c ∷ bs) = b ∷ bump_last (c ∷ bs)

abbrev tun_ip_of : Option Network → Result Error (List ℕ)
tun_ip_of none = err bad_subnet
tun_ip_of (some n) = elim n.four [ none ↦ err not_ipv4 | some ip ↦ ok (bump_last ip) ]

-- `ServerTunIP`
unfoldable pub server_tun_ip : Net → Config → Result Error (List ℕ)
server_tun_ip net c = tun_ip_of (net.parse_cidr c.subnet)

-- `SplitCSV`
unfoldable pub kept_pieces : List Text → List Text
unfolding trim_space
kept_pieces [] = []
kept_pieces (p ∷ ps) =
    let rest = kept_pieces ps in
    let piece = trim_space p in if is_empty piece then rest else piece ∷ rest

unfoldable pub split_csv : Text → List Text
unfolding kept_pieces split
split_csv s = if is_empty s then [] else kept_pieces (split b',' s)

abbrev pub allowed_ciphers : List Text
allowed_ciphers = codes "AES-256-GCM" ∷ codes "AES-128-GCM" ∷ codes "CHACHA20-POLY1305" ∷ []

abbrev pub extra_allowed : List Text
extra_allowed =
    codes "local"
    ∷ codes "push"
    ∷ codes "keepalive"
    ∷ codes "client-to-client"
    ∷ codes "max-clients"
    ∷ codes "max-routes-per-client"
    ∷ codes "inactive"
    ∷ codes "session-timeout"
    ∷ codes "connect-freq"
    ∷ codes "hand-window"
    ∷ codes "tls-version-min"
    ∷ codes "tls-version-max"
    ∷ codes "tls-cert-profile"
    ∷ codes "tls-cipher"
    ∷ codes "tls-ciphersuites"
    ∷ codes "ecdh-curve"
    ∷ codes "remote-cert-eku"
    ∷ codes "remote-cert-ku"
    ∷ codes "reneg-bytes"
    ∷ codes "reneg-pkts"
    ∷ codes "reneg-sec"
    ∷ codes "replay-window"
    ∷ codes "mute-replay-warnings"
    ∷ codes "mute"
    ∷ codes "mssfix"
    ∷ codes "fragment"
    ∷ codes "tun-mtu"
    ∷ codes "tcp-nodelay"
    ∷ []

abbrev pub is_listed : List Text → Text → Bool
is_listed ts t = any (λ a. text_eq a t) ts

-- The bytes before the first white space.
unfoldable pub take_word : Text → Text
take_word [] = []
take_word (c ∷ cs) = let rest = take_word cs in if is_space c then [] else c ∷ rest

-- strings.Fields(line)[0], or nothing.
unfoldable pub first_field : Text → Text
unfolding trim_left_space take_word
first_field line = take_word (trim_left_space line)

-- strings.TrimPrefix(s, "--")
abbrev without_dashes : Text → Option Text → Text
without_dashes s none = s
without_dashes s (some rest) = rest

-- Whether a first field passes: none, a comment, or an allowed directive.
unfoldable pub field_allowed : Text → Bool
unfolding any cut_prefix text_discrete
field_allowed [] = true
field_allowed (c ∷ f) =
    c == b'#'
    || c == b';'
    || is_listed extra_allowed (without_dashes (c ∷ f) (cut_prefix (codes "--") (c ∷ f)))

unfoldable pub validate_extra : List Text → Result Error (Unit {0})
unfolding first_field field_allowed
validate_extra [] = ok tt
validate_extra (l ∷ ls) =
    refuse (not (field_allowed (first_field l))) (bad_directive (first_field l))
    >> validate_extra ls

abbrev pub is_some : {A : Type 0} → Option A → Bool
is_some none = false
is_some (some a) = true

unfoldable pub validate_dns : Net → List Text → Result Error (Unit {0})
validate_dns net [] = ok tt
validate_dns net (d ∷ ds) = refuse (not (net.is_ip d)) (bad_dns d) >> validate_dns net ds

unfoldable pub validate_routes : Net → List Text → Result Error (Unit {0})
validate_routes net [] = ok tt
validate_routes net (r ∷ rs) =
    refuse (not (is_some (net.parse_cidr r))) (bad_route r) >> validate_routes net rs

abbrev pub is_port : ℤ → Bool
is_port (pos n) = within 1 65535 n
is_port (negsuc n) = false

abbrev pub is_proto : Text → Bool
is_proto p = text_eq p (codes "udp") || text_eq p (codes "tcp")

-- `Validate`
unfoldable pub validate : Net → Config → Result Error (Unit {0})
unfolding any text_discrete validate_dns validate_routes validate_extra split
validate net c =
    refuse (not (is_proto c.proto)) bad_proto
    >> (refuse (not (is_port c.port)) bad_port
        >> (refuse (not (is_listed allowed_ciphers c.cipher)) bad_cipher
            >> (refuse (not (is_some (net.parse_cidr c.subnet))) bad_subnet
                >> (validate_dns net c.dns
                    >> (validate_routes net c.routes >> validate_extra (split 10 c.extra))))))
