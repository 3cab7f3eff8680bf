-- ===== src/Ovpnconf/Render.antt =====
-- internal/ovpnconf/config.go: `Domain`, `Render` and `WriteAtomic`.
use ovcp.Base.{
  ℕ, Bool, not, ◌&&◌, Option, none, some, List, [], ◌∷◌, ◌++◌, map, if◌then◌else◌, Text, codes,
  text_discrete, text_eq, is_empty, Result, ok, err, trim_space, cut,
}
use ovcp.Ovpnconf.Server.{
  Network, Net, Config, Error, effective_status_interval, server_tun_ip, validate,
}

abbrev pub after_cut : Text × Text × Bool → Text
after_cut (before, after, found) = after

-- `Domain`
unfoldable pub domain : Net → Text → Text
unfolding cut
domain net cn = if net.is_ip cn then [] else after_cut (cut b'.' cn)

abbrev pub tun_dev : Text
tun_dev = codes "ovcp0"

-- The two words of a network; `Render` assumes that the text parses.
abbrev pub network_words : Option Network → Text
network_words none = []
network_words (some n) = n.address ++ (32 ∷ n.mask)

-- `w(format, s)` for a format that ends in the text, and for one that ends in it and a quote.
abbrev pub quoted : Text → Text → Text
quoted before s = before ++ (s ++ 34 ∷ [])

abbrev pub server_lines : Net → Config → List Text
server_lines net c =
    -- The second line's dash is three bytes of UTF-8.
    (codes "# generated by ovcp "
      ++ (226 ∷ 128 ∷ 148 ∷ codes " do not edit; changes are overwritten"))
    ∷ (codes "proto " ++ c.proto)
    ∷ (codes "port " ++ net.print_int c.port)
    ∷ (codes "dev " ++ tun_dev)
    ∷ codes "dev-type tun"
    ∷ codes "topology subnet"
    ∷ (codes "server " ++ network_words (net.parse_cidr c.subnet))
    ∷ (codes "ca " ++ c.ca_cert)
    ∷ (codes "cert " ++ c.server_cert)
    ∷ (codes "key " ++ c.server_key)
    ∷ (codes "crl-verify " ++ c.crl)
    ∷ (codes "tls-crypt " ++ c.tls_crypt)
    ∷ codes "dh none"
    ∷ codes "disable-dco"
    ∷ (codes "data-ciphers " ++ c.cipher)
    ∷ (codes "data-ciphers-fallback " ++ c.cipher)
    ∷ codes "auth SHA256"
    ∷ codes "keepalive 10 60"
    ∷ codes "persist-tun"
    ∷ (codes "management " ++ (c.mgmt_socket ++ codes " unix"))
    ∷ []

abbrev pub auth_lines : Config → List Text
auth_lines c =
    if c.management_client_auth
    then codes "management-client-auth"
      ∷ codes "management-hold"
      ∷ codes "auth-user-pass-optional"
      ∷ []
    else []

abbrev pub status_lines : Net → Config → List Text
status_lines net c =
    (codes "status " ++ (c.status_log ++ (32 ∷ net.print_int (effective_status_interval c))))
    ∷ codes "status-version 3"
    ∷ codes "verb 3"
    ∷ codes "suppress-timestamps"
    ∷ []

abbrev pub redirect_lines : Config → List Text
redirect_lines c =
    if c.redirect_gw
    then quoted (codes "push " ++ (34 ∷ [])) (codes "redirect-gateway def1 bypass-dhcp") ∷ []
    else []

abbrev pub push_dns : Text → Text
push_dns d = quoted (codes "push " ++ (34 ∷ codes "dhcp-option DNS ")) d

abbrev pub internal_dns_of : Net → Result Error (List ℕ) → List Text
internal_dns_of net (ok ip) = push_dns (net.print_ip ip) ∷ []
internal_dns_of net (err e) = []

abbrev pub internal_dns_lines : Net → Config → List Text
internal_dns_lines net c =
    if c.push_internal_dns then internal_dns_of net (server_tun_ip net c) else []

abbrev pub domain_lines : Net → Config → List Text
domain_lines net c =
    if c.push_internal_dns && not (is_empty (domain net c.server_cn))
    then quoted (codes "push " ++ (34 ∷ codes "dhcp-option DOMAIN ")) (domain net c.server_cn)
      ∷ quoted (codes "push " ++ (34 ∷ codes "dhcp-option DOMAIN-SEARCH ")) (domain net c.server_cn)
      ∷ []
    else []

abbrev pub push_route : Net → Text → Text
push_route net r =
    quoted (codes "push " ++ (34 ∷ codes "route ")) (network_words (net.parse_cidr r))

abbrev pub notify_lines : Config → List Text
notify_lines c = if text_eq c.proto (codes "udp") then codes "explicit-exit-notify 1" ∷ [] else []

-- The lines that `Render` writes itself.
unfoldable pub own_lines : Net → Config → List Text
unfolding server_tun_ip domain text_discrete
own_lines net c =
    server_lines net c
    ++ (auth_lines c
        ++ (status_lines net c
            ++ (redirect_lines c
                ++ (internal_dns_lines net c
                    ++ (map push_dns c.dns
                        ++ (domain_lines net c
                            ++ (map (push_route net) c.routes ++ notify_lines c)))))))

abbrev pub custom_mark : Text
custom_mark = codes "# --- custom options ---"

-- The last two lines; the second is the admin's own text and may have line ends.
abbrev pub extra_lines : Config → List Text
extra_lines c =
    let extra = trim_space c.extra in if is_empty extra then [] else custom_mark ∷ extra ∷ []

unfoldable pub write_lines : List Text → Text
write_lines [] = []
write_lines (l ∷ ls) = l ++ (10 ∷ write_lines ls)

-- `Render`
unfoldable pub render : Net → Config → Text
unfolding own_lines trim_space write_lines
render net c = write_lines (own_lines net c ++ extra_lines c)

-- Whether the temporary file can be written, and renamed.
pub record Files : Type 0 where
  pub writes : Bool
  pub renames : Bool

pub data WriteError : Type 0 where
  invalid : Error → WriteError
  write_failed rename_failed : WriteError

abbrev pub installed :
    Net
    → Files
    → Config
    → Option Text
    → Result Error (Unit {0})
    → Result WriteError (Unit {0}) × Option Text
installed net io c file (err e) = (err (invalid e), file)
installed net io c file (ok u) =
    if not io.writes
    then (err write_failed, file)
    else if not io.renames
    then (err rename_failed, file)
    else (ok tt, some (render net c))

-- `WriteAtomic`, for the text that stands in the file; the temporary one is not kept.
unfoldable pub write_atomic :
    Net → Files → Config → Option Text → Result WriteError (Unit {0}) × Option Text
unfolding validate render
write_atomic net io c file = installed net io c file (validate net c)
