-- ===== src/Ovpnconf/Unbroken.antt =====
-- That the lines which `Render` writes itself have no line end in them.
use ovcp.Base.{
  ℤ, ℕ, ◌≡◌, refl, sym, subst, inl, inr, true, not, ◌&&◌, some, List, [], ◌∷◌, ◌++◌, map, arith,
  ℕ_discrete, Bool-cases, if-intro, Option-cases, any, All, Text, codes, text_discrete, text_eq,
  is_empty, Result, ok, err, cut, lacks,
}
use ovcp.Ovpnconf.Server.{
  Network, Net, Config, Error, server_tun_ip, is_proto, is_listed, allowed_ciphers, validate_dns,
  effective_status_interval,
}
use ovcp.Ovpnconf.Render.{
  domain, network_words, quoted, server_lines, auth_lines, status_lines, redirect_lines, push_dns,
  internal_dns_of, internal_dns_lines, domain_lines, push_route, notify_lines, own_lines, after_cut,
}

-- No line end.
abbrev pub IsLine : Text → Type 0
IsLine t = lacks 10 t ≡ true

-- What package net and the printing of an int guarantee.
abbrev pub IsNet : Net → Type 0
IsNet net =
    ((t : Text) (n : Network) → net.parse_cidr t ≡ some n → IsLine n.address × IsLine n.mask)
    × ((t : Text) → net.is_ip t ≡ true → IsLine t)
    × ((ip : List ℕ) → IsLine (net.print_ip ip))
    × ((k : ℤ) → IsLine (net.print_int k))

-- The fields that the server owns.
abbrev pub OwnsLines : Config → Type 0
OwnsLines c =
    IsLine c.ca_cert
    × IsLine c.server_cert
    × IsLine c.server_key
    × IsLine c.crl
    × IsLine c.tls_crypt
    × IsLine c.mgmt_socket
    × IsLine c.status_log
    × IsLine c.server_cn

lacks-append : (s t : Text) → IsLine s → IsLine t → IsLine (s ++ t)
unfolding lacks
lacks-append [] t a b = b
lacks-append (c ∷ s) t a b = ground (arith, lacks-append s t)

lacks-after : (s : Text) → IsLine s → IsLine (after_cut (cut b'.' s))
unfolding lacks cut
lacks-after [] h = refl
lacks-after (c ∷ s) h = elim (ℕ_discrete c b'.') [
  | yes e ↦ ground arith
  | no n ↦ ground (arith, lacks-after s)
]

pub All-append : (P : Text → Type 0) (xs ys : List Text) → All P xs → All P ys → All P (xs ++ ys)
All-append P [] ys a b = b
All-append P (x ∷ xs) ys a b = (a.0, All-append P xs ys a.1 b)

listed-IsLine : (t : Text) → is_listed allowed_ciphers t ≡ true → IsLine t
unfolding any lacks
listed-IsLine t h = elim (text_discrete t (codes "AES-256-GCM")) [
  | yes e ↦ subst IsLine (sym e) refl
  | no a ↦ elim (text_discrete t (codes "AES-128-GCM")) [
    | yes e ↦ subst IsLine (sym e) refl
    | no b ↦ elim (text_discrete t (codes "CHACHA20-POLY1305")) [
      | yes e ↦ subst IsLine (sym e) refl
      | no d ↦ absurd (ground arith)
    ]
  ]
]

proto-IsLine : (t : Text) → is_proto t ≡ true → IsLine t
unfolding lacks
proto-IsLine t h = elim (text_discrete t (codes "udp")) [
  | yes e ↦ subst IsLine (sym e) refl
  | no a ↦ elim (text_discrete t (codes "tcp")) [
    | yes e ↦ subst IsLine (sym e) refl
    | no b ↦ absurd (ground arith)
  ]
]

network-IsLine : (net : Net) (t : Text) → IsNet net → IsLine (network_words (net.parse_cidr t))
unfolding lacks
network-IsLine net t w = elim (Option-cases (net.parse_cidr t)) [
  | inl n ↦ subst (λ o. IsLine (network_words o)) (sym n) refl
  | inr (n, e) ↦
      let (a, m) = w.0 t n e in
      subst (λ o. IsLine (network_words o)) (sym e) (lacks-append n.address (32 ∷ n.mask) a m)
]

quoted-IsLine : (a b : Text) → IsLine a → IsLine b → IsLine (quoted a b)
unfolding lacks
quoted-IsLine a b p q = lacks-append a (b ++ 34 ∷ []) p (lacks-append b (34 ∷ []) q refl)

server-lines-lack :
    (net : Net) (c : Config)
    → IsNet net
    → OwnsLines c
    → is_proto c.proto ≡ true
    → is_listed allowed_ciphers c.cipher ≡ true
    → All IsLine (server_lines net c)
unfolding lacks
server-lines-lack net c (cidr, ip, print, int) (ca, cert, key, crl, tls, sock, log, cn) p l = (
  refl,
  (
    proto-IsLine c.proto p,
    (
      int c.port,
      (
        refl,
        (
          refl,
          (
            refl,
            (
              network-IsLine net c.subnet (cidr, ip, print, int),
              (
                ca,
                (
                  cert,
                  (
                    key,
                    (
                      crl,
                      (
                        tls,
                        (
                          refl,
                          (
                            refl,
                            (
                              listed-IsLine c.cipher l,
                              (
                                listed-IsLine c.cipher l,
                                (
                                  refl,
                                  (
                                    refl,
                                    (
                                      refl,
                                      (lacks-append c.mgmt_socket (codes " unix") sock refl, tt),
                                    ),
                                  ),
                                ),
                              ),
                            ),
                          ),
                        ),
                      ),
                    ),
                  ),
                ),
              ),
            ),
          ),
        ),
      ),
    ),
  ),
)

auth-lines-lack : (c : Config) → All IsLine (auth_lines c)
unfolding lacks
auth-lines-lack c =
    if-intro (All IsLine) c.management_client_auth _ [] (refl, (refl, (refl, tt))) tt

status-lines-lack :
    (net : Net) (c : Config) → IsNet net → IsLine c.status_log → All IsLine (status_lines net c)
unfolding lacks
status-lines-lack net c (cidr, ip, print, int) log = (
  lacks-append c.status_log (32 ∷ net.print_int (effective_status_interval c)) log
      (int (effective_status_interval c)),
  (refl, (refl, (refl, tt))),
)

redirect-lines-lack : (c : Config) → All IsLine (redirect_lines c)
unfolding lacks
redirect-lines-lack c = if-intro (All IsLine) c.redirect_gw _ [] (refl, tt) tt

push_dns-IsLine : (d : Text) → IsLine d → IsLine (push_dns d)
unfolding lacks
push_dns-IsLine d h = quoted-IsLine (codes "push " ++ (34 ∷ codes "dhcp-option DNS ")) d refl h

internal-dns-of-lack :
    (net : Net) (r : Result Error (List ℕ)) → IsNet net → All IsLine (internal_dns_of net r)
internal-dns-of-lack net (ok i) (cidr, ip, print, int) =
    (push_dns-IsLine (net.print_ip i) (print i), tt)
internal-dns-of-lack net (err e) w = tt

internal-dns-lack : (net : Net) (c : Config) → IsNet net → All IsLine (internal_dns_lines net c)
internal-dns-lack net c w =
    if-intro (All IsLine) c.push_internal_dns (internal_dns_of net (server_tun_ip net c)) []
      (internal-dns-of-lack net (server_tun_ip net c) w) tt

dns-lack :
    (net : Net) (ds : List Text)
    → IsNet net
    → validate_dns net ds ≡ ok tt
    → All IsLine (map push_dns ds)
unfolding validate_dns
dns-lack net [] w h = tt
dns-lack net (d ∷ ds) w h = elim (Bool-cases (net.is_ip d)) [
  | inl b ↦ (push_dns-IsLine d (w.1 d b), dns-lack net ds w (ground arith))
  | inr b ↦ absurd (ground arith)
]

domain-IsLine : (net : Net) (cn : Text) → IsLine cn → IsLine (domain net cn)
unfolding domain lacks
domain-IsLine net cn h =
    if-intro IsLine (net.is_ip cn) [] (after_cut (cut b'.' cn)) refl (lacks-after cn h)

domain-lines-lack : (net : Net) (c : Config) → IsLine c.server_cn → All IsLine (domain_lines net c)
unfolding lacks
domain-lines-lack net c h =
    let d = domain-IsLine net c.server_cn h in
    if-intro (All IsLine) (c.push_internal_dns && not (is_empty (domain net c.server_cn))) _ []
      (
        quoted-IsLine (codes "push " ++ (34 ∷ codes "dhcp-option DOMAIN ")) (domain net c.server_cn)
            refl d,
        (
          quoted-IsLine (codes "push " ++ (34 ∷ codes "dhcp-option DOMAIN-SEARCH "))
              (domain net c.server_cn) refl d,
          tt,
        ),
      )
      tt

routes-lack : (net : Net) (rs : List Text) → IsNet net → All IsLine (map (push_route net) rs)
unfolding lacks
routes-lack net [] w = tt
routes-lack net (r ∷ rs) w = (
  quoted-IsLine (codes "push " ++ (34 ∷ codes "route ")) (network_words (net.parse_cidr r)) refl
      (network-IsLine net r w),
  routes-lack net rs w,
)

notify-lines-lack : (c : Config) → All IsLine (notify_lines c)
unfolding lacks
notify-lines-lack c = if-intro (All IsLine) (text_eq c.proto (codes "udp")) _ [] (refl, tt) tt

pub own-lines-lack :
    (net : Net) (c : Config)
    → IsNet net
    → OwnsLines c
    → is_proto c.proto ≡ true
    → is_listed allowed_ciphers c.cipher ≡ true
    → validate_dns net c.dns ≡ ok tt
    → All IsLine (own_lines net c)
unfolding own_lines
own-lines-lack net c w o p l d =
    let (ca, cert, key, crl, tls, sock, log, cn) = o in
    All-append IsLine (server_lines net c) _ (server-lines-lack net c w o p l) (
      All-append IsLine (auth_lines c) _ (auth-lines-lack c) (
        All-append IsLine (status_lines net c) _ (status-lines-lack net c w log) (
          All-append IsLine (redirect_lines c) _ (redirect-lines-lack c) (
            All-append IsLine (internal_dns_lines net c) _ (internal-dns-lack net c w) (
              All-append IsLine (map push_dns c.dns) _ (dns-lack net c.dns w d) (
                All-append IsLine (domain_lines net c) _ (domain-lines-lack net c cn) (
                  All-append IsLine (map (push_route net) c.routes) _ (routes-lack net c.routes w)
                    (notify-lines-lack c))))))))
