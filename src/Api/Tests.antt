-- ===== src/Api/Tests.antt =====
-- A request of an operator, a change of the configuration, and a hosts file.
use ovcp.Base.{
  ℤ, pos, List, ◌≡◌, refl, sym, ap, subst, ◌∙◌, ◌≢◌, ◌↔◌, ◌⊎◌, inl, inr, Bool, true, false, Option,
  none, some, [], ◌∷◌, arith, ℕ_discrete, In, Text, codes, text_discrete, text_eq, lookup, erase,
  ok, err, cut, split, split_on, trim_left_space, trim_right_space, trim_space, any, cut_prefix,
}
use ovcp.Auth.Login.{Service, new_service}
use ovcp.Auth.World.{world, service, alice}
use ovcp.Auth.Roles.{can, role_operator}
use ovcp.Controller.Status.{VpnClient}
use ovcp.Store.Certs.{Kind, Cert, client}
use ovcp.Ovpnconf.Sample.{net, config, config-valid}
use ovcp.Ovpnconf.Render.{render, own_lines, write_lines, domain, write_failed, write_atomic}
use ovcp.Ovpnconf.Server.{
  Config, server_tun_ip, validate, validate_dns, validate_routes, validate_extra, first_field,
  field_allowed, take_word,
}
use ovcp.Ovpnconf.Diff.{diff, diff_lines, walk, cell, table, row_of, last_row, lines, trim_right}
use ovcp.Store.Totp.{decrypt_totp}
use ovcp.Store.Users.{session_user, User}
use ovcp.Api.Routes.{Route, routes, method_of, read_in}
use ovcp.Api.Gate.{Request, Response, Handlers, admit, serve_http}
use ovcp.Api.Admitted.{IsMux, Speaks, Gate, serve_http-Gate, admit-writes}
use ovcp.Api.Certificates.{Pki, Env, Site}
use ovcp.Api.Certificates.Listed.{IsPki, IsListed}
use ovcp.Api.Certificates.Runs.{Call, issues, revokes, renews_server, run_calls, run_calls-IsListed}
use ovcp.Api.Inputs.{read_in-path}
use ovcp.Api.VpnConfig.{Setup, Io, refused, set_vpn_config, preview_vpn_config, save_config}
use ovcp.Api.VpnConfig.Synced.{
  IsSynced, Change, set_by, set_auth, run_changes, run_changes-IsSynced,
}
use ovcp.Api.VpnConfig.Repeated.{set_vpn_config-unrepaired}
use ovcp.Api.Hosts.{client_lines, IsNamed, client_line, client_lines-IsNamed}

read_in-path_case :
    lookup text_discrete (codes "id") ((codes "id", codes "7") ∷ []) ≡ some (codes "7")
unfolding read_in erase text_discrete
read_in-path_case =
    read_in-path false [] (some ((codes "id", codes "9") ∷ [])) (λ (t : Text). codes "7")
      (codes "id" ∷ []) (codes "id") ((codes "id", codes "7") ∷ []) (inl refl) refl

-- A mux that knows one route.
abbrev kill_route : Route
kill_route = (codes "POST /api/clients/kill", role_operator)

abbrev matched : Bool → Option Route
matched true = some kill_route
matched false = none

abbrev mux : Request → Option Route
mux r = matched (text_eq r.method (codes "POST"))

kill_route-In : In kill_route routes
kill_route-In = inr (
    inr (
      inr (
        inr (
          inr (inr (inr (inr (inr (inr (inr (inr (inr (inr (inr (inr (inr (inl refl)))))))))))))))))

kill_route-post : method_of kill_route ≡ codes "POST"
unfolding method_of cut
kill_route-post = refl

same-route : (a b : Route) → some a ≡ some b → a ≡ b
same-route a b h = cc

matched-route :
    (m : Text) (b : Bool) (rt : Route)
    → (b ≡ true → m ≡ codes "POST")
    → matched b ≡ some rt
    → In rt routes × ((m ≡ method_of rt) ⊎ ((method_of rt ≡ codes "GET") × (m ≡ codes "HEAD")))
matched-route m true rt h e =
    subst
      (λ k. In k routes × ((m ≡ method_of k) ⊎ ((method_of k ≡ codes "GET") × (m ≡ codes "HEAD"))))
      (same-route kill_route rt e) (kill_route-In, inl (h refl ∙ sym kill_route-post))
matched-route m false rt h e = absurd (ground arith)

mux-IsMux : IsMux mux
mux-IsMux r rt e = matched-route r.method (text_eq r.method (codes "POST")) rt (λ h. ground arith) e

-- Alice has a session.
abbrev signed_in : Service
signed_in = record service {
  accounts = record (service.accounts) {
    sessions =
        (record {
          token_hash = 0 ∷ codes "t0k3n";
          user_id = 1;
          created_at = 900;
          expires_at = 2000;
        })
        ∷ [];
  };
}

abbrev kill_request : Request
kill_request = record {
  method = codes "POST";
  cookies = (codes "ovcp_session", codes "t0k3n") ∷ (codes "ovcp_csrf", codes "c5rf") ∷ [];
  headers = (codes "X-OVCP-CSRF", codes "c5rf") ∷ [];
}

abbrev handlers : Handlers Service
handlers = record {
  service = λ (s : Service). s;
  serve = λ (rt : Route) (u : Option User) (r : Request) (s : Service).
      (s, record { code = 200; message = [] });
}

serve_http-Gate_example :
    ((e : Response) × (serve_http handlers mux world kill_request signed_in ≡ (signed_in, e)))
    ⊎ ((rt : Route) × (ou : Option User) × (serve_http handlers mux world kill_request signed_in
          ≡ handlers.serve rt ou kill_request signed_in)
        × In rt routes
        × Gate world (handlers.service signed_in) kill_request rt ou)
serve_http-Gate_example = serve_http-Gate handlers mux world kill_request signed_in mux-IsMux

admitted : admit mux world signed_in kill_request ≡ ok (kill_route, some alice)
unfolding admit session_user new_service decrypt_totp
admitted = refl

post-ne-get : codes "POST" ≢ codes "GET"
unfolding text_discrete ℕ_discrete
post-ne-get h = let q : true ≡ false = ap (λ t. text_eq t (codes "POST")) h in absurd (ground arith)

post-ne-head : codes "POST" ≢ codes "HEAD"
unfolding text_discrete ℕ_discrete
post-ne-head h =
    let q : true ≡ false = ap (λ t. text_eq t (codes "POST")) h in absurd (ground arith)

admit-writes_example :
    (u : User) × (some alice ≡ some u)
    × Speaks world signed_in kill_request u
    × (can u.role role_operator ≡ true)
unfolding text_discrete ℕ_discrete
admit-writes_example =
    admit-writes mux world signed_in kill_request kill_route (some alice) mux-IsMux refl post-ne-get
      post-ne-head refl admitted

-- The configuration of the tests is saved, and the file is its text.
abbrev setup : Setup
setup = record { vpn_config = some config; conf_file = some (render net config); changes = [] }

abbrev works : Io
works = record { saves = true; files = record { writes = true; renames = true } }

-- The disk is full.
abbrev full : Io
full = record { saves = true; files = record { writes = false; renames = true } }

abbrev no_redirect : Config
no_redirect = record config { redirect_gw = false }

abbrev changes : List (Io × Change)
changes =
    (full, set_by (codes "alice") no_redirect)
    ∷ (works, set_auth true)
    ∷ (works, set_by (codes "alice") (record config { cipher = codes "none" }))
    ∷ []

run_changes-IsSynced_example : IsSynced net config (run_changes net config changes (false, setup))
run_changes-IsSynced_example =
    run_changes-IsSynced net config changes false setup (config-valid, λ e. refl)

no_redirect-valid : validate net no_redirect ≡ ok tt
unfolding validate validate_dns validate_routes validate_extra split split_on first_field
    field_allowed take_word trim_left_space any cut_prefix text_discrete ℕ_discrete
no_redirect-valid = refl

full_disk :
    (set_vpn_config net config full (codes "alice") no_redirect setup).0
    ≡ err (refused write_failed)
unfolding set_vpn_config preview_vpn_config save_config validate validate_dns validate_routes
    validate_extra split split_on first_field field_allowed take_word trim_left_space
    trim_right_space trim_space any cut_prefix cut text_discrete ℕ_discrete diff diff_lines walk
    cell table row_of last_row lines trim_right render own_lines write_lines domain server_tun_ip
    write_atomic
full_disk = refl

set_vpn_config-unrepaired_example :
    let s2 = (set_vpn_config net config full (codes "alice") no_redirect setup).1 in
    (s2.conf_file ≡ setup.conf_file)
    × (set_vpn_config net config works (codes "alice") no_redirect s2 ≡ (ok [], s2))
set_vpn_config-unrepaired_example =
    set_vpn_config-unrepaired net config full works (codes "alice") no_redirect setup write_failed
      no_redirect-valid full_disk

abbrev ann : VpnClient
ann = record {
  cid = codes "0";
  cn = codes "ann";
  real_address = [];
  virtual_address = codes "10.8.0.2";
  bytes_recv = 0;
  bytes_sent = 0;
  connected_since = none;
  cipher = [];
}

abbrev ann_cert : Cert
ann_cert = record {
  serial = codes "01";
  cn = codes "ann";
  kind = client;
  cert_pem = [];
  issued_at = 0;
  not_after = 9;
  revoked_at = none;
  include_dns = true;
}

client_lines-IsNamed_example :
    In (codes "10.8.0.2 ann") (client_lines (ann_cert ∷ []) (ann ∷ []) (codes "vpn") []) ↔ (
      (v : VpnClient) × In v (ann ∷ [])
      × IsNamed (ann_cert ∷ []) (codes "vpn") v
      × (client_line [] v ≡ codes "10.8.0.2 ann"))
client_lines-IsNamed_example =
    client_lines-IsNamed (ann_cert ∷ []) (ann ∷ []) (codes "vpn") [] (codes "10.8.0.2 ann")

-- A key file with one passphrase, and certificates of one serial.
abbrev pki : Pki
pki = record {
  opens = λ (t : Text). text_eq t (codes "open");
  is_hex = λ (t : Text). text_eq t (codes "0a");
  make_cert = λ (drawn : Text) (k : Kind) (cn : Text) (days : ℤ). record ann_cert {
    serial = codes "0a";
    kind = k;
    cn = cn;
  };
  encrypt_key = λ (t : Text). true;
}

pki-IsPki : IsPki pki
unfolding text_discrete ℕ_discrete
pki-IsPki drawn kind cn days = (refl, refl)

abbrev day : Env
day = record { now = 1; drawn = codes "0a"; writes_crl = true; writes_server = true }

-- A certificate is issued, revoked with a wrong passphrase and with the right one; the server's is renewed.
abbrev calls : List Call
calls =
    issues day (record {
      cn = codes "ann";
      days = pos 30;
      passphrase = codes "open";
      key_pass = [];
      renew = false;
    })
    ∷ revokes day (codes "0a") (codes "wrong")
    ∷ revokes day (codes "0a") (codes "open")
    ∷ renews_server day (codes "vpn") (pos 30) (codes "open")
    ∷ []

abbrev empty_site : Site
empty_site = record { certs = []; crl = []; revocations = [] }

run_calls-IsListed_example : IsListed pki (run_calls pki calls (false, empty_site))
run_calls-IsListed_example =
    run_calls-IsListed pki calls false empty_site pki-IsPki
      (tt, λ t i. absurd i, λ e c i k r. absurd i)
