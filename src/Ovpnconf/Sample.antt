-- ===== src/Ovpnconf/Sample.antt =====
-- A small configuration, and a network package that knows one network and one address, for the tests.
use ovcp.Base.{
  split_on, ℤ, pos, ℕ, ◌≡◌, refl, Bool, true, false, Option, none, some, List, [], ◌∷◌, ◌++◌,
  ℕ_discrete, any, Text, codes, text_discrete, text_eq, ok, trim_left_space, cut_prefix, split,
}
use ovcp.Ovpnconf.Server.{
  Network, Net, Config, validate, validate_dns, validate_routes, validate_extra, first_field,
  field_allowed, take_word,
}

abbrev pub private : Network
private = record {
  address = codes "10.8.0.0";
  mask = codes "255.255.255.0";
  four = some (10 ∷ 8 ∷ 0 ∷ 0 ∷ []);
}

abbrev pub parsed : Bool → Option Network
parsed true = some private
parsed false = none

-- One network, one address.
abbrev pub net : Net
net = record {
  parse_cidr = λ (t : Text). parsed (text_eq t (codes "10.8.0.0/24"));
  is_ip = λ (t : Text). text_eq t (codes "192.0.2.53");
  print_ip = λ (ip : List ℕ). codes "10.8.0.1";
  print_int = λ (k : ℤ). codes "1194";
}

abbrev pub config : Config
config = record {
  proto = codes "udp";
  port = pos 1194;
  subnet = codes "10.8.0.0/24";
  cipher = codes "AES-256-GCM";
  dns = codes "192.0.2.53" ∷ [];
  push_internal_dns = true;
  routes = [];
  redirect_gw = true;
  extra = codes " # mine" ++ (10 ∷ codes "mute 20");
  ca_cert = codes "ca.pem";
  server_cert = codes "server.pem";
  server_key = codes "server.key";
  crl = codes "crl.pem";
  tls_crypt = codes "tls.key";
  mgmt_socket = codes "mgmt.sock";
  status_log = codes "status.log";
  server_cn = codes "vpn.example.com";
  status_interval = pos 0;
  management_client_auth = false;
}

pub config-valid : validate net config ≡ ok tt
unfolding validate validate_dns validate_routes validate_extra split split_on first_field
    field_allowed take_word trim_left_space any cut_prefix text_discrete ℕ_discrete
config-valid = refl
