-- ===== src/Auth/World.antt =====
-- Small stand-ins for the code behind `World`, and a service with two accounts, for the tests.
use ovcp.Base.{[], ℕ, zero, suc, ◌+◌, ◌-◌, true, false, ◌∷◌, ◌++◌, map, some, Text, codes}
use ovcp.Auth.Passwords.{Kdf, default_params, hash_password}
use ovcp.Auth.Totp.{Mac}
use ovcp.Auth.Login.{World, Service, new_service}
use ovcp.Store.Totp.{Gcm}
use ovcp.Store.Users.{User, Accounts}

unfoldable pub pad : ℕ → Text → Text
pad zero t = []
pad (suc n) [] = 0 ∷ pad n []
pad (suc n) (c ∷ t) = c ∷ pad n t

-- A key that is the password, cut to its length.
abbrev pub plain_kdf : Kdf
plain_kdf = record {
  id_key = λ p salt password n. pad n password;
  encode = map (λ c. c + 37);
  decode = λ t. some (map (λ c. c - 37) t);
  print_params = λ p. codes "m";
  scan_params = λ t. some default_params;
}

abbrev pub plain_mac : Mac
plain_mac = record { base32 = λ t. some t; hmac_sha1 = λ key msg. pad 20 (key ++ msg) }

abbrev pub plain_gcm : Gcm
plain_gcm = record {
  nonce_size = 1;
  seal = λ nonce t. t;
  unseal = λ nonce t. some t;
  encode = λ t. t;
  decode = λ t. some t;
}

abbrev pub world : World
world = record {
  now = 1000;
  token = codes "t0k3n";
  kdf = plain_kdf;
  hash_token = λ t. 0 ∷ t;
  mac = plain_mac;
  gcm = plain_gcm;
}

abbrev pub alice : User
alice = record {
  id = 1;
  username = codes "alice";
  pass_hash = hash_password plain_kdf (codes "salt") (codes "secret");
  role = codes "admin";
  totp_secret = [];
  disabled = false;
  created_at = 0;
}

abbrev pub bob : User
bob = record alice { id = 2; username = codes "bob"; disabled = true }

abbrev pub accounts : Accounts
accounts = record { users = alice ∷ bob ∷ []; sessions = [] }

abbrev pub service : Service
service = new_service accounts
