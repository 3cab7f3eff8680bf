-- ===== src/Auth/Tests.antt =====
-- Runs of the limiter, of the codes, the hashes and the classes, and of the login.
use ovcp.Base.{
  split_on, split, lacks, [], ℕ, zero, suc, ◌+◌, ◌-◌, ◌/◌, ◌≤◌, ◌<◌, ◌≡◌, refl, ap, ◌↔◌, true,
  false, none, some, List, ◌∷◌, map, arith, within, length, keep, any, find, In, All, Text, codes,
  text_discrete, text_eq, lookup, erase, insert, ok,
}
use ovcp.Auth.Secrets.{Unicode, secret_classes, min_secret_classes, class_of, secret_classes-lt-two}
use ovcp.Auth.Totp.{
  totp_code, step_code, truncate, be32_at, offset, byte_at, be64, six_digits, totp_verify, IsDigit,
  totp_verify-totp_code, totp_verify-only, offset-lt, totp_code-digits,
}
use ovcp.Auth.Passwords.{
  IsKdf, verify_password-hash_password, hash_password, verify_password, verify_pieces,
}
use ovcp.Auth.Login.{
  validate, known_name, login, login_admit, login_user, login_found, login_check, login_fail,
  login_pass, new_service,
}
use ovcp.Auth.Login.Outcome.{Leaves, login-Leaves, login-validate, Granted, login-Granted}
use ovcp.Auth.Login.Overlapping.{Step, enters, goes_on, move, wrong_answers}
use ovcp.Auth.Login.Crowded.{wrong_answers-lt}
use ovcp.Auth.Login.Guessing.{Attempt, attempt, wrong_guesses, wrong_guesses-le-max}
use ovcp.Store.Names.{is_name_byte, check_name, all_name_bytes}
use ovcp.Auth.World.{pad, plain_kdf, plain_mac, world, alice, service}
use ovcp.Auth.Roles.{rank, can, can_trans}
use ovcp.Auth.Limiter.{
  Limiter, new_limiter, Call, allows, fails, step, allow, fail, sweep, bump, is_expired, reset, run,
}
use ovcp.Auth.Limiter.Lockout.{run-allow, failures_of, fail-unexpired}
use ovcp.Auth.Limiter.Refinement.{live, run-live, track_all, visible}
use ovcp.Store.Users.{get_user, scan_user, add_session}
use ovcp.Store.Totp.{decrypt_totp}

abbrev per_user : Limiter
per_user = record { max = 2; window = 100; failures = [] }

abbrev history : List (ℕ × Call)
history =
    (10, fails (codes "alice"))
    ∷ (11, fails (codes "bob"))
    ∷ (12, allows (codes "alice"))
    ∷ (20, fails (codes "alice"))
    ∷ []

run-allow_case : (allow (run per_user history) 50 (codes "alice")).1 ≡ false
unfolding failures_of text_discrete live visible lookup
run-allow_case =
    run-allow (codes "alice") history per_user 0 50 tt (omega arith) refl (omega arith)
      (omega arith) tt

run-live_example :
    live (run per_user history) 50 (codes "alice")
    ≡ visible 100 50 (track_all 100 (codes "alice") none history)
unfolding lookup
run-live_example = run-live (codes "alice") history per_user 0 50 tt (omega arith)

no_expired_entry : is_expired 100 500 (record { count = 1; first = 500 }) ≡ false
unfolding fail sweep bump lookup insert text_discrete keep run step allow erase
no_expired_entry =
    fail-unexpired (run per_user history) 500 (codes "bob") (codes "bob")
      (record { count = 1; first = 500 }) (refl, (refl, tt)) refl

logged_in :
    (login world service (codes "alice") (codes "secret") [] (codes "::1")).1
    ≡ ok (codes "t0k3n", alice)
unfolding text_discrete login login_user login_found login_check login_fail login_pass get_user
    scan_user find any keep decrypt_totp verify_password verify_pieces split split_on hash_password
    pad add_session allow fail reset sweep bump lookup insert erase check_name all_name_bytes
    is_name_byte new_service new_limiter
logged_in = refl

login-Granted_example :
    Granted world service (codes "alice") (codes "secret") [] (codes "::1") (codes "t0k3n") alice
login-Granted_example =
    login-Granted world service (codes "alice") (codes "secret") [] (codes "::1") (codes "t0k3n")
      alice logged_in

login-Leaves_case :
    Leaves world service
      (login world service (codes "alice") (codes "guess") [] (codes "::1")).0
      (known_name (codes "alice"))
      (codes "::1")
      (login world service (codes "alice") (codes "guess") [] (codes "::1")).1
login-Leaves_case = login-Leaves world service (codes "alice") (codes "guess") [] (codes "::1")

login-validate_example :
    validate
      (record world { now = 44199 })
      (login world service (codes "alice") (codes "secret") [] (codes "::1")).0
      (codes "t0k3n")
    ≡ ok (some alice)
unfolding any new_service
login-validate_example =
    login-validate world service (codes "alice") (codes "secret") [] (codes "::1") (codes "t0k3n")
      alice 44199 (refl, (refl, tt)) refl logged_in (omega arith) (omega arith)

abbrev wrong_guess : Attempt
wrong_guess = record {
  world = world;
  username = codes "alice";
  password = codes "guess";
  code = [];
  ip = codes "::1";
}

wrong_guesses-le-max_case :
    wrong_guesses (codes "alice") service (wrong_guess ∷ wrong_guess ∷ []) ≤ 20
unfolding text_discrete login login_user login_found login_check login_fail login_pass get_user
    scan_user find any keep decrypt_totp verify_password verify_pieces split split_on hash_password
    pad add_session allow fail reset sweep bump lookup insert erase check_name all_name_bytes
    is_name_byte new_service new_limiter attempt live visible
wrong_guesses-le-max_case =
    wrong_guesses-le-max (codes "alice") (wrong_guess ∷ wrong_guess ∷ []) service 900 1100 tt
      (omega arith) refl (omega arith) (omega arith, refl, (omega arith, refl, omega arith))

-- Two guesses at once.
abbrev two_at_once : List Step
two_at_once =
    enters wrong_guess
    ∷ enters wrong_guess
    ∷ goes_on wrong_guess.world 1
    ∷ goes_on wrong_guess.world 0
    ∷ []

wrong_answers-lt_example :
    wrong_answers (codes "alice") (record { service = service; pending = [] }) two_at_once < 20 + 2
unfolding text_discrete login_admit login_user login_found login_check login_fail login_pass
    get_user scan_user find any keep decrypt_totp verify_password verify_pieces split split_on
    hash_password pad add_session allow fail reset sweep bump lookup insert erase check_name
    all_name_bytes is_name_byte new_service new_limiter live visible move
wrong_answers-lt_example =
    wrong_answers-lt (codes "alice") two_at_once (record { service = service; pending = [] }) 2 900
      1100 tt (omega arith) refl (omega arith) (omega arith)
      (
        omega arith,
        omega arith,
        (omega arith, omega arith, (omega arith, refl, (omega arith, refl, omega arith))),
      )

code_shown : totp_code plain_mac (codes "key") 1000 ≡ ok (codes "812224")
unfolding totp_code step_code truncate be32_at offset byte_at be64 six_digits pad
code_shown = refl

totp_verify-totp_code_case : totp_verify plain_mac (codes "key") (codes "812224") 1025 ≡ true
totp_verify-totp_code_case =
    totp_verify-totp_code plain_mac (codes "key") (codes "812224") 1000 1025 code_shown
      (omega arith) (omega arith) (omega arith)

totp_verify-only_example :
    (t : ℕ) × (totp_code plain_mac (codes "key") t ≡ ok (codes "812224"))
    × ((t / 30 ≤ 1025 / 30 + 1) × (1025 / 30 ≤ t / 30 + 1))
totp_verify-only_example =
    totp_verify-only plain_mac (codes "key") (codes "812224") 1025 totp_verify-totp_code_case
      (omega arith)

offset-lt_case : offset (pad 20 (codes "key")) + 3 < length (pad 20 (codes "key"))
unfolding pad
offset-lt_case = offset-lt (pad 20 (codes "key")) refl

totp_code-digits_case : (length (codes "812224") ≡ 6) × All IsDigit (codes "812224")
totp_code-digits_case = totp_code-digits plain_mac (codes "key") (codes "812224") 1000 code_shown

pad-length : (n : ℕ) (t : Text) → length (pad n t) ≡ n
unfolding pad
pad-length zero t = refl
pad-length (suc n) [] = ground (arith, pad-length n [])
pad-length (suc n) (c ∷ t) = ground (arith, pad-length n t)

shift_back : (t : Text) → map (λ c. c - 37) (map (λ c. c + 37) t) ≡ t
shift_back [] = refl
shift_back (c ∷ t) = ground (arith, shift_back t)

shift-lacks : (t : Text) → lacks b'$' (map (λ c. c + 37) t) ≡ true
unfolding lacks
shift-lacks [] = refl
shift-lacks (c ∷ t) = ground (arith, shift-lacks t)

plain_kdf-IsKdf : IsKdf plain_kdf
unfolding lacks
plain_kdf-IsKdf = record {
  decode_encode = λ s. ap some (shift_back s);
  scan_print = refl;
  encode_lacks = shift-lacks;
  print_lacks = refl;
  key_length = λ p salt password n. pad-length n password;
}

verify_password-hash_password_case :
    verify_password plain_kdf
      (codes "guess")
      (hash_password plain_kdf (codes "salt") (codes "secret"))
    ≡ text_eq (pad 32 (codes "guess")) (pad 32 (codes "secret"))
verify_password-hash_password_case =
    verify_password-hash_password plain_kdf (codes "salt") (codes "secret") (codes "guess")
      plain_kdf-IsKdf

abbrev ascii : Unicode
ascii = record {
  is_upper = within 65 90;
  is_lower = within 97 122;
  is_digit = within 48 57;
  byte_len = length;
}

secret_classes-lt-two_case :
    (secret_classes ascii (codes "abc") < min_secret_classes)
    ↔ ((r s : ℕ) → In r (codes "abc") → In s (codes "abc") → class_of ascii r ≡ class_of ascii s)
secret_classes-lt-two_case = secret_classes-lt-two ascii (codes "abc")

admin_readonly : can (codes "admin") (codes "readonly") ≡ true
unfolding can rank text_discrete
admin_readonly = can_trans (codes "admin") (codes "operator") (codes "readonly") refl refl
