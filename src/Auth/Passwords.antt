-- ===== src/Auth/Passwords.antt =====
-- internal/auth/auth.go, `HashPassword` and `VerifyPassword`: the PHC string of argon2id. What the two
-- take from elsewhere are operations: argon2, unpadded base64, and fmt's scan of "m=%d,t=%d,p=%d".
use ovcp.Base.{
  split_piece, split_last, split, lacks, [], ℕ, ◌*◌, ◌≡◌, refl, ap, ◌∙◌, Bool, true, false, Option,
  none, some, List, ◌∷◌, ◌++◌, arith, if◌then◌else◌, length, Text, codes, text_eq,
}

pub record Params : Type 0 where
  pub memory : ℕ
  pub time : ℕ
  pub threads : ℕ

pub record Kdf : Type 0 where
  pub id_key : Params → Text → Text → ℕ → Text
  pub encode : Text → Text
  pub decode : Text → Option Text
  pub print_params : Params → Text
  pub scan_params : Text → Option Params

-- hMemKiB, hTime, hThreads and hKeyLen.
abbrev pub default_params : Params
default_params = record { memory = 64 * 1024; time = 2; threads = 4 }

abbrev pub key_len : ℕ
key_len = 32

-- The PHC string, from the salt that was drawn.
unfoldable pub hash_password : Kdf → Text → Text → Text
hash_password k salt password =
    codes "$argon2id$v=19$"
    ++ (k.print_params default_params
        ++ (b'$'
            ∷ (k.encode salt ++ (b'$' ∷ k.encode (k.id_key default_params salt password key_len)))))

-- The six pieces of the PHC string; the second must be `argon2id`.
unfoldable pub verify_pieces : Kdf → Text → List Text → Bool
verify_pieces k password (p₀ ∷ p₁ ∷ p₂ ∷ p₃ ∷ p₄ ∷ p₅ ∷ []) =
    if text_eq p₁ (codes "argon2id")
    then elim (k.scan_params p₃) [
      | none ↦ false
      | some params ↦ elim (k.decode p₄) [
        | none ↦ false
        | some salt ↦ elim (k.decode p₅) [
          | none ↦ false
          | some want ↦ text_eq (k.id_key params salt password (length want)) want
        ]
      ]
    ]
    else false
verify_pieces k password _ = false

unfoldable pub verify_password : Kdf → Text → Text → Bool
unfolding split verify_pieces
verify_password k password encoded = verify_pieces k password (split b'$' encoded)

-- Decoding gives back what was encoded, neither encoding uses `$`, and a key has the length asked for.
pub record IsKdf (k : Kdf) : Type 0 where
  pub decode_encode : (s : Text) → k.decode (k.encode s) ≡ some s
  pub scan_print : k.scan_params (k.print_params default_params) ≡ some default_params
  pub encode_lacks : (s : Text) → lacks b'$' (k.encode s) ≡ true
  pub print_lacks : lacks b'$' (k.print_params default_params) ≡ true
  pub key_length :
      (p : Params) (salt password : Text) (n : ℕ) → length (k.id_key p salt password n) ≡ n

split-piece :
    (p rest : Text) → lacks b'$' p ≡ true → split b'$' (p ++ (b'$' ∷ rest)) ≡ p ∷ split b'$' rest
unfolding split
split-piece p rest h = ground (arith, split_piece b'$' p rest)

split-last : (p : Text) → lacks b'$' p ≡ true → split b'$' p ≡ p ∷ []
unfolding split
split-last p h = ground (arith, split_last b'$' p)

-- The pieces of a PHC string, after its leading `$`.
split-hash_password :
    (k : Kdf) (salt password : Text)
    → IsKdf k
    → split b'$' (hash_password k salt password)
      ≡ []
        ∷ codes "argon2id"
        ∷ codes "v=19"
        ∷ k.print_params default_params
        ∷ k.encode salt
        ∷ k.encode (k.id_key default_params salt password key_len)
        ∷ []
unfolding hash_password lacks
split-hash_password k salt password h =
    let key = k.encode (k.id_key default_params salt password key_len) in
    let r₄ = k.encode salt ++ (b'$' ∷ key) in
    let r₃ = k.print_params default_params ++ (b'$' ∷ r₄) in
    let r₂ = codes "v=19" ++ (b'$' ∷ r₃) in
    let r₁ = codes "argon2id" ++ (b'$' ∷ r₂) in
    split-piece [] r₁ refl
    ∙ ap (◌∷◌ []) (
        split-piece (codes "argon2id") r₂ refl
        ∙ ap (◌∷◌ (codes "argon2id")) (
            split-piece (codes "v=19") r₃ refl
            ∙ ap (◌∷◌ (codes "v=19")) (
                split-piece (k.print_params default_params) r₄ h.print_lacks
                ∙ ap (◌∷◌ (k.print_params default_params)) (
                    split-piece (k.encode salt) key (h.encode_lacks salt)
                    ∙ ap (◌∷◌ (k.encode salt)) (split-last key (h.encode_lacks _))))))

-- With encodings that undo themselves and write no `$`: a guess is accepted against the hash of a
-- password exactly when argon2 gives the two the same key, the password itself among them.
pub verify_password-hash_password :
    (k : Kdf) (salt password guess : Text)
    → IsKdf k
    → verify_password k guess (hash_password k salt password)
      ≡ text_eq
          (k.id_key default_params salt guess key_len)
          (k.id_key default_params salt password key_len)
unfolding verify_password
verify_password-hash_password k salt password guess h = rw (split-hash_password k salt password h) (
    ground (
      arith,
      h.scan_print,
      h.decode_encode salt,
      h.decode_encode (k.id_key default_params salt password key_len),
      h.key_length default_params salt password key_len,
    ))
