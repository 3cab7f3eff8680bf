-- ===== src/Store/Totp.antt =====
-- internal/store/users.go, `encryptTOTP` and `decryptTOTP`: TOTP secrets at rest. AES-GCM and base64
-- are Go's own packages and stand here as operations with the laws that the code relies on; the key
-- is the store's own for its whole life, so it is part of the operations.
use ovcp.Base.{
  [], ℕ, ◌<◌, ◌≡◌, refl, false, ◌∷◌, ◌++◌, Option, none, some, ltb, if◌then◌else◌, Text, is_empty,
  take, drop, length, length-append, take-append_length, drop-append_length, Result, ok, err, ◌>>=◌,
  arith,
}

pub data Error : Type 0 where
  corrupt_totp : Error

pub record Gcm : Type 0 where
  pub nonce_size : ℕ
  pub seal : Text → Text → Text
  pub unseal : Text → Text → Option Text
  pub encode : Text → Text
  pub decode : Text → Option Text

-- Opening what was sealed under the same nonce, and decoding what was encoded, give the input back,
-- and the encoding of a byte or more is not empty.
pub record IsGcm (g : Gcm) : Type 0 where
  pub nonce_pos : 0 < g.nonce_size
  pub unseal_seal : (nonce plain : Text) → g.unseal nonce (g.seal nonce plain) ≡ some plain
  pub decode_encode : (s : Text) → g.decode (g.encode s) ≡ some s
  pub encode_cons : (c : ℕ) (s : Text) → is_empty (g.encode (c ∷ s)) ≡ false

unfoldable pub encrypt_totp : Gcm → Text → Text → Text
encrypt_totp g nonce secret =
    if is_empty secret then [] else g.encode (nonce ++ g.seal nonce secret)

or_corrupt : Option Text → Result Error Text
or_corrupt none = err corrupt_totp
or_corrupt (some t) = ok t

unfoldable pub decrypt_totp : Gcm → Text → Result Error Text
unfolding or_corrupt
decrypt_totp g enc =
    if is_empty enc
    then ok []
    else (or_corrupt (g.decode enc) >>= λ sealed.
        if ltb (length sealed) g.nonce_size
        then err corrupt_totp
        else or_corrupt (g.unseal (take g.nonce_size sealed) (drop g.nonce_size sealed)))

-- A TOTP secret that was encrypted under a nonce of the cipher's size decrypts to itself, the empty
-- one included, with a cipher and an encoding that undo themselves.
pub decrypt_totp-encrypt_totp :
    (g : Gcm) (nonce secret : Text)
    → IsGcm g
    → length nonce ≡ g.nonce_size
    → decrypt_totp g (encrypt_totp g nonce secret) ≡ ok secret
unfolding decrypt_totp encrypt_totp
decrypt_totp-encrypt_totp g nonce [] h e = refl
decrypt_totp-encrypt_totp g [] (c ∷ cs) h e = absurd (omega (arith, h.nonce_pos))
decrypt_totp-encrypt_totp g (n ∷ ns) (c ∷ cs) h e =
    let sealed = g.seal (n ∷ ns) (c ∷ cs) in
    ground (
      arith,
      h.encode_cons n (ns ++ sealed),
      h.decode_encode (n ∷ (ns ++ sealed)),
      h.unseal_seal (n ∷ ns) (c ∷ cs),
      length-append (n ∷ ns) sealed,
      take-append_length g.nonce_size (n ∷ ns) sealed,
      drop-append_length g.nonce_size (n ∷ ns) sealed,
    )
