-- ===== src/Auth/Totp.antt =====
-- internal/auth/totp.go, TOTP of RFC 6238. HMAC-SHA1 and base32 are Go's own packages and stand here
-- as operations; the truncation, the printing and the skew are the program's. Times are Unix seconds.
use ovcp.Base.{
  [], ℕ, zero, suc, ◌+◌, ◌-◌, ◌*◌, ◌/◌, ◌%◌, ◌^◌, ◌≤◌, ◌<◌, ◌≡◌, refl, sym, ap, ◌∙◌, inl, inr, Bool,
  true, false, Option, none, some, List, ◌∷◌, arith, dec_lt, ℕ_discrete, ltb, if◌then◌else◌,
  Option-cases, length, In, All, Text, text_discrete, text_eq, Result, ok, err, Result-cases,
}

pub record Mac : Type 0 where
  pub base32 : Text → Option Text
  pub hmac_sha1 : Text → Text → Text

pub data Error : Type 0 where
  bad_secret : Error

-- binary.BigEndian.PutUint64
unfoldable pub be64 : ℕ → Text
be64 n =
    (n / 2 ^ 56 % 256)
    ∷ (n / 2 ^ 48 % 256)
    ∷ (n / 2 ^ 40 % 256)
    ∷ (n / 2 ^ 32 % 256)
    ∷ (n / 2 ^ 24 % 256)
    ∷ (n / 2 ^ 16 % 256)
    ∷ (n / 2 ^ 8 % 256)
    ∷ (n % 256)
    ∷ []

-- A byte of the sum; out of range, which the length of a SHA-1 sum excludes, it is 0.
unfoldable pub byte_at : Text → ℕ → ℕ
byte_at [] i = 0
byte_at (b ∷ bs) zero = b
byte_at (b ∷ bs) (suc i) = byte_at bs i

-- binary.BigEndian.Uint32 of four bytes from `off`.
unfoldable pub be32_at : Text → ℕ → ℕ
unfolding byte_at
be32_at sum off =
    byte_at sum off * 2 ^ 24
    + byte_at sum (off + 1) * 2 ^ 16
    + byte_at sum (off + 2) * 2 ^ 8
    + byte_at sum (off + 3)

-- "%06d" of a number below a million.
unfoldable pub six_digits : ℕ → Text
six_digits n =
    (b'0' + n / 100000 % 10)
    ∷ (b'0' + n / 10000 % 10)
    ∷ (b'0' + n / 1000 % 10)
    ∷ (b'0' + n / 100 % 10)
    ∷ (b'0' + n / 10 % 10)
    ∷ (b'0' + n % 10)
    ∷ []

-- sum[len(sum)-1] & 0x0f, where the four bytes are taken.
unfoldable pub offset : Text → ℕ
unfolding byte_at
offset sum = byte_at sum (length sum - 1) % 16

-- `& 0x7fffffff` and `% 1_000_000`.
unfoldable pub truncate : Text → ℕ
unfolding be32_at offset
truncate sum = be32_at sum (offset sum) % 2 ^ 31 % 1000000

-- The code of a 30 second step.
unfoldable pub step_code : Mac → Text → ℕ → Text
unfolding be64 truncate six_digits
step_code m key counter = six_digits (truncate (m.hmac_sha1 key (be64 counter)))

-- `uint64(t.Unix())/30`
unfoldable pub totp_code : Mac → Text → ℕ → Result Error Text
unfolding step_code
totp_code m secret t = elim (m.base32 secret) [
  | none ↦ err bad_secret
  | some key ↦ ok (step_code m key (t / 30))
]

-- now.Add(-30 s) as a uint64, which wraps round in the first half minute of 1970.
abbrev pub half_minute_before : ℕ → ℕ
half_minute_before now = if ltb now 30 then 2 ^ 64 + now - 30 else now - 30

-- The loop over the times left to try.
unfoldable pub verify_at : Mac → Text → Text → List ℕ → Bool
unfolding totp_code
verify_at m secret code [] = false
verify_at m secret code (t ∷ ts) =
    let rest = verify_at m secret code ts in
    elim (totp_code m secret t) [
      | err e ↦ false
      | ok want ↦ if text_eq want code then true else rest
    ]

unfoldable pub totp_verify : Mac → Text → Text → ℕ → Bool
unfolding verify_at
totp_verify m secret code now =
    verify_at m secret code (now ∷ half_minute_before now ∷ (now + 30) ∷ [])

-- A code is that of its step, under the key that the secret decodes to.
totp_code-eq-ok :
    (m : Mac) (secret code : Text) (t : ℕ)
    → totp_code m secret t ≡ ok code
    → (key : Text) × (m.base32 secret ≡ some key) × (code ≡ step_code m key (t / 30))
unfolding totp_code
totp_code-eq-ok m secret code t h = elim (Option-cases (m.base32 secret)) [
  | inl e ↦ absurd (ground arith)
  | inr (key, e) ↦ (key, e, ground arith)
]

totp_code_of_key :
    (m : Mac) (secret key : Text) (t step : ℕ)
    → m.base32 secret ≡ some key
    → t / 30 ≡ step
    → totp_code m secret t ≡ ok (step_code m key step)
unfolding totp_code
totp_code_of_key m secret key t step h e = ground arith

verify_at-only :
    (m : Mac) (secret code : Text) (ts : List ℕ)
    → verify_at m secret code ts ≡ true
    → (t : ℕ) × In t ts × (totp_code m secret t ≡ ok code)
unfolding verify_at
verify_at-only m secret code [] h = absurd (ground arith)
verify_at-only m secret code (t ∷ ts) h = elim (Result-cases (totp_code m secret t)) [
  | inr (e, q) ↦ absurd (ground arith)
  | inl (want, q) ↦ elim (text_discrete want code) [
    | yes p ↦ (t, inl refl, q ∙ ap ok p)
    | no n ↦ let (x, i, c) = verify_at-only m secret code ts (ground arith) in (x, inr i, c)
  ]
]

verify_at-here :
    (m : Mac) (secret code : Text) (t : ℕ) (ts : List ℕ)
    → totp_code m secret t ≡ ok code
    → verify_at m secret code (t ∷ ts) ≡ true
unfolding verify_at
verify_at-here m secret code t ts h = ground arith

verify_at-there :
    (m : Mac) (secret code want : Text) (t : ℕ) (ts : List ℕ)
    → totp_code m secret t ≡ ok want
    → verify_at m secret code ts ≡ true
    → verify_at m secret code (t ∷ ts) ≡ true
unfolding verify_at
verify_at-there m secret code want t ts h k = ground arith

half_minute_before-eq : (now : ℕ) → 30 ≤ now → half_minute_before now ≡ now - 30
half_minute_before-eq now h = ground arith

-- From 30 seconds after the epoch on, the code of any moment in the 30 second step before, in this one or
-- in the next is accepted.
pub totp_verify-totp_code :
    (m : Mac) (secret code : Text) (shown now : ℕ)
    → totp_code m secret shown ≡ ok code
    → 30 ≤ now
    → shown / 30 ≤ now / 30 + 1
    → now / 30 ≤ shown / 30 + 1
    → totp_verify m secret code now ≡ true
unfolding totp_verify
totp_verify-totp_code m secret code shown now h p lo hi =
    let (key, e, c) = totp_code-eq-ok m secret code shown h in
    let before = half_minute_before now in
    let next = now + 30 in
    let at_now = totp_code_of_key m secret key now (now / 30) e refl in
    let step_before : before / 30 ≡ now / 30 - 1 = omega (arith, half_minute_before-eq now p) in
    let at_before = totp_code_of_key m secret key before (now / 30 - 1) e step_before in
    let at_next = totp_code_of_key m secret key next (now / 30 + 1) e (omega arith) in
    let code_of : (k : ℕ)
        → shown / 30 ≡ k
        → ◌≡◌ {A = Result Error Text} (ok (step_code m key k)) (ok code) =
      λ k q. ap ok (sym (c ∙ ap (step_code m key) q)) in
    elim (ℕ_discrete (shown / 30) (now / 30)) [
      | yes q ↦
          verify_at-here m secret code now (before ∷ next ∷ []) (at_now ∙ code_of (now / 30) q)
      | no n ↦
          verify_at-there m secret code _ now (before ∷ next ∷ []) at_now
            (elim (dec_lt (shown / 30) (now / 30)) [
              | yes q ↦
                  verify_at-here m secret code before (next ∷ [])
                    (at_before ∙ code_of (now / 30 - 1) (omega arith))
              | no k ↦ verify_at-there m secret code _ before (next ∷ []) at_before (
                  verify_at-here m secret code next []
                    (at_next ∙ code_of (now / 30 + 1) (omega arith)))
            ])
    ]

-- From 30 seconds after the epoch on, a code that is accepted is the code of the 30 second step of now,
-- of the one before or of the one after.
pub totp_verify-only :
    (m : Mac) (secret code : Text) (now : ℕ)
    → totp_verify m secret code now ≡ true
    → 30 ≤ now
    → (t : ℕ) × (totp_code m secret t ≡ ok code)
      × ((t / 30 ≤ now / 30 + 1) × (now / 30 ≤ t / 30 + 1))
unfolding totp_verify
totp_verify-only m secret code now h p =
    let (t, i, c) =
      verify_at-only m secret code (now ∷ half_minute_before now ∷ (now + 30) ∷ []) h in
    (t, c, near t i)
  where
    near :
        (t : ℕ)
        → In t (now ∷ half_minute_before now ∷ (now + 30) ∷ [])
        → (t / 30 ≤ now / 30 + 1) × (now / 30 ≤ t / 30 + 1)
    near t (inl e) = rw (← e) (omega arith)
    near t (inr (inl e)) = rw (← e) (omega (arith, half_minute_before-eq now p))
    near t (inr (inr (inl e))) = rw (← e) (omega arith)
    near t (inr (inr (inr e))) = absurd e

-- The four bytes lie inside a sum of 20 bytes.
pub offset-lt : (sum : Text) → length sum ≡ 20 → offset sum + 3 < length sum
unfolding offset
offset-lt sum h = omega arith

abbrev pub IsDigit : ℕ → Type 0
IsDigit c = (b'0' ≤ c) × (c ≤ b'9')

six_digits-digits : (n : ℕ) → (length (six_digits n) ≡ 6) × All IsDigit (six_digits n)
unfolding six_digits
six_digits-digits n = omega arith

step_code-digits :
    (m : Mac) (key : Text) (counter : ℕ)
    → (length (step_code m key counter) ≡ 6) × All IsDigit (step_code m key counter)
unfolding step_code
step_code-digits m key counter = six_digits-digits (truncate (m.hmac_sha1 key (be64 counter)))

-- Every code is six decimal digits.
pub totp_code-digits :
    (m : Mac) (secret code : Text) (t : ℕ)
    → totp_code m secret t ≡ ok code
    → (length code ≡ 6) × All IsDigit code
unfolding totp_code
totp_code-digits m secret code t h =
    let (key, e, c) = totp_code-eq-ok m secret code t h in rw c (step_code-digits m key (t / 30))
