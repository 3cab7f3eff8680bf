-- ===== src/Auth/Secrets.antt =====
-- internal/auth/auth.go, `SecretOK` and `secretClasses`. A secret is its runes; what is an upper case
-- letter, a lower case one and a digit is Go's `unicode` package, and `len` counts bytes of UTF-8:
-- both stand here as operations.
use ovcp.Base.{
  [], ℕ, ◌+◌, ◌<◌, ◌≡◌, refl, ap, ◌∙◌, ◌≢◌, ◌↔◌, inl, inr, Bool, true, false, ◌&&◌, ◌||◌, List, ◌∷◌,
  arith, leb, if◌then◌else◌, any, In,
}

pub record Unicode : Type 0 where
  pub is_upper : ℕ → Bool
  pub is_lower : ℕ → Bool
  pub is_digit : ℕ → Bool
  pub byte_len : List ℕ → ℕ

-- The four flags of the loop.
pub record Classes : Type 0 where
  pub upper : Bool
  pub lower : Bool
  pub digit : Bool
  pub symbol : Bool

abbrev pub min_secret_len : ℕ
min_secret_len = 8

abbrev pub min_secret_classes : ℕ
min_secret_classes = 2

-- The switch of the loop, on one rune.
unfoldable pub note_rune : Unicode → Classes → ℕ → Classes
note_rune u k r =
    if u.is_upper r
    then record k { upper = true }
    else if u.is_lower r
    then record k { lower = true }
    else if u.is_digit r
    then record k { digit = true }
    else record k { symbol = true }

unfoldable pub classify : Unicode → Classes → List ℕ → Classes
unfolding note_rune
classify u k [] = k
classify u k (r ∷ rs) = classify u (note_rune u k r) rs

abbrev pub no_classes : Classes
no_classes = record { upper = false; lower = false; digit = false; symbol = false }

abbrev one_if : Bool → ℕ
one_if true = 1
one_if false = 0

unfoldable pub secret_classes : Unicode → List ℕ → ℕ
unfolding classify
secret_classes u v =
    let k = classify u no_classes v in
    one_if k.upper + one_if k.lower + one_if k.digit + one_if k.symbol

unfoldable pub secret_ok : Unicode → List ℕ → Bool
unfolding secret_classes
secret_ok u v = leb min_secret_len (u.byte_len v) && leb min_secret_classes (secret_classes u v)

-- One rune's class, and a class's flag.
pub data Class : Type 0 where
  upper_case lower_case decimal other : Class

unfoldable pub class_of : Unicode → ℕ → Class
class_of u r =
    if u.is_upper r
    then upper_case
    else if u.is_lower r
    then lower_case
    else if u.is_digit r
    then decimal
    else other

abbrev same_class : Class → Class → Bool
same_class upper_case upper_case = true
same_class lower_case lower_case = true
same_class decimal decimal = true
same_class other other = true
same_class _ _ = false

abbrev flag : Classes → Class → Bool
flag k upper_case = k.upper
flag k lower_case = k.lower
flag k decimal = k.digit
flag k other = k.symbol

abbrev has_class : Unicode → Class → List ℕ → Bool
has_class u c = any (λ r. same_class (class_of u r) c)

note_rune-flag :
    (u : Unicode) (c : Class) (k : Classes) (r : ℕ)
    → flag (note_rune u k r) c ≡ (flag k c || same_class (class_of u r) c)
unfolding note_rune class_of
note_rune-flag u upper_case k r = ground arith
note_rune-flag u c k r = ground arith

classify-flag :
    (u : Unicode) (c : Class) (k : Classes) (v : List ℕ)
    → flag (classify u k v) c ≡ (flag k c || has_class u c v)
unfolding classify any
classify-flag u c k [] = ground arith
classify-flag u c k (r ∷ rs) =
    classify-flag u c (note_rune u k r) rs
    ∙ ap (λ b. b || has_class u c rs) (note_rune-flag u c k r)
    ∙ ground arith

secret_classes-has_class :
    (u : Unicode) (v : List ℕ)
    → secret_classes u v
      ≡ one_if (has_class u upper_case v)
        + one_if (has_class u lower_case v)
        + one_if (has_class u decimal v)
        + one_if (has_class u other v)
unfolding secret_classes
secret_classes-has_class u v = cc (
  classify-flag u upper_case no_classes v,
  classify-flag u lower_case no_classes v,
  classify-flag u decimal no_classes v,
  classify-flag u other no_classes v,
)

has_class_of_In : (u : Unicode) (r : ℕ) (v : List ℕ) → In r v → has_class u (class_of u r) v ≡ true
unfolding any
has_class_of_In u r [] h = absurd h
has_class_of_In u r (s ∷ v) (inl h) = rw h (ground arith)
has_class_of_In u r (s ∷ v) (inr h) = ground (arith, has_class_of_In u r v h)

not-has_class :
    (u : Unicode) (c d : Class) (v : List ℕ)
    → ((r : ℕ) → In r v → class_of u r ≡ d)
    → d ≢ c
    → has_class u c v ≡ false
unfolding any
not-has_class u c d [] h n = refl
not-has_class u c d (r ∷ rs) h n =
    let rest = not-has_class u c d rs (λ s i. h s (inr i)) n in
    let here : class_of u r ≡ d = h r (inl refl) in ground arith

one_class :
    (u : Unicode) (d : Class) (v : List ℕ)
    → ((r : ℕ) → In r v → class_of u r ≡ d)
    → secret_classes u v < 2
one_class u upper_case v h = ground (
  arith,
  secret_classes-has_class u v,
  not-has_class u lower_case upper_case v h (cc),
  not-has_class u decimal upper_case v h (cc),
  not-has_class u other upper_case v h (cc),
)
one_class u lower_case v h = ground (
  arith,
  secret_classes-has_class u v,
  not-has_class u upper_case lower_case v h (cc),
  not-has_class u decimal lower_case v h (cc),
  not-has_class u other lower_case v h (cc),
)
one_class u decimal v h = ground (
  arith,
  secret_classes-has_class u v,
  not-has_class u upper_case decimal v h (cc),
  not-has_class u lower_case decimal v h (cc),
  not-has_class u other decimal v h (cc),
)
one_class u other v h = ground (
  arith,
  secret_classes-has_class u v,
  not-has_class u upper_case other v h (cc),
  not-has_class u lower_case other v h (cc),
  not-has_class u decimal other v h (cc),
)

two_classes :
    (u : Unicode) (v : List ℕ) (r s : ℕ)
    → In r v
    → In s v
    → secret_classes u v < 2
    → class_of u r ≡ class_of u s
two_classes u v r s i j h =
    let p = has_class_of_In u r v i in
    let q = has_class_of_In u s v j in ground (arith, secret_classes-has_class u v)

-- A secret has less than two classes exactly when all of its runes are of one class among upper case,
-- lower case, digits and the rest.
pub secret_classes-lt-two :
    (u : Unicode) (v : List ℕ)
    → (secret_classes u v < min_secret_classes)
      ↔ ((r s : ℕ) → In r v → In s v → class_of u r ≡ class_of u s)
secret_classes-lt-two u [] = (λ h r s i j. absurd i, λ h. one_class u other [] (λ r i. absurd i))
secret_classes-lt-two u (r ∷ rs) = (
  λ h x y i j. two_classes u (r ∷ rs) x y i j h,
  λ h. one_class u (class_of u r) (r ∷ rs) (λ x i. h x r i (inl refl)),
)
