-- ===== src/Base/Lists.antt =====
-- Lists measured by native numbers, predicates on their members, and membership as a Boolean test.
use Prim.Native.Nat.{ℕ, zero, suc, ◌+◌, ◌≤◌}
use mathlib.Core.Path.{◌≡◌, refl, ap}
use mathlib.Core.Logic.{◌⊎◌, inl, inr}
use mathlib.Core.Bool.{Bool, true, false, ◌||◌}
use mathlib.Core.Option.{Option, none, some}
use mathlib.Core.List.{[], List, ◌∷◌, ◌++◌, map}
use native.Mathlib.Omega.{arith}
use ovcp.Base.Tests.{if◌then◌else◌}

module _ {ℓ} {A : Type ℓ} where
  abbrev pub length : List A → ℕ
  length [] = 0
  length (x ∷ xs) = suc (length xs)

  abbrev pub take : ℕ → List A → List A
  take zero xs = []
  take (suc n) [] = []
  take (suc n) (x ∷ xs) = x ∷ take n xs

  abbrev pub drop : ℕ → List A → List A
  drop zero xs = xs
  drop (suc n) [] = []
  drop (suc n) (x ∷ xs) = drop n xs

  -- What a loop keeps that appends the elements which pass a test.
  unfoldable pub keep : (A → Bool) → List A → List A
  keep p [] = []
  keep p (x ∷ xs) = if p x then x ∷ keep p xs else keep p xs

  pub length-append : (xs ys : List A) → length (xs ++ ys) ≡ length xs + length ys
  length-append [] ys = omega arith
  length-append (x ∷ xs) ys = omega (arith, length-append xs ys)

  pub take-append_length : (n : ℕ) (xs ys : List A) → length xs ≡ n → take n (xs ++ ys) ≡ xs
  take-append_length zero [] ys h = refl
  take-append_length zero (x ∷ xs) ys h = absurd (omega arith)
  take-append_length (suc n) [] ys h = absurd (omega arith)
  take-append_length (suc n) (x ∷ xs) ys h = ap (◌∷◌ x) (take-append_length n xs ys (omega arith))

  pub drop-append_length : (n : ℕ) (xs ys : List A) → length xs ≡ n → drop n (xs ++ ys) ≡ ys
  drop-append_length zero [] ys h = refl
  drop-append_length zero (x ∷ xs) ys h = absurd (omega arith)
  drop-append_length (suc n) [] ys h = absurd (omega arith)
  drop-append_length (suc n) (x ∷ xs) ys h = drop-append_length n xs ys (omega arith)

  pub length-keep-le : (p : A → Bool) (xs : List A) → length (keep p xs) ≤ length xs
  unfolding keep
  length-keep-le p [] = omega arith
  length-keep-le p (x ∷ xs) = ground (arith, length-keep-le p xs)

  pub keep-append : (p : A → Bool) (xs ys : List A) → keep p (xs ++ ys) ≡ keep p xs ++ keep p ys
  unfolding keep
  keep-append p [] ys = refl
  keep-append p (x ∷ xs) ys = ground (arith, keep-append p xs ys)

module _ {A : Type 0} where
  -- Some element passes a test.
  unfoldable pub any : (A → Bool) → List A → Bool
  any p [] = false
  any p (x ∷ xs) = p x || any p xs

  -- The first element that passes a test.
  unfoldable pub find : (A → Bool) → List A → Option A
  find p [] = none
  find p (x ∷ xs) = if p x then some x else find p xs

  pub find-holds : (p : A → Bool) (xs : List A) (x : A) → find p xs ≡ some x → p x ≡ true
  unfolding find
  find-holds p [] x h = cc
  find-holds p (y ∷ ys) x h = ground (arith, find-holds p ys x)

  pub find-any : (p : A → Bool) (xs : List A) (x : A) → find p xs ≡ some x → any p xs ≡ true
  unfolding find any
  find-any p [] x h = cc
  find-any p (y ∷ ys) x h = ground (arith, find-any p ys x)

  pub find-none : (p : A → Bool) (xs : List A) → any p xs ≡ false → find p xs ≡ none
  unfolding find any
  find-none p [] h = refl
  find-none p (y ∷ ys) h = ground (arith, find-none p ys)

  pub any-keep : (p q : A → Bool) (xs : List A) → any p xs ≡ false → any p (keep q xs) ≡ false
  unfolding any keep
  any-keep p q [] h = refl
  any-keep p q (x ∷ xs) h = ground (arith, any-keep p q xs)

  -- What an `any` refuses, no search finds.
  pub find-not :
      (p q : A → Bool) (xs : List A) (x : A) → find p xs ≡ some x → any q xs ≡ false → q x ≡ false
  unfolding find any
  find-not p q [] x h e = cc
  find-not p q (y ∷ ys) x h e = ground (arith, find-not p q ys x)

  pub find-keep : (p q : A → Bool) (xs : List A) (x : A) → find p (keep q xs) ≡ some x → q x ≡ true
  unfolding find keep
  find-keep p q [] x h = cc
  find-keep p q (y ∷ ys) x h = ground (arith, find-keep p q ys x)

  -- A search sees no difference where all that it looks for is kept.
  pub find-keep_of_imp :
      (p q : A → Bool) (xs : List A)
      → ((x : A) → p x ≡ true → q x ≡ true)
      → find p (keep q xs) ≡ find p xs
  unfolding find keep
  find-keep_of_imp p q [] h = refl
  find-keep_of_imp p q (y ∷ ys) h = ground (arith, h y, find-keep_of_imp p q ys h)

  pub find-keep-none :
      (p q : A → Bool) (xs : List A)
      → ((x : A) → p x ≡ true → q x ≡ false)
      → find p (keep q xs) ≡ none
  unfolding find keep
  find-keep-none p q [] h = refl
  find-keep-none p q (y ∷ ys) h = ground (arith, h y, find-keep-none p q ys h)

  -- No two elements agree by a test.
  abbrev pub IsDistinct : (A → A → Bool) → List A → Type 0
  IsDistinct same [] = Unit
  IsDistinct same (x ∷ xs) = (any (same x) xs ≡ false) × IsDistinct same xs

  pub IsDistinct-keep :
      (same : A → A → Bool) (q : A → Bool) (xs : List A)
      → IsDistinct same xs
      → IsDistinct same (keep q xs)
  unfolding keep
  IsDistinct-keep same q [] h = tt
  IsDistinct-keep same q (x ∷ xs) h =
      ground (arith, IsDistinct-keep same q xs h.1, any-keep (same x) q xs h.0)

module _ {A B : Type 0} where
  pub any-map :
      (p : A → Bool) (q : B → Bool) (f : A → B) (xs : List A)
      → ((x : A) → p x ≡ false → q (f x) ≡ false)
      → any p xs ≡ false
      → any q (map f xs) ≡ false
  unfolding any
  any-map p q f [] h e = refl
  any-map p q f (x ∷ xs) h e = ground (arith, h x, any-map p q f xs h)

  pub any-map-true :
      (p : A → Bool) (q : B → Bool) (f : A → B) (xs : List A)
      → ((x : A) → p x ≡ true → q (f x) ≡ true)
      → any p xs ≡ true
      → any q (map f xs) ≡ true
  unfolding any
  any-map-true p q f [] h e = cc
  any-map-true p q f (x ∷ xs) h e = ground (arith, h x, any-map-true p q f xs h)

module _ {A : Type 0} where
  -- `x` stands in the list, at a place that the proof keeps.
  abbrev pub In : A → List A → Type 0
  In x [] = ⊥
  In x (y ∷ ys) = (y ≡ x) ⊎ In x ys

  pub In-keep : (p : A → Bool) (x : A) (xs : List A) → In x xs → p x ≡ true → In x (keep p xs)
  unfolding keep
  In-keep p x [] h t = absurd h
  In-keep p x (y ∷ ys) (inl e) t = ground arith
  In-keep p x (y ∷ ys) (inr h) t = ground (arith, In-keep p x ys h t)

  pub keep-In : (p : A → Bool) (x : A) (xs : List A) → In x (keep p xs) → In x xs × (p x ≡ true)
  unfolding keep
  keep-In p x [] h = absurd h
  keep-In p x (y ∷ ys) h = ground (arith, keep-In p x ys)

module _ {ℓ κ} {A : Type ℓ} where
  abbrev pub All : (A → Type κ) → List A → Type κ
  All P [] = Unit
  All P (x ∷ xs) = P x × All P xs
