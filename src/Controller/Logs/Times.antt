-- ===== src/Controller/Logs/Times.antt =====
-- The times of rotated logs in their order: that they ascend, and how many stand before a place.
use ovcp.Base.{
  ℕ, zero, suc, ◌+◌, ◌-◌, ◌≤◌, ◌≡◌, refl, sym, ap, subst, ◌∙◌, ◌⊎◌, inl, inr, Bool, true, not, List,
  [], ◌∷◌, ◌++◌, arith, leb, Bool-cases, if-intro, length, length-keep-le, keep-append, take, drop,
  keep, In, any, All, Text, Map,
}
use ovcp.Controller.Logs.{sort_times, insert_time, times_of}
use ovcp.Controller.Logs.Rotated.{is_time}

abbrev Sorted : List ℕ → Type 0
Sorted [] = Unit
Sorted (t ∷ ts) = All (λ u. t ≤ u) ts × Sorted ts

All-le : (t u : ℕ) (ts : List ℕ) → t ≤ u → All (λ v. u ≤ v) ts → All (λ v. t ≤ v) ts
All-le t u [] q h = tt
All-le t u (v ∷ vs) q (a, b) = (omega arith, All-le t u vs q b)

insert-All :
    (m t : ℕ) (ts : List ℕ) → m ≤ t → All (λ v. m ≤ v) ts → All (λ v. m ≤ v) (insert_time t ts)
unfolding insert_time
insert-All m t [] q h = (q, tt)
insert-All m t (x ∷ xs) q (a, b) =
    if-intro (All (λ v. m ≤ v)) (leb t x) (t ∷ x ∷ xs) (x ∷ insert_time t xs) (q, (a, b))
      (a, insert-All m t xs q b)

insert-Sorted : (t : ℕ) (ts : List ℕ) → Sorted ts → Sorted (insert_time t ts)
unfolding insert_time
insert-Sorted t [] h = (tt, tt)
insert-Sorted t (x ∷ xs) (a, b) = elim (Bool-cases (leb t x)) [
  | inl c ↦ let q : t ≤ x = ground arith in rw c ((q, All-le t x xs q a), (a, b))
  | inr c ↦ let q : x ≤ t = ground arith in rw c (insert-All x t xs q a, insert-Sorted t xs b)
]

pub sort-Sorted : (ts : List ℕ) → Sorted (sort_times ts)
unfolding sort_times
sort-Sorted [] = tt
sort-Sorted (t ∷ ts) = insert-Sorted t (sort_times ts) (sort-Sorted ts)

drop-All : (P : ℕ → Type 0) (n : ℕ) (ts : List ℕ) → All P ts → All P (drop n ts)
drop-All P zero ts h = h
drop-All P (suc n) [] h = tt
drop-All P (suc n) (t ∷ ts) (a, b) = drop-All P n ts b

pub take-before :
    (n : ℕ) (ts : List ℕ) → Sorted ts → All (λ o. All (λ k. o ≤ k) (drop n ts)) (take n ts)
take-before zero ts h = tt
take-before (suc n) [] h = tt
take-before (suc n) (t ∷ ts) (a, b) = (drop-All (λ k. t ≤ k) n ts a, take-before n ts b)

length-drop_nat : (n : ℕ) (ts : List ℕ) → length (drop n ts) ≡ length ts - n
length-drop_nat zero ts = omega arith
length-drop_nat (suc n) [] = omega arith
length-drop_nat (suc n) (t ∷ ts) = let q = length-drop_nat n ts in omega arith

-- How many times pass a test does not depend on their order.
keep-insert_time :
    (p : ℕ → Bool) (t : ℕ) (ts : List ℕ)
    → length (keep p (insert_time t ts)) ≡ length (keep p (t ∷ ts))
unfolding insert_time keep
keep-insert_time p t [] = refl
keep-insert_time p t (x ∷ xs) = let q = keep-insert_time p t xs in ground (arith, q)

keep-sort_times :
    (p : ℕ → Bool) (ts : List ℕ) → length (keep p (sort_times ts)) ≡ length (keep p ts)
unfolding sort_times keep
keep-sort_times p [] = refl
keep-sort_times p (t ∷ ts) =
    let q = keep-sort_times p ts in
    let r = keep-insert_time p t (sort_times ts) in ground (arith, q, r)

length-insert_time : (t : ℕ) (ts : List ℕ) → length (insert_time t ts) ≡ length ts + 1
unfolding insert_time
length-insert_time t [] = omega arith
length-insert_time t (x ∷ xs) = let q = length-insert_time t xs in ground (arith, q)

pub length-sort_times : (ts : List ℕ) → length (sort_times ts) ≡ length ts
unfolding sort_times
length-sort_times [] = refl
length-sort_times (t ∷ ts) =
    let q = length-sort_times ts in let r = length-insert_time t (sort_times ts) in omega arith

pub length-times_of : (m : Map ℕ Text) → length (times_of m) ≡ length m
length-times_of [] = refl
length-times_of (e ∷ m) = let q = length-times_of m in omega arith

pub length-take_nat : (n : ℕ) (ts : List ℕ) → n ≤ length ts → length (take n ts) ≡ n
length-take_nat zero ts h = refl
length-take_nat (suc n) [] h = omega arith
length-take_nat (suc n) (t ∷ ts) h = let q = length-take_nat n ts (omega arith) in omega arith

insert-In : (u t : ℕ) (ts : List ℕ) → (t ≡ u) ⊎ In u ts → In u (insert_time t ts)
unfolding insert_time
insert-In u t [] i = i
insert-In u t (x ∷ xs) i = elim (Bool-cases (leb t x)) [
  | inl b ↦ rw b i
  | inr b ↦ let q = insert-In u t xs in rw b (ground (arith, q))
]

pub sort-In : (u : ℕ) (ts : List ℕ) → In u ts → In u (sort_times ts)
unfolding sort_times
sort-In u [] i = absurd i
sort-In u (t ∷ ts) (inl e) = insert-In u t (sort_times ts) (inl e)
sort-In u (t ∷ ts) (inr i) = insert-In u t (sort_times ts) (inr (sort-In u ts i))

take-drop : (n : ℕ) (ts : List ℕ) → take n ts ++ drop n ts ≡ ts
take-drop zero ts = refl
take-drop (suc n) [] = refl
take-drop (suc n) (t ∷ ts) = ap (λ k. t ∷ k) (take-drop n ts)

pub In-parts : (u n : ℕ) (ts : List ℕ) → In u ts → In u (take n ts) ⊎ In u (drop n ts)
In-parts u zero ts i = inr i
In-parts u (suc n) [] i = absurd i
In-parts u (suc n) (t ∷ ts) (inl e) = inl (inl e)
In-parts u (suc n) (t ∷ ts) (inr i) = elim (In-parts u n ts i) [
  | inl j ↦ inl (inr j)
  | inr j ↦ inr j
]

pub is_time-In : (t : ℕ) (ts : List ℕ) → is_time t ts ≡ true → In t ts
unfolding any
is_time-In t [] h = absurd (ground arith)
is_time-In t (x ∷ xs) h = let q = is_time-In t xs in ground (arith, q)

pub In-is_time : (t : ℕ) (ts : List ℕ) → In t ts → is_time t ts ≡ true
unfolding any
In-is_time t [] i = absurd i
In-is_time t (x ∷ xs) (inl e) = ground arith
In-is_time t (x ∷ xs) (inr i) = let q = In-is_time t xs i in ground arith

pub All-In : (P : ℕ → Type 0) (ts : List ℕ) (t : ℕ) → All P ts → In t ts → P t
All-In P [] t h i = absurd i
All-In P (x ∷ xs) t (a, b) (inl e) = subst P e a
All-In P (x ∷ xs) t (a, b) (inr i) = All-In P xs t b i

abbrev pub is_left : List ℕ → ℕ → Bool
is_left old t = not (is_time t old)

left-none :
    (old ts : List ℕ) → ((t : ℕ) → In t ts → is_time t old ≡ true) → keep (is_left old) ts ≡ []
unfolding keep
left-none old [] h = refl
left-none old (t ∷ ts) h =
    let a = h t (inl refl) in let q = left-none old ts (λ u i. h u (inr i)) in rw a q

-- Of the times, those that are not among the first `n` of their order are at most the others.
pub left-le :
    (n : ℕ) (ts : List ℕ) → length (keep (is_left (take n (sort_times ts))) ts) ≤ length ts - n
left-le n ts =
    let times = sort_times ts in
    let old = take n times in
    let same : keep (is_left old) times ≡ keep (is_left old) (drop n times) =
      ap (keep (is_left old)) (sym (take-drop n times))
      ∙ keep-append (is_left old) old (drop n times)
      ∙ ap (λ k. k ++ keep (is_left old) (drop n times))
          (left-none old old (λ t i. In-is_time t old i)) in
    let a = keep-sort_times (is_left old) ts in
    let b = ap (λ k. length k) same in
    let c = length-keep-le (is_left old) (drop n times) in
    let d = length-drop_nat n times in let e = length-sort_times ts in omega arith
