-- ===== src/Controller/Logs/Packed.antt =====
-- How many rotated logs compression leaves as they are, and which.
use ovcp.Base.{
  ℕ, ◌-◌, ◌≤◌, ◌≡◌, refl, sym, ap, subst, ◌∙◌, inl, inr, not, Option, none, some, List, [], ◌∷◌,
  arith, ℕ_discrete, ◌==◌, if◌then◌else◌, Bool-cases, length, take, drop, keep, In, keep-In, any,
  All, Text, Map, lookup, erase,
}
use ovcp.Base.{ℤ}
use ovcp.Controller.Logs.{
  LogFiles, sort_times, times_of, kept_number, packed_as, gzip_file, gzip_all, old_times,
  compress_old,
}
use ovcp.Controller.Logs.Rotated.{at_time, packed_at, is_time, all-at}
use ovcp.Controller.Logs.Times.{
  sort-Sorted, take-before, length-sort_times, length-times_of, length-take_nat, sort-In, In-parts,
  is_time-In, In-is_time, All-In, is_left, left-le,
}

erase-times :
    (t : ℕ) (m : Map ℕ Text)
    → times_of (erase ℕ_discrete t m) ≡ keep (λ y. not (t == y)) (times_of m)
unfolding erase keep
erase-times t [] = refl
erase-times t ((j, v) ∷ m) = let q = erase-times t m in ground (arith, q)

none-times :
    (t : ℕ) (m : Map ℕ Text)
    → lookup ℕ_discrete t m ≡ none
    → times_of m ≡ keep (λ y. not (t == y)) (times_of m)
unfolding lookup keep
none-times t [] h = refl
none-times t ((j, v) ∷ m) h = let q = none-times t m in ground (arith, q)

as-times :
    (gzip : Text → Text) (t : ℕ) (s : LogFiles) (o : Option Text)
    → lookup ℕ_discrete t s.plain ≡ o
    → times_of (packed_as gzip t s o).plain ≡ keep (λ y. not (t == y)) (times_of s.plain)
as-times gzip t s none e = none-times t s.plain e
as-times gzip t s (some text) e = erase-times t s.plain

keep-both :
    (x : ℕ) (xs ts : List ℕ)
    → keep (is_left xs) (keep (λ y. not (x == y)) ts) ≡ keep (is_left (x ∷ xs)) ts
unfolding keep any
keep-both x xs [] = refl
keep-both x xs (t ∷ ts) = let q = keep-both x xs ts in ground (arith, q)

keep-all : (ts : List ℕ) → ts ≡ keep (is_left []) ts
unfolding keep any
keep-all [] = refl
keep-all (t ∷ ts) = ap (λ k. t ∷ k) (keep-all ts)

-- What is left in plain text are the times that are not in the list.
all-times :
    (gzip : Text → Text) (ts : List ℕ) (s : LogFiles)
    → times_of (gzip_all gzip ts s).plain ≡ keep (is_left ts) (times_of s.plain)
unfolding gzip_all gzip_file
all-times gzip [] s = keep-all (times_of s.plain)
all-times gzip (x ∷ xs) s =
    all-times gzip xs (gzip_file gzip x s)
    ∙ ap (keep (is_left xs)) (as-times gzip x s (lookup ℕ_discrete x s.plain) refl)
    ∙ keep-both x xs (times_of s.plain)

In-lookup : (t : ℕ) (m : Map ℕ Text) → In t (times_of m) → lookup ℕ_discrete t m ≡ none → ⊥
unfolding lookup
In-lookup t [] i h = i
In-lookup t ((j, v) ∷ m) (inl e) h = absurd (ground arith)
In-lookup t ((j, v) ∷ m) (inr i) h = let q = In-lookup t m i in ground (arith, q)

-- `compressOld` replaces each old generation by its compressed file and touches no other. Afterwards at
-- most the configured number of files is plain, no more are packed than exceed that number, and no
-- generation that was packed is newer than one that is plain still.
pub compress_old-packs :
    (gzip : Text → Text) (number : ℤ) (s : LogFiles)
    → let s2 = compress_old gzip number s in
      ((t : ℕ)
        → at_time t s2 ≡ (
            if is_time t (old_times number s.plain)
            then packed_at gzip (at_time t s)
            else at_time t s))
      × (length (old_times number s.plain) ≡ length s.plain - kept_number number)
      × (length s2.plain ≤ kept_number number)
      × ((t u : ℕ)
          → In t (times_of s.plain)
          → lookup ℕ_discrete t s2.plain ≡ none
          → In u (times_of s2.plain)
          → t ≤ u)
unfolding compress_old old_times
compress_old-packs gzip number s =
    let times = sort_times (times_of s.plain) in
    let n = length times - kept_number number in
    let old = take n times in
    let left = all-times gzip old s in
    let count = ap (λ k. length k) left in
    let few = left-le n (times_of s.plain) in
    let total = length-times_of (gzip_all gzip old s).plain in
    let sorted = length-sort_times (times_of s.plain) in
    let size = length-times_of s.plain in
    let taken = length-take_nat n times (omega arith) in
    (
      λ t. all-at gzip old t s,
      omega arith,
      omega arith,
      λ t u i gone j.
          let (k, stays) = keep-In (is_left old) u (times_of s.plain) (subst (In u) left j) in
          let before = take-before n times (sort-Sorted (times_of s.plain)) in
          elim (Bool-cases (is_time t old)) [
            | inl yes_old ↦ elim (In-parts u n times (sort-In u (times_of s.plain) k)) [
              | inl in_old ↦ let q = In-is_time u old in_old in absurd (ground arith)
              | inr after ↦
                  All-In (λ k. t ≤ k) (drop n times) u
                    (All-In (λ o. All (λ k. o ≤ k) (drop n times)) old t before
                      (is_time-In t old yes_old))
                    after
            ]
            | inr no_old ↦
                let same = all-at gzip old t s in
                let kept : at_time t (gzip_all gzip old s) ≡ at_time t s =
                  same ∙ ap (λ b. if b then packed_at gzip (at_time t s) else at_time t s) no_old in
                absurd (In-lookup t s.plain i (sym (ap (λ p. p.0) kept) ∙ gone))
          ],
    )
