-- ===== src/Ovpnconf/Diff.antt =====
-- internal/ovpnconf/config.go, `Diff`: the table of longest common subsequences, filled from its last row
-- and column, and the walk from its first cell. The walk's fuel is the number of lines of both texts, of
-- which every round takes one or two.
use ovcp.Base.{
  split, ℕ, zero, suc, ◌+◌, max, ◌≤◌, ◌≡◌, refl, subst, ◌↔◌, true, false, ◌&&◌, List, [], ◌∷◌,
  arith, leb, ◌==◌, if◌then◌else◌, length, drop, Text, text_discrete, text_eq, is_empty,
}

abbrev pub newline : ℕ
newline = 10

-- strings.TrimRight(s, "\n")
unfoldable pub trim_right : Text → Text
trim_right [] = []
trim_right (c ∷ cs) =
    let rest = trim_right cs in if (c == newline) && is_empty rest then [] else c ∷ rest

unfoldable pub lines : Text → List Text
unfolding trim_right split
lines s = split newline (trim_right s)

abbrev pub first : List ℕ → ℕ
first [] = 0
first (n ∷ ns) = n

abbrev pub rest_of : List ℕ → List ℕ
rest_of [] = []
rest_of (n ∷ ns) = ns

-- The row of `x`, from the row below it.
unfoldable pub row_of : Text → List Text → List ℕ → List ℕ
row_of x [] below = 0 ∷ []
row_of x (y ∷ ys) below =
    let right = row_of x ys (rest_of below) in
    (if text_eq x y then first (rest_of below) + 1 else max (first below) (first right)) ∷ right

unfoldable pub last_row : List Text → List ℕ
last_row [] = 0 ∷ []
last_row (y ∷ ys) = 0 ∷ last_row ys

abbrev pub top : List (List ℕ) → List ℕ
top [] = []
top (r ∷ rs) = r

unfoldable pub table : List Text → List Text → List (List ℕ)
unfolding row_of last_row
table [] b = last_row b ∷ []
table (x ∷ xs) b = let below = table xs b in row_of x b (top below) ∷ below

-- lcs[i][j]
unfoldable pub cell : List (List ℕ) → ℕ → ℕ → ℕ
cell t i j = first (drop j (top (drop i t)))

-- The loop, on the lines of both texts from `i` and from `j` on.
unfoldable pub walk : ℕ → List (List ℕ) → List Text → List Text → ℕ → ℕ → List Text
unfolding cell
walk zero t a b i j = []
walk (suc n) t [] [] i j = []
walk (suc n) t (x ∷ xs) [] i j = (b'-' ∷ x) ∷ walk n t xs [] (i + 1) j
walk (suc n) t [] (y ∷ ys) i j = (b'+' ∷ y) ∷ walk n t [] ys i (j + 1)
walk (suc n) t (x ∷ xs) (y ∷ ys) i j = elim (text_eq x y) [
  | true ↦ walk n t xs ys (i + 1) (j + 1)
  | false ↦ elim (leb (cell t i (j + 1)) (cell t (i + 1) j)) [
    | true ↦ (b'-' ∷ x) ∷ walk n t xs (y ∷ ys) (i + 1) j
    | false ↦ (b'+' ∷ y) ∷ walk n t (x ∷ xs) ys i (j + 1)
  ]
]

unfoldable pub diff_lines : List Text → List Text → List Text
unfolding walk table
diff_lines a b = walk (length a + length b) (table a b) a b 0 0

unfoldable pub diff : Text → Text → List Text
unfolding diff_lines lines
diff old new = diff_lines (lines old) (lines new)

walk-nil :
    (n : ℕ) (t : List (List ℕ)) (a b : List Text) (i j : ℕ)
    → length a + length b ≤ n
    → walk n t a b i j ≡ []
    → a ≡ b
unfolding walk
walk-nil zero t [] [] i j l e = refl
walk-nil zero t (x ∷ xs) b i j l e = absurd (omega arith)
walk-nil zero t [] (y ∷ ys) i j l e = absurd (omega arith)
walk-nil (suc n) t [] [] i j l e = refl
walk-nil (suc n) t (x ∷ xs) [] i j l e = cc
walk-nil (suc n) t [] (y ∷ ys) i j l e = cc
walk-nil (suc n) t (x ∷ xs) (y ∷ ys) i j l e = elim (text_discrete x y) [
  | yes same ↦ let later = walk-nil n t xs ys (i + 1) (j + 1) (omega arith) (ground arith) in cc
  | no other ↦ absurd (ground arith)
]

walk-same : (n : ℕ) (t : List (List ℕ)) (a : List Text) (i j : ℕ) → walk n t a a i j ≡ []
unfolding walk
walk-same zero t a i j = refl
walk-same (suc n) t [] i j = refl
walk-same (suc n) t (x ∷ xs) i j = ground (arith, walk-same n t xs (i + 1) (j + 1))

diff_lines-same : (a : List Text) → diff_lines a a ≡ []
unfolding diff_lines
diff_lines-same a = walk-same (length a + length a) (table a a) a 0 0

-- The diff is empty exactly when the two texts have the same lines, newlines at the end left aside.
pub diff-lines : (old new : Text) → (diff old new ≡ []) ↔ (lines old ≡ lines new)
unfolding diff diff_lines
diff-lines old new = (
  λ e.
      walk-nil (length (lines old) + length (lines new)) (table (lines old) (lines new)) (lines old)
        (lines new) 0 0 (omega arith) e,
  λ e. subst (λ b. diff_lines (lines old) b ≡ []) e (diff_lines-same (lines old)),
)
