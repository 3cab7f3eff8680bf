-- ===== src/Ovpnconf/Script.antt =====
-- That the output of `Diff` turns one text into the other.
use ovcp.Base.{
  ℕ, zero, suc, ◌+◌, ◌≤◌, subst, inl, inr, List, [], ◌∷◌, arith, leb, Bool-cases, length, Text,
  text_discrete,
}
use ovcp.Ovpnconf.Diff.{walk, cell, table, diff_lines, diff, lines}

-- The lines `out` lead from `a` to `b`: a line of both is passed over, one that starts with `-` takes the
-- next line of `a` away, and one that starts with `+` is the next line of `b`.
pub data Edits : (a b out : List Text) → Type 0 where
  done : Edits [] [] []
  same : (x : Text) {a b out : List Text} → Edits a b out → Edits (x ∷ a) (x ∷ b) out
  removed : (x : Text) {a b out : List Text} → Edits a b out → Edits (x ∷ a) b ((b'-' ∷ x) ∷ out)
  added : (y : Text) {a b out : List Text} → Edits a b out → Edits a (y ∷ b) ((b'+' ∷ y) ∷ out)

walk-Edits :
    (n : ℕ) (t : List (List ℕ)) (a b : List Text) (i j : ℕ)
    → length a + length b ≤ n
    → Edits a b (walk n t a b i j)
unfolding walk
walk-Edits zero t [] [] i j l = done
walk-Edits zero t (x ∷ xs) b i j l = absurd (omega arith)
walk-Edits zero t [] (y ∷ ys) i j l = absurd (omega arith)
walk-Edits (suc n) t [] [] i j l = done
walk-Edits (suc n) t (x ∷ xs) [] i j l = removed x (walk-Edits n t xs [] (i + 1) j (omega arith))
walk-Edits (suc n) t [] (y ∷ ys) i j l = added y (walk-Edits n t [] ys i (j + 1) (omega arith))
walk-Edits (suc n) t (x ∷ xs) (y ∷ ys) i j l = elim (text_discrete x y) [
  | yes e ↦
      subst (λ z. Edits (x ∷ xs) (z ∷ ys) (walk (suc n) t (x ∷ xs) (y ∷ ys) i j)) e
        (subst (Edits (x ∷ xs) (x ∷ ys)) (ground arith)
          (same x (walk-Edits n t xs ys (i + 1) (j + 1) (omega arith))))
  | no d ↦ elim (Bool-cases (leb (cell t i (j + 1)) (cell t (i + 1) j))) [
    | inl up ↦
        subst (Edits (x ∷ xs) (y ∷ ys)) (ground arith)
          (removed x (walk-Edits n t xs (y ∷ ys) (i + 1) j (omega arith)))
    | inr left ↦
        subst (Edits (x ∷ xs) (y ∷ ys)) (ground arith)
          (added y (walk-Edits n t (x ∷ xs) ys i (j + 1) (omega arith)))
  ]
]

-- The output of `Diff` is a script of edits that leads from the lines of the old text to those of the
-- new one, in order and to the end of both.
pub diff-Edits : (old new : Text) → Edits (lines old) (lines new) (diff old new)
unfolding diff diff_lines
diff-Edits old new =
    walk-Edits (length (lines old) + length (lines new)) (table (lines old) (lines new)) (lines old)
      (lines new) 0 0 (omega arith)
