-- ===== src/Ovpnconf/Directives.antt =====
-- That the text which `Render` appends has no directive that `Validate` has not seen: it is the text that
-- was validated, without the white space around it.
use ovcp.Base.{
  split_on, ℕ, ◌≡◌, refl, sym, ap, subst, ◌∙◌, inl, inr, true, false, ◌&&◌, List, [], ◌∷◌, arith,
  ℕ_discrete, ◌==◌, Bool-cases, All, Text, is_empty, ok, trim_space, trim_right_space,
  trim_left_space, is_space, split,
}
use ovcp.Ovpnconf.Server.{take_word, first_field, field_allowed, validate_extra}

-- Every line passes.
abbrev pub LinesAllowed : List Text → Type 0
LinesAllowed = All (λ l. field_allowed (first_field l) ≡ true)

pub validate_extra-LinesAllowed : (ls : List Text) → validate_extra ls ≡ ok tt → LinesAllowed ls
unfolding validate_extra
validate_extra-LinesAllowed [] h = tt
validate_extra-LinesAllowed (l ∷ ls) h = elim (Bool-cases (field_allowed (first_field l))) [
  | inl good ↦ (good, validate_extra-LinesAllowed ls (ground arith))
  | inr bad ↦ absurd (ground arith)
]

-- The first line and the others.
abbrev PieceAllowed : Text × List Text → Type 0
PieceAllowed (p, ps) = (field_allowed (first_field p) ≡ true) × LinesAllowed ps

first_field-space : (c : ℕ) (s : Text) → is_space c ≡ true → first_field (c ∷ s) ≡ first_field s
unfolding first_field trim_left_space
first_field-space c s h = ground arith

-- What stands before the first line's end, and what after it.
split_on-end : (s : Text) → split_on 10 (10 ∷ s) ≡ ([], split 10 s)
unfolding split_on split
split_on-end s = refl

split_on-other :
    (c : ℕ) (s : Text)
    → (c == 10) ≡ false
    → split_on 10 (c ∷ s) ≡ (c ∷ (split_on 10 s).0, (split_on 10 s).1)
unfolding split_on
split_on-other c s h = ground arith

drop-space :
    (c : ℕ) (s : Text)
    → is_space c ≡ true
    → PieceAllowed (split_on 10 (c ∷ s))
    → PieceAllowed (split_on 10 s)
unfolding split
drop-space c s h p = elim (ℕ_discrete c 10) [
  | yes e ↦
      let q : PieceAllowed (split_on 10 (10 ∷ s)) =
        subst (λ k. PieceAllowed (split_on 10 (k ∷ s))) e p in
      (subst PieceAllowed (split_on-end s) q).1
  | no n ↦
      let q = subst PieceAllowed (split_on-other c s (ground arith)) p in
      (subst (λ f. field_allowed f ≡ true) (first_field-space c (split_on 10 s).0 h) q.0, q.1)
]

trim_left-allowed :
    (s : Text) → PieceAllowed (split_on 10 s) → PieceAllowed (split_on 10 (trim_left_space s))
unfolding trim_left_space
trim_left-allowed [] p = p
trim_left-allowed (c ∷ s) p = elim (Bool-cases (is_space c)) [
  | inl b ↦ rw b (trim_left-allowed s (drop-space c s b p))
  | inr b ↦ rw b p
]

-- What trimming the right end of `s` to `t` keeps of the first line: its words, and that the others pass.
abbrev Like : Text → Text → Type 0
Like t s =
    (take_word (split_on 10 t).0 ≡ take_word (split_on 10 s).0)
    × (first_field (split_on 10 t).0 ≡ first_field (split_on 10 s).0)
    × (LinesAllowed (split_on 10 s).1 → LinesAllowed (split_on 10 t).1)

field-nil : first_field [] ≡ []
unfolding first_field trim_left_space take_word
field-nil = refl

word-space : (c : ℕ) (s : Text) → is_space c ≡ true → take_word (c ∷ s) ≡ []
unfolding take_word
word-space c s h = ground arith

word-other : (c : ℕ) (s : Text) → is_space c ≡ false → take_word (c ∷ s) ≡ c ∷ take_word s
unfolding take_word
word-other c s h = ground arith

field-other : (c : ℕ) (s : Text) → is_space c ≡ false → first_field (c ∷ s) ≡ c ∷ take_word s
unfolding first_field trim_left_space
field-other c s h = rw h (word-other c s h)

all-trimmed :
    (c : ℕ) (s : Text) → is_space c ≡ true → trim_right_space s ≡ [] → trim_right_space (c ∷ s) ≡ []
unfolding trim_right_space
all-trimmed c s h e = ground arith

not-trimmed :
    (c : ℕ) (s : Text)
    → (is_space c && is_empty (trim_right_space s)) ≡ false
    → trim_right_space (c ∷ s) ≡ c ∷ trim_right_space s
unfolding trim_right_space
not-trimmed c s h = ground arith

end-Like : (t s : Text) → Like t s → Like (10 ∷ t) (10 ∷ s)
unfolding split split_on
end-Like t s (w, f, l) = (refl, refl, λ a. (subst (λ k. field_allowed k ≡ true) (sym f) a.0, l a.1))

cons-word : (c : ℕ) (t s : Text) → take_word t ≡ take_word s → take_word (c ∷ t) ≡ take_word (c ∷ s)
unfolding take_word
cons-word c t s w = ground arith

cons-field :
    (c : ℕ) (t s : Text)
    → take_word t ≡ take_word s
    → first_field t ≡ first_field s
    → first_field (c ∷ t) ≡ first_field (c ∷ s)
cons-field c t s w f = elim (Bool-cases (is_space c)) [
  | inl b ↦ first_field-space c t b ∙ f ∙ sym (first_field-space c s b)
  | inr b ↦ field-other c t b ∙ ap (λ k. c ∷ k) w ∙ sym (field-other c s b)
]

-- A byte that is no line end, at the front of both.
cons-Like : (c : ℕ) (t s : Text) → (c == 10) ≡ false → Like t s → Like (c ∷ t) (c ∷ s)
cons-Like c t s n (w, f, l) =
    let there = split_on-other c t n in
    let here = split_on-other c s n in
    (
      ap (λ p. take_word p.0) there
          ∙ cons-word c (split_on 10 t).0 (split_on 10 s).0 w
          ∙ ap (λ p. take_word p.0) (sym here),
      ap (λ p. first_field p.0) there
          ∙ cons-field c (split_on 10 t).0 (split_on 10 s).0 w f
          ∙ ap (λ p. first_field p.0) (sym here),
      λ a. subst (λ p. LinesAllowed p.1) (sym there) (l (subst (λ p. LinesAllowed p.1) here a)),
    )

-- White space that goes.
gone-Like : (c : ℕ) (s : Text) → is_space c ≡ true → Like [] s → Like [] (c ∷ s)
unfolding split_on split take_word first_field trim_left_space
gone-Like c s b (w, f, l) = elim (ℕ_discrete c 10) [
  | yes e ↦ subst (λ k. Like [] (k ∷ s)) (sym e) (refl, refl, λ a. tt)
  | no n ↦
      let here = split_on-other c s (ground arith) in
      (
        sym (ap (λ p. take_word p.0) here ∙ word-space c (split_on 10 s).0 b),
        sym (ap (λ p. first_field p.0) here ∙ first_field-space c (split_on 10 s).0 b ∙ sym f),
        λ a. tt,
      )
]

kept-Like : (c : ℕ) (t s : Text) → Like t s → Like (c ∷ t) (c ∷ s)
kept-Like c t s h = elim (ℕ_discrete c 10) [
  | yes e ↦ subst (λ k. Like (k ∷ t) (k ∷ s)) (sym e) (end-Like t s h)
  | no n ↦ cons-Like c t s (ground arith) h
]

trim_right-Like : (s : Text) → Like (trim_right_space s) s
unfolding trim_right_space
trim_right-Like [] = (refl, refl, λ a. a)
trim_right-Like (c ∷ s) = elim (Bool-cases (is_space c && is_empty (trim_right_space s))) [
  | inl b ↦
      let whites : is_space c ≡ true = ground arith in
      let e : trim_right_space s ≡ [] = ground arith in
      subst (λ t. Like t (c ∷ s)) (sym (all-trimmed c s whites e))
        (gone-Like c s whites (subst (λ t. Like t s) e (trim_right-Like s)))
  | inr b ↦
      subst (λ t. Like t (c ∷ s)) (sym (not-trimmed c s b))
        (kept-Like c (trim_right_space s) s (trim_right-Like s))
]

trim_right-allowed :
    (s : Text) → PieceAllowed (split_on 10 s) → PieceAllowed (split_on 10 (trim_right_space s))
trim_right-allowed s p =
    let (w, f, l) = trim_right-Like s in (subst (λ k. field_allowed k ≡ true) (sym f) p.0, l p.1)

-- Where `Validate` lets the directives of a text pass, each line of the text without the white space
-- around it, which is what `Render` writes, is empty, a comment, or an allowed directive.
pub trim_space-LinesAllowed :
    (extra : Text)
    → validate_extra (split 10 extra) ≡ ok tt
    → LinesAllowed (split 10 (trim_space extra))
unfolding split trim_space
trim_space-LinesAllowed extra h =
    trim_right-allowed (trim_left_space extra)
      (trim_left-allowed extra (validate_extra-LinesAllowed (split 10 extra) h))
