-- ===== src/Telegram/Pieces.antt =====
-- That the pieces of a message fit and make up the text.
use ovcp.Base.{
  ℕ, zero, suc, ◌+◌, ◌≤◌, ◌<◌, ◌≡◌, refl, sym, ap, subst, ◌∙◌, ◌⊎◌, inl, inr, true, false, ◌||◌,
  Option, none, some, List, [], ◌∷◌, ◌++◌, arith, ℕ_discrete, ltb, ◌==◌, if◌then◌else◌, ltb→lt,
  Bool-cases, if-intro, Option-cases, length, take, drop, All, Text,
}
use ovcp.Telegram.Messages.{
  max_message, last_line_end, byte_at, rune_start, back_to_rune, cut_or, cut_at, without_end,
  pieces, send_message,
}

-- UTF-8: of four bytes in a row one starts a rune.
abbrev pub HasRunes : Text → Type 0
HasRunes s =
    (i : ℕ)
    → (rune_start (byte_at i s)
        || rune_start (byte_at (suc i) s)
        || rune_start (byte_at (suc (suc i)) s)
        || rune_start (byte_at (suc (suc (suc i))) s))
      ≡ true

byte_at-drop : (n i k : ℕ) (s : Text) → k ≡ n + i → byte_at i (drop n s) ≡ byte_at k s
unfolding byte_at
byte_at-drop zero i k s h = ap (λ j. byte_at j s) (let e : i ≡ k = omega arith in e)
byte_at-drop (suc n) i zero s h = absurd (omega arith)
byte_at-drop (suc n) i (suc k) [] h = refl
byte_at-drop (suc n) i (suc k) (c ∷ cs) h = byte_at-drop n i k cs (omega arith)

HasRunes-drop : (n : ℕ) (s : Text) → HasRunes s → HasRunes (drop n s)
HasRunes-drop n s h i = ground (
  arith,
  byte_at-drop n i (n + i) s refl,
  byte_at-drop n (suc i) (suc (n + i)) s (omega arith),
  byte_at-drop n (suc (suc i)) (suc (suc (n + i))) s (omega arith),
  byte_at-drop n (suc (suc (suc i))) (suc (suc (suc (n + i)))) s (omega arith),
  h (n + i),
)

HasRunes-without_end : (s : Text) → HasRunes s → HasRunes (without_end s)
HasRunes-without_end [] h = h
HasRunes-without_end (c ∷ cs) h =
    if-intro HasRunes (c == 10) cs (c ∷ cs) (HasRunes-drop 1 (c ∷ cs) h) h

last_line_end-lt : (n i : ℕ) (s : Text) → last_line_end n s ≡ some i → i < n
unfolding last_line_end
last_line_end-lt zero i s h = absurd (ground arith)
last_line_end-lt (suc n) i [] h = absurd (ground arith)
last_line_end-lt (suc n) i (c ∷ cs) h = elim (Option-cases (last_line_end n cs)) [
  | inl e ↦ ground arith
  | inr (j, e) ↦ let q = last_line_end-lt n j cs e in ground arith
]

back_to_rune-le : (n : ℕ) (s : Text) → back_to_rune n s ≤ n
unfolding back_to_rune
back_to_rune-le zero s = omega arith
back_to_rune-le (suc n) s =
    if-intro (λ k. k ≤ suc n) (rune_start (byte_at (suc n) s)) (suc n) (back_to_rune n s)
      (omega arith) (let q = back_to_rune-le n s in omega arith)

-- Where the place is found to be 0, no byte before starts a rune.
back_to_rune-zero :
    (n i : ℕ) (s : Text) → back_to_rune n s ≡ 0 → 0 < i → i ≤ n → rune_start (byte_at i s) ≡ false
unfolding back_to_rune
back_to_rune-zero zero i s h p q = absurd (omega arith)
back_to_rune-zero (suc n) i s h p q = elim (Bool-cases (rune_start (byte_at (suc n) s))) [
  | inl b ↦ absurd (ground arith)
  | inr b ↦ elim (ℕ_discrete i (suc n)) [
    | yes e ↦ subst (λ k. rune_start (byte_at k s) ≡ false) (sym e) b
    | no d ↦ back_to_rune-zero n i s (ground arith) p (omega arith)
  ]
]

runes-back : (limit : ℕ) (s : Text) → HasRunes s → 4 ≤ limit → 0 < back_to_rune limit s
runes-back limit s h q = elim (ℕ_discrete (back_to_rune limit s) 0) [
  | yes e ↦
      let a = back_to_rune-zero limit 1 s e (omega arith) (omega arith) in
      let b = back_to_rune-zero limit 2 s e (omega arith) (omega arith) in
      let c = back_to_rune-zero limit 3 s e (omega arith) (omega arith) in
      let d = back_to_rune-zero limit 4 s e (omega arith) (omega arith) in
      let one = h 1 in absurd (ground arith)
  | no n ↦ omega arith
]

cut_or-bounds :
    (limit : ℕ) (o : Option ℕ) (other : ℕ)
    → ((i : ℕ) → o ≡ some i → i < limit)
    → 0 < other
    → other ≤ limit
    → (0 < cut_or o other) × (cut_or o other ≤ limit)
cut_or-bounds limit none other h p q = (p, q)
cut_or-bounds limit (some zero) other h p q = (p, q)
cut_or-bounds limit (some (suc i)) other h p q =
    let k = h (suc i) refl in (omega arith, omega arith)

cut_at-bounds :
    (limit : ℕ) (s : Text)
    → HasRunes s
    → 4 ≤ limit
    → (0 < cut_at limit s) × (cut_at limit s ≤ limit)
unfolding cut_at
cut_at-bounds limit s h q =
    cut_or-bounds limit (last_line_end limit s) (back_to_rune limit s)
      (λ i e. last_line_end-lt limit i s e) (runes-back limit s h q) (back_to_rune-le limit s)

length-take : (n : ℕ) (s : Text) → length (take n s) ≤ n
length-take zero s = omega arith
length-take (suc n) [] = omega arith
length-take (suc n) (c ∷ cs) = let q = length-take n cs in omega arith

take-drop : (n : ℕ) (s : Text) → s ≡ take n s ++ drop n s
take-drop zero s = refl
take-drop (suc n) [] = refl
take-drop (suc n) (c ∷ cs) = ap (λ t. c ∷ t) (take-drop n cs)

drop-le : (n : ℕ) (s : Text) → length (drop n s) ≤ length s
drop-le zero s = omega arith
drop-le (suc n) [] = omega arith
drop-le (suc n) (c ∷ cs) = let q = drop-le n cs in omega arith

length-drop : (n : ℕ) (s : Text) → 0 < n → 0 < length s → length (drop n s) < length s
length-drop zero s p q = absurd (omega arith)
length-drop (suc n) [] p q = absurd (omega arith)
length-drop (suc n) (c ∷ cs) p q = let h = drop-le n cs in omega arith

without_end-le : (s : Text) → length (without_end s) ≤ length s
without_end-le [] = omega arith
without_end-le (c ∷ cs) =
    if-intro (λ t. length t ≤ length (c ∷ cs)) (c == 10) cs (c ∷ cs) (omega arith) (omega arith)

-- The text is the pieces, one after the other, with at most one line end between two of them.
abbrev pub Joins : List Text → Text → Type 0
Joins [] s = ⊥
Joins (p ∷ []) s = p ≡ s
Joins (p ∷ q ∷ ps) s =
    (rest : Text) × ((s ≡ p ++ rest) ⊎ (s ≡ p ++ (10 ∷ rest))) × Joins (q ∷ ps) rest

without_end-cases : (s : Text) → (s ≡ without_end s) ⊎ (s ≡ 10 ∷ without_end s)
without_end-cases [] = inl refl
without_end-cases (c ∷ cs) = elim (ℕ_discrete c 10) [
  | yes e ↦ inr (ground arith)
  | no n ↦ inl (ground arith)
]

abbrev Pieces : ℕ → Text → List Text → Type 0
Pieces limit s ps = All (λ p. length p ≤ limit) ps × Joins ps s

cons-Pieces :
    (limit n : ℕ) (s rest : Text) (ps : List Text)
    → n ≤ limit
    → (drop n s ≡ rest) ⊎ (drop n s ≡ 10 ∷ rest)
    → Pieces limit rest ps
    → Pieces limit s (take n s ∷ ps)
cons-Pieces limit n s rest [] q e (a, j) = absurd j
cons-Pieces limit n s rest (p ∷ ps) q e (a, j) =
    let short = length-take n s in
    (
      (omega arith, a),
      (
        rest,
        elim e [
          | inl k ↦ inl (take-drop n s ∙ ap (λ t. take n s ++ t) k)
          | inr k ↦ inr (take-drop n s ∙ ap (λ t. take n s ++ t) k)
        ],
        j,
      ),
    )

short-text : (limit : ℕ) (s : Text) → ltb limit (length s) ≡ false → length s ≤ limit
short-text limit s b = ground arith

pieces-Pieces :
    (limit n : ℕ) (s : Text)
    → 4 ≤ limit
    → HasRunes s
    → length s ≤ n
    → Pieces limit s (pieces limit n s)
unfolding pieces
pieces-Pieces limit zero s q h k = ((omega arith, tt), refl)
pieces-Pieces limit (suc n) s q h k = elim (Bool-cases (ltb limit (length s))) [
  | inl b ↦
      let (low, high) = cut_at-bounds limit s h q in
      let more = ltb→lt limit (length s) b in
      let less = length-drop (cut_at limit s) s low (omega arith) in
      let rest = without_end (drop (cut_at limit s) s) in
      let shorter = without_end-le (drop (cut_at limit s) s) in
      let later =
        pieces-Pieces limit n rest q
          (HasRunes-without_end (drop (cut_at limit s) s) (HasRunes-drop (cut_at limit s) s h))
          (omega arith) in
      subst
        (λ t. Pieces limit s (if t then take (cut_at limit s) s ∷ pieces limit n rest else s ∷ []))
        (sym b)
        (cons-Pieces limit (cut_at limit s) s rest (pieces limit n rest) high
          (without_end-cases (drop (cut_at limit s) s)) later)
  | inr b ↦
      subst
        (λ t. Pieces limit s (
          if t
          then take (cut_at limit s) s ∷ pieces limit n (without_end (drop (cut_at limit s) s))
          else s ∷ []))
        (sym b) ((short-text limit s b, tt), refl)
]

-- The splitting of a text in UTF-8 ends, every piece has at most 4096 bytes, and the pieces make up the
-- text, with at most one line end left out between two.
pub send_message-Joins :
    (s : Text)
    → HasRunes s
    → All (λ p. length p ≤ max_message) (send_message s) × Joins (send_message s) s
unfolding send_message
send_message-Joins s h = pieces-Pieces max_message (length s) s (omega arith) h (omega arith)
