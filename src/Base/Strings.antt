-- ===== src/Base/Strings.antt =====
-- The functions of Go's strings and strconv packages that the program calls, on bytes. White space is
-- that of ASCII.
use Prim.Native.Nat.{ℕ, ◌+◌, ◌-◌, ◌*◌, ◌^◌}
use mathlib.Core.Path.{◌≡◌, refl}
use mathlib.Core.Bool.{Bool, true, false, not, ◌&&◌, ◌||◌}
use mathlib.Core.Option.{Option, none, some}
use mathlib.Core.List.{[], List, ◌∷◌, ◌++◌}
use native.Mathlib.Omega.{arith}
use ovcp.Base.Tests.{ltb, leb, ◌==◌, within, if◌then◌else◌}
use ovcp.Base.Ints.{ℤ, pos, negate}
use ovcp.Base.Texts.{Text, is_empty}

-- strings.Split on one byte: the pieces, never none.
unfoldable pub split_on : ℕ → Text → Text × List Text
split_on sep [] = ([], [])
split_on sep (c ∷ cs) =
    let (piece, rest) = split_on sep cs in
    if c == sep then ([], piece ∷ rest) else (c ∷ piece, rest)

unfoldable pub split : ℕ → Text → List Text
unfolding split_on
split sep s = (split_on sep s).0 ∷ (split_on sep s).1

-- A text without the separator.
unfoldable pub lacks : ℕ → Text → Bool
lacks sep [] = true
lacks sep (c ∷ cs) = not (c == sep) && lacks sep cs

pub split_piece :
    (sep : ℕ) (p rest : Text)
    → lacks sep p ≡ true
    → split_on sep (p ++ (sep ∷ rest)) ≡ (p, split sep rest)
unfolding split lacks
split_piece sep [] rest h = ground arith
split_piece sep (c ∷ cs) rest h = ground (arith, split_piece sep cs rest)

pub split_last : (sep : ℕ) (p : Text) → lacks sep p ≡ true → split_on sep p ≡ (p, [])
unfolding split_on lacks
split_last sep [] h = refl
split_last sep (c ∷ cs) h = ground (arith, split_last sep cs)

-- strings.Join with one byte.
unfoldable pub join : ℕ → List Text → Text
join sep [] = []
join sep (p ∷ []) = p
join sep (p ∷ q ∷ ps) = p ++ (sep ∷ join sep (q ∷ ps))

unfoldable pub all_lack : ℕ → List Text → Bool
unfolding lacks
all_lack sep [] = true
all_lack sep (p ∷ ps) = lacks sep p && all_lack sep ps

-- Splitting what was joined gives the pieces back, if there are any and none has the separator.
pub split-join :
    (sep : ℕ) (p : Text) (ps : List Text)
    → all_lack sep (p ∷ ps) ≡ true
    → split sep (join sep (p ∷ ps)) ≡ p ∷ ps
unfolding split join all_lack
split-join sep p [] h = ground (arith, split_last sep p)
split-join sep p (q ∷ ps) h =
    ground (arith, split_piece sep p (join sep (q ∷ ps)), split-join sep q ps)

-- strings.CutPrefix
unfoldable pub cut_prefix : Text → Text → Option Text
cut_prefix [] s = some s
cut_prefix (p ∷ ps) [] = none
cut_prefix (p ∷ ps) (c ∷ cs) = if p == c then cut_prefix ps cs else none

pub cut_prefix-append : (p s : Text) → cut_prefix p (p ++ s) ≡ some s
unfolding cut_prefix
cut_prefix-append [] s = refl
cut_prefix-append (c ∷ p) s = ground (arith, cut_prefix-append p s)

-- strings.HasPrefix
unfoldable pub has_prefix : Text → Text → Bool
unfolding cut_prefix
has_prefix p s = elim (cut_prefix p s) [ none ↦ false | some rest ↦ true ]

-- strings.Cut on one byte: before, after, found.
unfoldable pub cut : ℕ → Text → Text × Text × Bool
cut sep [] = ([], [], false)
cut sep (c ∷ cs) =
    let (before, after, found) = cut sep cs in
    if c == sep then ([], cs, true) else (c ∷ before, after, found)

pub cut-found :
    (sep : ℕ) (p rest : Text) → lacks sep p ≡ true → cut sep (p ++ (sep ∷ rest)) ≡ (p, rest, true)
unfolding cut lacks
cut-found sep [] rest h = ground arith
cut-found sep (c ∷ p) rest h = ground (arith, cut-found sep p rest)

-- strings.TrimRight(s, "\r\n")
abbrev is_line_end : ℕ → Bool
is_line_end c = c == 10 || c == 13

unfoldable pub trim_line : Text → Text
trim_line [] = []
trim_line (c ∷ cs) =
    let rest = trim_line cs in if is_line_end c && is_empty rest then [] else c ∷ rest

unfoldable pub one_line : Text → Bool
one_line [] = true
one_line (c ∷ cs) = not (is_line_end c) && one_line cs

pub trim_line-one : (s : Text) → one_line s ≡ true → trim_line (s ++ 10 ∷ []) ≡ s
unfolding trim_line one_line
trim_line-one [] h = refl
trim_line-one (c ∷ s) h = ground (arith, trim_line-one s)

abbrev pub is_space : ℕ → Bool
is_space c = within 9 13 c || c == 32

unfoldable pub trim_right_space : Text → Text
trim_right_space [] = []
trim_right_space (c ∷ cs) =
    let rest = trim_right_space cs in if is_space c && is_empty rest then [] else c ∷ rest

unfoldable pub trim_left_space : Text → Text
trim_left_space [] = []
trim_left_space (c ∷ cs) = let rest = trim_left_space cs in if is_space c then rest else c ∷ cs

-- strings.TrimSpace
unfoldable pub trim_space : Text → Text
unfolding trim_right_space trim_left_space
trim_space s = trim_right_space (trim_left_space s)

-- The number that decimal digits write, after those before them.
unfoldable pub digits_from : ℕ → Text → Option ℕ
digits_from n [] = some n
digits_from n (c ∷ cs) = if within b'0' b'9' c then digits_from (n * 10 + (c - b'0')) cs else none

-- What strconv.ParseUint(s, 10, 64) leaves where its error is ignored: 0 for a text that is no number,
-- and the largest value for a number that is too large.
unfoldable pub parse_uint : Text → ℕ
unfolding digits_from
parse_uint s =
    if is_empty s
    then 0
    else elim (digits_from 0 s) [ none ↦ 0 | some n ↦ if ltb n (2 ^ 64) then n else 2 ^ 64 - 1 ]

-- strconv.ParseInt(s, 10, 64)
unfoldable pub parse_int : Text → Option ℤ
unfolding digits_from
parse_int [] = none
parse_int (c ∷ cs) =
    if c == b'-'
    then (if is_empty cs then none else elim (digits_from 0 cs) [
      | none ↦ none
      | some n ↦ if leb n (2 ^ 63) then some (negate n) else none
    ])
    else let ds = if c == b'+' then cs else c ∷ cs in
      if is_empty ds then none else elim (digits_from 0 ds) [
        | none ↦ none
        | some n ↦ if ltb n (2 ^ 63) then some (pos n) else none
      ]
