-- ===== src/Telegram/Messages.antt =====
-- internal/telegram/bot.go, `sendMessage`: a text goes out in pieces of at most 4096 bytes, cut at line
-- breaks where there are any.
use ovcp.Base.{
  ℕ, zero, suc, Bool, not, Option, none, some, List, [], ◌∷◌, ltb, ◌==◌, within, if◌then◌else◌,
  length, take, drop, Text,
}

abbrev pub max_message : ℕ
max_message = 4096

-- strings.LastIndexByte(s[:n], '\n'), from the left: nothing, or the place of the last line end.
unfoldable pub last_line_end : ℕ → Text → Option ℕ
last_line_end zero s = none
last_line_end (suc n) [] = none
last_line_end (suc n) (c ∷ cs) = elim (last_line_end n cs) [
  | some i ↦ some (suc i)
  | none ↦ if c == 10 then some 0 else none
]

-- The byte at a place; 0, which starts a rune, behind the end.
unfoldable pub byte_at : ℕ → Text → ℕ
byte_at n [] = 0
byte_at zero (c ∷ cs) = c
byte_at (suc n) (c ∷ cs) = byte_at n cs

-- utf8.RuneStart
abbrev pub rune_start : ℕ → Bool
rune_start b = not (within 128 191 b)

-- The loop down to the start of a rune; at 0 it stops, where the source would run on and panic.
unfoldable pub back_to_rune : ℕ → Text → ℕ
unfolding byte_at
back_to_rune zero s = 0
back_to_rune (suc n) s =
    let below = back_to_rune n s in if rune_start (byte_at (suc n) s) then suc n else below

abbrev pub cut_or : Option ℕ → ℕ → ℕ
cut_or (some (suc i)) other = suc i
cut_or (some zero) other = other
cut_or none other = other

-- The place of the cut, for a limit.
unfoldable pub cut_at : ℕ → Text → ℕ
unfolding last_line_end back_to_rune
cut_at limit text = cut_or (last_line_end limit text) (back_to_rune limit text)

-- strings.TrimPrefix(text, "\n")
abbrev pub without_end : Text → Text
without_end [] = []
without_end (c ∷ cs) = if c == 10 then cs else c ∷ cs

-- The pieces, with fuel for `n` cuts.
unfoldable pub pieces : ℕ → ℕ → Text → List Text
unfolding cut_at
pieces limit zero text = text ∷ []
pieces limit (suc n) text =
    let rest = pieces limit n (without_end (drop (cut_at limit text) text)) in
    if ltb limit (length text) then take (cut_at limit text) text ∷ rest else text ∷ []

-- `sendMessage`: each cut takes at least one byte.
unfoldable pub send_message : Text → List Text
unfolding pieces
send_message text = pieces max_message (length text) text
