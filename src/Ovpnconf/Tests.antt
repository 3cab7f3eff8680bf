-- ===== src/Ovpnconf/Tests.antt =====
-- A diff of two texts that share a line.
use ovcp.Base.{split_on, split, ◌≡◌, refl, ◌↔◌, [], ◌∷◌, Text, codes, text_discrete}
use ovcp.Ovpnconf.Script.{Edits, diff-Edits}
use ovcp.Ovpnconf.Diff.{
  diff, lines, diff-lines, diff_lines, walk, cell, table, row_of, last_row, trim_right,
}

abbrev old_text : Text
old_text = b'a' ∷ 10 ∷ b'b' ∷ 10 ∷ []

abbrev new_text : Text
new_text = b'b' ∷ 10 ∷ b'c' ∷ []

old_new : diff old_text new_text ≡ codes "-a" ∷ codes "+c" ∷ []
unfolding diff lines diff_lines walk cell table row_of last_row trim_right split split_on
    text_discrete
old_new = refl

diff-lines_case : (diff old_text new_text ≡ []) ↔ (lines old_text ≡ lines new_text)
diff-lines_case = diff-lines old_text new_text

diff-Edits_example : Edits (lines old_text) (lines new_text) (diff old_text new_text)
diff-Edits_example = diff-Edits old_text new_text
