-- ===== src/Ovpnconf/Rendered.antt =====
-- What the lines of a rendered configuration are.
use ovcp.Base.{
  not, ◌&&◌, Bool-cases, arith, split_piece, split_on, ◌≡◌, refl, sym, ap, subst, ◌∙◌, ◌⊎◌, inl,
  inr, Bool, true, false, not, Option, some, List, [], ◌∷◌, ◌++◌, arith, if-intro, All, Text,
  is_empty, ok, err, refuse, >>=-eq-ok, Result-cases, trim_space, trim_left_space, lacks, split,
}
use ovcp.Ovpnconf.Server.{
  take_word, Net, Config, Error, bad_proto, bad_port, bad_cipher, bad_subnet, is_some, is_proto,
  is_port, is_listed, allowed_ciphers, validate_dns, validate_routes, validate_extra, validate,
  first_field, field_allowed,
}
use ovcp.Ovpnconf.Render.{
  own_lines, custom_mark, extra_lines, write_lines, render, Files, WriteError, invalid,
  write_failed, rename_failed, installed, write_atomic,
}
use ovcp.Ovpnconf.Directives.{LinesAllowed, trim_space-LinesAllowed}
use ovcp.Ovpnconf.Unbroken.{IsLine, IsNet, OwnsLines, All-append, own-lines-lack}

split-write :
    (ls more : List Text)
    → All IsLine ls
    → split 10 (write_lines (ls ++ more)) ≡ ls ++ split 10 (write_lines more)
unfolding write_lines split
split-write [] more h = refl
split-write (l ∷ ls) more h =
    ap (λ p. p.0 ∷ p.1) (split_piece 10 l (write_lines (ls ++ more)) h.0)
    ∙ ap (λ k. l ∷ k) (split-write ls more h.1)

split_on-last :
    (s : Text) → split_on 10 (s ++ 10 ∷ []) ≡ ((split_on 10 s).0, (split_on 10 s).1 ++ [] ∷ [])
unfolding split_on
split_on-last [] = refl
split_on-last (c ∷ s) = ground (arith, split_on-last s)

last-allowed : (ls : List Text) → LinesAllowed ls → LinesAllowed (ls ++ [] ∷ [])
unfolding first_field field_allowed trim_left_space take_word
last-allowed ls h = All-append (λ l. field_allowed (first_field l) ≡ true) ls ([] ∷ []) h (refl, tt)

split-last : (s : Text) → split 10 (s ++ 10 ∷ []) ≡ split 10 s ++ [] ∷ []
unfolding split
split-last s = ap (λ p. p.0 ∷ p.1) (split_on-last s)

nil-allowed : LinesAllowed (split 10 (write_lines []))
unfolding first_field field_allowed trim_left_space take_word split split_on write_lines
nil-allowed = (refl, tt)

mark-allowed : field_allowed (first_field custom_mark) ≡ true
unfolding first_field field_allowed trim_left_space take_word
mark-allowed = refl

mark-IsLine : IsLine custom_mark
unfolding lacks
mark-IsLine = refl

write-one : (t : Text) → write_lines (t ∷ []) ≡ t ++ 10 ∷ []
unfolding write_lines
write-one t = refl

marked-allowed :
    (t : Text)
    → LinesAllowed (split 10 t)
    → LinesAllowed (split 10 (write_lines (custom_mark ∷ t ∷ [])))
marked-allowed t h =
    subst LinesAllowed
      (sym (
        split-write (custom_mark ∷ []) (t ∷ []) (mark-IsLine, tt)
        ∙ ap (λ k. custom_mark ∷ split 10 k) (write-one t)
        ∙ ap (λ k. custom_mark ∷ k) (split-last t)))
      (mark-allowed, last-allowed (split 10 t) h)

-- The lines after the server's own pass.
extra-allowed :
    (c : Config)
    → validate_extra (split 10 c.extra) ≡ ok tt
    → LinesAllowed (split 10 (write_lines (extra_lines c)))
extra-allowed c h =
    if-intro (λ ls. LinesAllowed (split 10 (write_lines ls))) (is_empty (trim_space c.extra)) []
      (custom_mark ∷ trim_space c.extra ∷ []) nil-allowed
      (marked-allowed (trim_space c.extra) (trim_space-LinesAllowed c.extra h))

-- What `Validate` has checked.
refuse-ok : (b : Bool) (e : Error) → refuse (not b) e ≡ ok tt → b ≡ true
refuse-ok true e h = refl
refuse-ok false e h = absurd (ground arith)

validate-checks :
    (net : Net) (c : Config)
    → validate net c ≡ ok tt
    → (is_proto c.proto ≡ true)
      × (is_port c.port ≡ true)
      × (is_listed allowed_ciphers c.cipher ≡ true)
      × (is_some (net.parse_cidr c.subnet) ≡ true)
      × (validate_dns net c.dns ≡ ok tt)
      × (validate_routes net c.routes ≡ ok tt)
      × (validate_extra (split 10 c.extra) ≡ ok tt)
unfolding validate
validate-checks net c h =
    let a = >>=-eq-ok (refuse (not (is_proto c.proto)) bad_proto) _ h in
    let b = >>=-eq-ok (refuse (not (is_port c.port)) bad_port) _ a.2 in
    let d = >>=-eq-ok (refuse (not (is_listed allowed_ciphers c.cipher)) bad_cipher) _ b.2 in
    let e = >>=-eq-ok (refuse (not (is_some (net.parse_cidr c.subnet))) bad_subnet) _ d.2 in
    let f = >>=-eq-ok (validate_dns net c.dns) _ e.2 in
    let g = >>=-eq-ok (validate_routes net c.routes) _ f.2 in
    (
      refuse-ok (is_proto c.proto) bad_proto a.1,
      refuse-ok (is_port c.port) bad_port b.1,
      refuse-ok (is_listed allowed_ciphers c.cipher) bad_cipher d.1,
      refuse-ok (is_some (net.parse_cidr c.subnet)) bad_subnet e.1,
      f.1,
      g.1,
      g.2,
    )

-- A configuration that `Validate` accepts renders to the lines that `Render` writes itself, unbroken, and
-- after them only lines that are empty, comments, or directives that the admin is allowed: no setting can
-- smuggle in another directive, if what package net accepts or prints and the server's own paths have no
-- line end.
pub render-LinesAllowed :
    (net : Net) (c : Config)
    → IsNet net
    → OwnsLines c
    → validate net c ≡ ok tt
    → (more : List Text) × (split 10 (render net c) ≡ own_lines net c ++ more) × LinesAllowed more
unfolding render
render-LinesAllowed net c w o h =
    let (p, port, l, s, d, r, x) = validate-checks net c h in
    (
      split 10 (write_lines (extra_lines c)),
      split-write (own_lines net c) (extra_lines c) (own-lines-lack net c w o p l d),
      extra-allowed c x,
    )

-- `WriteAtomic` puts the rendered text of a valid configuration in the file, if it can be written and
-- renamed; with an error the file is as it was.
pub write_atomic-validate :
    (net : Net) (io : Files) (c : Config) (file : Option Text)
    → ((validate net c ≡ ok tt)
        × (io.writes && io.renames ≡ true)
        × (write_atomic net io c file ≡ (ok tt, some (render net c))))
      ⊎ ((e : WriteError) × (write_atomic net io c file ≡ (err e, file)))
unfolding write_atomic
write_atomic-validate net io c file = elim (Result-cases (validate net c)) [
  | inr (x, e) ↦ inr (invalid x, ap (installed net io c file) e)
  | inl (u, e) ↦ elim (Bool-cases io.writes) [
    | inr w ↦ inr (write_failed, ap (installed net io c file) e ∙ rw w refl)
    | inl w ↦ elim (Bool-cases io.renames) [
      | inr r ↦ inr (rename_failed, ap (installed net io c file) e ∙ rw (w, r) refl)
      | inl r ↦ inl (e, ground arith, ap (installed net io c file) e ∙ rw (w, r) refl)
    ]
  ]
]
