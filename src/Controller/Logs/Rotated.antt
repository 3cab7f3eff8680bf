-- ===== src/Controller/Logs/Rotated.antt =====
-- What compression does to the files of one time.
use ovcp.Base.{
  ℕ, ◌≡◌, refl, sym, ap, subst, ◌∙◌, ◌≢◌, inl, inr, Bool, Option, none, some, List, [], ◌∷◌, arith,
  ℕ_discrete, ◌==◌, if◌then◌else◌, Bool-cases, if-intro, any, Text, lookup, insert,
  lookup-erase_self, lookup-erase_ne, lookup-insert_self, lookup-insert_ne,
}
use ovcp.Controller.Logs.{LogFiles, packed_as, gzip_file, gzip_all}

-- The files of one time: the plain one and the packed one.
abbrev pub at_time : ℕ → LogFiles → Option Text × Option Text
at_time t s = (lookup ℕ_discrete t s.plain, lookup ℕ_discrete t s.packed)

abbrev pub packed_at : (Text → Text) → Option Text × Option Text → Option Text × Option Text
packed_at gzip (none, z) = (none, z)
packed_at gzip (some text, z) = (none, some (gzip text))

as-other :
    (gzip : Text → Text) (t u : ℕ) (s : LogFiles) (o : Option Text)
    → t ≢ u
    → at_time u (packed_as gzip t s o) ≡ at_time u s
as-other gzip t u s none n = refl
as-other gzip t u s (some text) n =
    ap (λ a. (a, lookup ℕ_discrete u (insert ℕ_discrete t (gzip text) s.packed)))
      (lookup-erase_ne ℕ_discrete t u s.plain n)
    ∙ ap (λ b. (lookup ℕ_discrete u s.plain, b))
        (lookup-insert_ne ℕ_discrete t u (gzip text) s.packed n)

as-same :
    (gzip : Text → Text) (t : ℕ) (s : LogFiles) (o : Option Text)
    → lookup ℕ_discrete t s.plain ≡ o
    → at_time t (packed_as gzip t s o) ≡ packed_at gzip (o, lookup ℕ_discrete t s.packed)
as-same gzip t s none e = ap (λ a. (a, lookup ℕ_discrete t s.packed)) e
as-same gzip t s (some text) e =
    ap (λ a. (a, lookup ℕ_discrete t (insert ℕ_discrete t (gzip text) s.packed)))
      (lookup-erase_self ℕ_discrete t s.plain)
    ∙ ap (λ b. (none, b)) (lookup-insert_self ℕ_discrete t (gzip text) s.packed)

abbrev pub is_time : ℕ → List ℕ → Bool
is_time t = any (λ x. x == t)

file-same :
    (gzip : Text → Text) (x t : ℕ) (s : LogFiles)
    → x ≡ t
    → at_time t (gzip_file gzip x s) ≡ packed_at gzip (at_time t s)
unfolding gzip_file
file-same gzip x t s e =
    subst (λ k. at_time t (gzip_file gzip k s) ≡ packed_at gzip (at_time t s)) (sym e)
      (as-same gzip t s (lookup ℕ_discrete t s.plain) refl)

file-other :
    (gzip : Text → Text) (x t : ℕ) (s : LogFiles)
    → x ≢ t
    → at_time t (gzip_file gzip x s) ≡ at_time t s
unfolding gzip_file
file-other gzip x t s n = as-other gzip x t s (lookup ℕ_discrete x s.plain) n

packed-twice :
    (gzip : Text → Text) (p : Option Text × Option Text)
    → packed_at gzip (packed_at gzip p) ≡ packed_at gzip p
packed-twice gzip (none, z) = refl
packed-twice gzip (some text, z) = refl

pub all-at :
    (gzip : Text → Text) (ts : List ℕ) (t : ℕ) (s : LogFiles)
    → at_time t (gzip_all gzip ts s)
      ≡ (if is_time t ts then packed_at gzip (at_time t s) else at_time t s)
unfolding gzip_all any gzip_file
all-at gzip [] t s = refl
all-at gzip (x ∷ xs) t s =
    let later = all-at gzip xs t (gzip_file gzip x s) in
    elim (Bool-cases (x == t)) [
      | inl b ↦
          let q = file-same gzip x t s (ground arith) in
          rw b (
            later
            ∙ if-intro (λ r. r ≡ packed_at gzip (at_time t s)) (is_time t xs) _ _
                (ap (packed_at gzip) q ∙ packed-twice gzip (at_time t s)) q)
      | inr b ↦ rw b (
          later
          ∙ ap (λ p. if is_time t xs then packed_at gzip p else p)
              (file-other gzip x t s (λ e. ground arith)))
    ]
