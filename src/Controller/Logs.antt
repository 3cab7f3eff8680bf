-- ===== src/Controller/Logs.antt =====
-- internal/controller/logrotate.go: the rotation of one log. Its rotated files are two maps from the time in
-- a file's name to the content, one for the names that end in `.gz`; names that do not parse are skipped
-- there. What gzip makes of a text is a parameter, and files are read and written without failure.
pub mod Rotated
pub mod Times
pub mod Packed
use ovcp.Base.{
  ℕ, zero, suc, ◌+◌, ◌-◌, ◌*◌, ◌/◌, ◌%◌, ◌^◌, max, ◌≤◌, ◌<◌, ◌≡◌, refl, sym, ap, subst, ◌∙◌, ◌≢◌,
  ◌↔◌, ◌⊎◌, inl, inr, ite, dite, if_pos, if_neg, Bool, true, false, not, ◌&&◌, ◌||◌, Option, none,
  some, List, [], ◌∷◌, ◌++◌, map, arith, dec_lt, dec_le, ℕ_discrete, ltb, leb, ◌==◌, within,
  if◌then◌else◌, is_yes, ltb→lt, lt→ltb, leb, Bool-cases, if-intro, Option-cases, length, take,
  drop, keep, length-append, length-keep-le, any, find, any-map, any-map-true, find-holds, find-any,
  find-none, find-not, find-keep, find-keep_of_imp, find-keep-none, any-keep, IsDistinct,
  IsDistinct-keep, In, In-keep, keep-In, All, Text, codes, text_discrete, text_eq, is_empty, Map,
  lookup, erase, insert, lookup-erase_self, lookup-erase_ne, lookup-insert_self, lookup-insert_ne,
  IsMap, IsMap-keep, IsMap-erase, IsMap-insert, lookup-keep, Result, ok, err, ◌>>=◌, ◌>>◌, refuse,
  >>=-eq-ok, Result-cases, trim_space, trim_right_space, trim_left_space, is_space, cut, cut-found,
  cut_prefix, cut_prefix-append, has_prefix, lacks, one_line, split, join,
}
use ovcp.Base.{ℤ, pos, negsuc}

pub record LogConfig : Type 0 where
  pub retention_days : ℤ
  pub keep_uncompressed : ℤ

pub record LogFiles : Type 0 where
  pub current : Option Text
  pub plain : Map ℕ Text
  pub packed : Map ℕ Text

abbrev pub rotate_text : ℕ → LogFiles → Option Text → LogFiles
rotate_text now s none = s
rotate_text now s (some []) = s
rotate_text now s (some (c ∷ cs)) = record s {
  current = some [];
  plain = insert ℕ_discrete now (c ∷ cs) s.plain;
}

-- `RotateLog`
unfoldable pub rotate_log : ℕ → LogFiles → LogFiles
unfolding insert
rotate_log now s = rotate_text now s s.current

unfoldable pub insert_time : ℕ → List ℕ → List ℕ
insert_time t [] = t ∷ []
insert_time t (x ∷ xs) = let later = insert_time t xs in if leb t x then t ∷ x ∷ xs else x ∷ later

-- The order of `rotatedGenerations`: oldest first.
unfoldable pub sort_times : List ℕ → List ℕ
unfolding insert_time
sort_times [] = []
sort_times (t ∷ ts) = insert_time t (sort_times ts)

abbrev pub times_of : Map ℕ Text → List ℕ
times_of = map (λ e. e.0)

-- `keepUncompressed < 0`
abbrev pub kept_number : ℤ → ℕ
kept_number (pos n) = n
kept_number (negsuc n) = 0

-- The generations that `compressOld` packs: all but the newest.
unfoldable pub old_times : ℤ → Map ℕ Text → List ℕ
unfolding sort_times
old_times number plain =
    let times = sort_times (times_of plain) in take (length times - kept_number number) times

abbrev pub packed_as : (Text → Text) → ℕ → LogFiles → Option Text → LogFiles
packed_as gzip t s none = s
packed_as gzip t s (some text) = record s {
  plain = erase ℕ_discrete t s.plain;
  packed = insert ℕ_discrete t (gzip text) s.packed;
}

-- `gzipFile`
unfoldable pub gzip_file : (Text → Text) → ℕ → LogFiles → LogFiles
unfolding erase insert lookup
gzip_file gzip t s = packed_as gzip t s (lookup ℕ_discrete t s.plain)

unfoldable pub gzip_all : (Text → Text) → List ℕ → LogFiles → LogFiles
unfolding gzip_file
gzip_all gzip [] s = s
gzip_all gzip (t ∷ ts) s = gzip_all gzip ts (gzip_file gzip t s)

-- `compressOld`
unfoldable pub compress_old : (Text → Text) → ℤ → LogFiles → LogFiles
unfolding gzip_all old_times
compress_old gzip number s = gzip_all gzip (old_times number s.plain) s

abbrev pub drop_before : ℕ → LogFiles → LogFiles
drop_before cutoff s = record s {
  plain = keep (λ e. leb cutoff e.0) s.plain;
  packed = keep (λ e. leb cutoff e.0) s.packed;
}

-- `pruneOld`; a day of UTC has 86400 seconds.
unfoldable pub prune_old : ℕ → ℤ → LogFiles → LogFiles
unfolding keep
prune_old now (negsuc n) s = s
prune_old now (pos zero) s = s
prune_old now (pos (suc n)) s = drop_before (now - suc n * 86400) s

-- `RotateLogs`, for one path.
unfoldable pub rotate_logs : (Text → Text) → ℕ → LogConfig → LogFiles → LogFiles
unfolding rotate_log compress_old prune_old
rotate_logs gzip now c s =
    prune_old now c.retention_days (compress_old gzip c.keep_uncompressed (rotate_log now s))
