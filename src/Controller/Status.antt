-- ===== src/Controller/Status.antt =====
-- internal/controller/mgmt.go: `VPNClient` and `parseStatusFile`. A reader is the list of its complete
-- lines, at whose end `ReadString` fails.
pub mod Rows
use ovcp.Base.{
  split, parse_int, has_prefix, ℤ, trim_line, parse_uint, ℕ, zero, suc, ◌+◌, ◌-◌, ◌*◌, ◌/◌, ◌%◌,
  ◌^◌, max, ◌≤◌, ◌<◌, ◌≡◌, refl, sym, ap, subst, ◌∙◌, ◌≢◌, ◌↔◌, ◌⊎◌, inl, inr, ite, dite, if_pos,
  if_neg, Bool, true, false, not, ◌&&◌, ◌||◌, Option, none, some, List, [], ◌∷◌, ◌++◌, map, arith,
  dec_lt, dec_le, ℕ_discrete, ltb, leb, ◌==◌, within, if◌then◌else◌, is_yes, ltb→lt, lt→ltb, leb,
  Bool-cases, if-intro, Option-cases, length, take, drop, keep, length-append, length-keep-le, any,
  find, any-map, any-map-true, find-holds, find-any, find-none, find-not, find-keep,
  find-keep_of_imp, find-keep-none, any-keep, IsDistinct, IsDistinct-keep, In, In-keep, keep-In,
  All, Text, codes, text_discrete, text_eq, is_empty, Map, lookup, erase, insert, lookup-erase_self,
  lookup-erase_ne, lookup-insert_self, lookup-insert_ne, IsMap, IsMap-keep, IsMap-erase,
  IsMap-insert, lookup-keep, Result, ok, err, ◌>>=◌, ◌>>◌, refuse, >>=-eq-ok, Result-cases,
}

pub record VpnClient : Type 0 where
  pub cid : Text
  pub cn : Text
  pub real_address : Text
  pub virtual_address : Text
  pub bytes_recv : ℕ
  pub bytes_sent : ℕ
  pub connected_since : Option ℤ
  pub cipher : Text

pub data Error : Type 0 where
  torn_read : Error

-- f[i], in range wherever it is used.
unfoldable pub field : List Text → ℕ → Text
field [] i = []
field (f ∷ fs) zero = f
field (f ∷ fs) (suc i) = field fs i

unfoldable pub client_of : List Text → VpnClient
unfolding field
client_of f = record {
  cid = field f 10;
  cn = field f 1;
  real_address = field f 2;
  virtual_address = field f 3;
  bytes_recv = parse_uint (field f 5);
  bytes_sent = parse_uint (field f 6);
  connected_since = parse_int (field f 8);
  cipher = if leb 13 (length f) then field f 12 else [];
}

abbrev pub client_list : Text
client_list = codes "CLIENT_LIST" ++ 9 ∷ []

abbrev pub end_line : Text
end_line = codes "END"

abbrev pub prepend : VpnClient → Result Error (List VpnClient) → Result Error (List VpnClient)
prepend v (ok vs) = ok (v ∷ vs)
prepend v (err e) = err e

-- What a `CLIENT_LIST` line adds to the clients of the lines after it.
unfoldable pub add_row : List Text → Result Error (List VpnClient) → Result Error (List VpnClient)
unfolding client_of
add_row f rest = if ltb (length f) 12 then rest else prepend (client_of f) rest

unfoldable pub parse_status : List Text → Result Error (List VpnClient)
unfolding trim_line has_prefix split add_row
parse_status [] = err torn_read
parse_status (l ∷ ls) =
    let rest = parse_status ls in
    let line = trim_line l in
    if text_eq line end_line
    then ok []
    else if has_prefix client_list line
    then add_row (split 9 line) rest
    else rest
