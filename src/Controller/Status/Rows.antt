-- ===== src/Controller/Status/Rows.antt =====
-- That `parseStatusFile` reads back what openvpn writes, and nothing of a file that is cut off.
use ovcp.Base.{
  split, split-join, parse_int, one_line, cut_prefix, trim_line, parse_uint, join, has_prefix,
  all_lack, ◌≡◌, refl, sym, ap, subst, ◌∙◌, true, false, List, [], ◌∷◌, ◌++◌, map, arith, ltb,
  if◌then◌else◌, if-intro, length, any, All, Text, codes, text_discrete, text_eq, ok, err,
}
use ovcp.Controller.Status.{
  VpnClient, torn_read, field, client_of, client_list, end_line, add_row, parse_status,
}

-- The columns of a client's row, with or without the cipher.
pub record Row : Type 0 where
  pub cn : Text
  pub real : Text
  pub virtual : Text
  pub virtual6 : Text
  pub received : Text
  pub sent : Text
  pub since : Text
  pub since_unix : Text
  pub user : Text
  pub cid : Text
  pub pid : Text
  pub more : List Text

abbrev pub columns : Row → List Text
columns r =
    codes "CLIENT_LIST"
    ∷ r.cn
    ∷ r.real
    ∷ r.virtual
    ∷ r.virtual6
    ∷ r.received
    ∷ r.sent
    ∷ r.since
    ∷ r.since_unix
    ∷ r.user
    ∷ r.cid
    ∷ r.pid
    ∷ r.more

-- A line of the file: a client's, or one that is neither that nor the last.
pub data Line : Type 0 where
  row : Row → Line
  other : Text → Line

abbrev pub write_line : Line → Text
write_line (row r) = join 9 (columns r)
write_line (other t) = t

abbrev pub IsLine : Line → Type 0
IsLine (row r) = (all_lack 9 (columns r) ≡ true) × (one_line (join 9 (columns r)) ≡ true)
IsLine (other t) =
    (text_eq (trim_line t) end_line ≡ false) × (has_prefix client_list (trim_line t) ≡ false)

abbrev pub cipher_of : Row → Text
cipher_of r = elim r.more [ [] ↦ [] | c ∷ cs ↦ c ]

-- The clients that the lines name.
unfoldable pub clients : List Line → List VpnClient
clients [] = []
clients (row r ∷ ls) =
    (record {
      cid = r.cid;
      cn = r.cn;
      real_address = r.real;
      virtual_address = r.virtual;
      bytes_recv = parse_uint r.received;
      bytes_sent = parse_uint r.sent;
      connected_since = parse_int r.since_unix;
      cipher = cipher_of r;
    })
    ∷ clients ls
clients (other t ∷ ls) = clients ls

trim_line-id : (s : Text) → one_line s ≡ true → trim_line s ≡ s
unfolding trim_line one_line
trim_line-id [] h = refl
trim_line-id (c ∷ s) h = ground (arith, trim_line-id s)

-- A client's line is not the last one.
end-prefix : has_prefix client_list end_line ≡ false
unfolding has_prefix cut_prefix
end-prefix = refl

prefix-ne-end : (s : Text) → has_prefix client_list s ≡ true → text_eq s end_line ≡ false
prefix-ne-end s h = elim (text_discrete s end_line) [
  | yes e ↦
      let clash : true ≡ false = sym h ∙ ap (has_prefix client_list) e ∙ end-prefix in
      absurd (ground arith)
  | no n ↦ ground arith
]

row-prefix : (r : Row) → has_prefix client_list (join 9 (columns r)) ≡ true
unfolding has_prefix cut_prefix join
row-prefix r = refl

parse_status-row :
    (r : Row) (ls : List Text)
    → IsLine (row r)
    → parse_status (join 9 (columns r) ∷ ls) ≡ add_row (columns r) (parse_status ls)
unfolding parse_status
parse_status-row r ls h = ground (
  arith,
  trim_line-id (join 9 (columns r)) h.1,
  split-join 9 (codes "CLIENT_LIST")
      (r.cn ∷ r.real ∷ r.virtual ∷ r.virtual6 ∷ r.received ∷ r.sent ∷ r.since ∷ r.since_unix
        ∷ r.user ∷ r.cid ∷ r.pid ∷ r.more)
      h.0,
  row-prefix r,
  prefix-ne-end (join 9 (columns r)),
)

parse_status-other :
    (t : Text) (ls : List Text) → IsLine (other t) → parse_status (t ∷ ls) ≡ parse_status ls
unfolding parse_status
parse_status-other t ls h = ground arith

row-added :
    (r : Row) (vs : List VpnClient) → add_row (columns r) (ok vs) ≡ ok (clients (row r ∷ []) ++ vs)
unfolding add_row client_of field clients
row-added r vs =
    elim r.more
      as (λ m.
        add_row (columns (record r { more = m })) (ok vs)
        ≡ ok (clients (row (record r { more = m }) ∷ []) ++ vs)) [
          | [] ↦ refl
          | c ∷ cs ↦ ground arith
        ]

-- A status file reads back as the clients of its rows, in order, whatever other lines stand between them
-- and whatever follows `END`, if no column has a tab or a line end.
pub parse_status-clients :
    (ls : List Line) (after : List Text)
    → All IsLine ls
    → parse_status (map write_line ls ++ end_line ∷ after) ≡ ok (clients ls)
unfolding clients parse_status trim_line text_discrete
parse_status-clients [] after h = refl
parse_status-clients (row r ∷ ls) after h =
    let rest = parse_status-clients ls after h.1 in
    parse_status-row r (map write_line ls ++ end_line ∷ after) h.0
    ∙ ap (add_row (columns r)) rest
    ∙ row-added r (clients ls)
parse_status-clients (other t ∷ ls) after h =
    parse_status-other t (map write_line ls ++ end_line ∷ after) h.0
    ∙ parse_status-clients ls after h.1

torn-nil : parse_status [] ≡ err torn_read
unfolding parse_status
torn-nil = refl

add_row-torn : (f : List Text) → add_row f (err torn_read) ≡ err torn_read
unfolding add_row
add_row-torn f = if-intro (λ r. r ≡ err torn_read) (ltb (length f) 12) _ _ refl refl

-- What a line other than the last makes of an error after it.
parse_status-before :
    (l : Text) (ls : List Text)
    → text_eq (trim_line l) end_line ≡ false
    → parse_status ls ≡ err torn_read
    → parse_status (l ∷ ls) ≡ err torn_read
unfolding parse_status
parse_status-before l ls n e =
    let rest = parse_status ls in
    let line = trim_line l in
    let torn : add_row (split 9 line) rest ≡ err torn_read =
      ap (add_row (split 9 line)) e ∙ add_row-torn (split 9 line) in
    subst
      (λ b.
        (if b
          then ok []
          else if has_prefix client_list line
          then add_row (split 9 line) rest
          else rest)
        ≡ err torn_read)
      (sym n)
      (if-intro (λ r. r ≡ err torn_read) (has_prefix client_list line) (add_row (split 9 line) rest)
        rest torn e)

-- A file in which no line is `END` gives an error, whatever rows it has.
pub parse_status-torn :
    (ls : List Text)
    → any (λ l. text_eq (trim_line l) end_line) ls ≡ false
    → parse_status ls ≡ err torn_read
unfolding any
parse_status-torn [] h = torn-nil
parse_status-torn (l ∷ ls) h =
    parse_status-before l ls (ground arith) (parse_status-torn ls (ground arith))
