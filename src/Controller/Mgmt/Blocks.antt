-- ===== src/Controller/Mgmt/Blocks.antt =====
-- That `readLoop` does what openvpn's notices ask for.
use ovcp.Base.{
  one_line, lacks, has_prefix, cut_prefix-append, cut_prefix, cut-found, trim_line, ℕ, zero, suc,
  ◌≤◌, ◌≡◌, refl, sym, ap, ◌∙◌, Bool, true, false, none, some, List, [], ◌∷◌, ◌++◌, map, arith,
  if◌then◌else◌, length, length-append, All, Text, codes, text_discrete, text_eq, Map, insert,
}
use ovcp.Controller.Mgmt.{
  env_line_of, connect_head, reauth_head, established_head, disconnect_head, env_head, env_end,
  Action, approve, established, disconnected, replied, Handlers, add_env, env_line, env_next,
  read_env, get_env, approve_after, handle_connect, established_after, handle_established,
  disconnected_after, handle_disconnect, Notice, connect_notice, established_notice,
  disconnect_notice, other_notice, reply_line, notice_of, handle, read_one, read_rounds, read_loop,
}

-- What openvpn writes: a block about a client, with its environment, another notice, or a reply.
pub data Block : Type 0 where
  connects reauths : Text → Text → List (Text × Text) → Block
  establishes disconnects : Text → List (Text × Text) → Block
  says : Text → Block

abbrev pub entry : Text × Text → Text
entry kv = kv.0 ++ (b'=' ∷ kv.1)

abbrev pub write_env : List (Text × Text) → List Text
write_env kvs = map (λ kv. env_head ++ entry kv) kvs ++ (env_head ++ env_end) ∷ []

abbrev pub head_of : Block → Text
head_of (connects cid kid kvs) = connect_head ++ (cid ++ (b',' ∷ kid))
head_of (reauths cid kid kvs) = reauth_head ++ (cid ++ (b',' ∷ kid))
head_of (establishes cid kvs) = established_head ++ cid
head_of (disconnects cid kvs) = disconnect_head ++ cid
head_of (says l) = l

abbrev pub body_of : Block → List Text
body_of (connects cid kid kvs) = write_env kvs
body_of (reauths cid kid kvs) = write_env kvs
body_of (establishes cid kvs) = write_env kvs
body_of (disconnects cid kvs) = write_env kvs
body_of (says l) = []

unfoldable pub write_blocks : List Block → List Text
write_blocks [] = []
write_blocks (b ∷ bs) = head_of b ∷ (body_of b ++ write_blocks bs)

-- The environment that the entries make, a later entry over an earlier one.
unfoldable pub env_of : Map Text Text → List (Text × Text) → Map Text Text
unfolding insert
env_of env [] = env
env_of env ((name, value) ∷ kvs) = env_of (insert text_discrete name value env) kvs

-- What each block asks for.
abbrev pub wanted : Handlers → Block → List Action
wanted h (connects cid kid kvs) = approve cid kid ∷ []
wanted h (reauths cid kid kvs) = approve cid kid ∷ []
wanted h (establishes cid kvs) =
    if h.on_established
    then established cid (get_env (codes "common_name") (env_of [] kvs))
        (get_env (codes "ifconfig_pool_remote_ip") (env_of [] kvs)) (env_of [] kvs)
      ∷ []
    else []
wanted h (disconnects cid kvs) =
    if h.on_disconnect then disconnected cid (env_of [] kvs) ∷ [] else []
wanted h (says l) = if has_prefix (codes ">") (trim_line l) then [] else replied l ∷ []

unfoldable pub all_wanted : Handlers → List Block → List Action
all_wanted h [] = []
all_wanted h (b ∷ bs) = wanted h b ++ all_wanted h bs

abbrev pub IsEntry : Text × Text → Type 0
IsEntry kv = (lacks b'=' kv.0 ≡ true) × (one_line (env_head ++ entry kv) ≡ true)

-- No line end inside a line, no comma in a client id, no `=` in a name, and no head of a client's block on
-- another line.
abbrev pub IsBlock : Block → Type 0
IsBlock (connects cid kid kvs) =
    (lacks b',' cid ≡ true)
    × (one_line (connect_head ++ (cid ++ (b',' ∷ kid))) ≡ true)
    × All IsEntry kvs
IsBlock (reauths cid kid kvs) =
    (lacks b',' cid ≡ true)
    × (one_line (reauth_head ++ (cid ++ (b',' ∷ kid))) ≡ true)
    × All IsEntry kvs
IsBlock (establishes cid kvs) = (one_line (established_head ++ cid) ≡ true) × All IsEntry kvs
IsBlock (disconnects cid kvs) = (one_line (disconnect_head ++ cid) ≡ true) × All IsEntry kvs
IsBlock (says l) =
    (cut_prefix connect_head (trim_line l) ≡ none)
    × (cut_prefix reauth_head (trim_line l) ≡ none)
    × (cut_prefix established_head (trim_line l) ≡ none)
    × (cut_prefix disconnect_head (trim_line l) ≡ none)

trim_line-id : (s : Text) → one_line s ≡ true → trim_line s ≡ s
unfolding trim_line one_line
trim_line-id [] h = refl
trim_line-id (c ∷ s) h = ground (arith, trim_line-id s)

lacks-entry : (sep : ℕ) (p rest : Text) → lacks sep (p ++ (sep ∷ rest)) ≡ false
unfolding lacks
lacks-entry sep [] rest = ground arith
lacks-entry sep (c ∷ p) rest = ground (arith, lacks-entry sep p rest)

entry-ne-end : (kv : Text × Text) → text_eq (entry kv) env_end ≡ false
unfolding lacks
entry-ne-end kv = elim (text_discrete (entry kv) env_end) [
  | yes e ↦
      let clash : true ≡ false = ap (lacks b'=') (sym e) ∙ lacks-entry b'=' kv.0 kv.1 in
      absurd (ground arith)
  | no n ↦ ground arith
]

env_line_of-entry : (kv : Text × Text) → env_line_of (some (entry kv)) ≡ some (some (entry kv))
env_line_of-entry kv = ap (λ b. if b then some none else some (some (entry kv))) (entry-ne-end kv)

env_line-entry :
    (kv : Text × Text) → IsEntry kv → env_line (env_head ++ entry kv) ≡ some (some (entry kv))
unfolding env_line
env_line-entry kv h =
    ap (λ s. env_line_of (cut_prefix env_head s)) (trim_line-id (env_head ++ entry kv) h.1)
    ∙ ap env_line_of (cut_prefix-append env_head (entry kv))
    ∙ env_line_of-entry kv

env_line-end : env_line (env_head ++ env_end) ≡ some none
unfolding env_line trim_line cut_prefix text_discrete
env_line-end = refl

add_env-entry :
    (kv : Text × Text) (env : Map Text Text)
    → IsEntry kv
    → add_env (entry kv) env ≡ insert text_discrete kv.0 kv.1 env
unfolding add_env
add_env-entry kv env h = ap (λ p. insert text_discrete p.0 p.1 env) (cut-found b'=' kv.0 kv.1 h.0)

read_env-write :
    (kvs : List (Text × Text)) (env : Map Text Text) (ls : List Text)
    → All IsEntry kvs
    → read_env env (write_env kvs ++ ls) ≡ (some (env_of env kvs), ls)
unfolding read_env env_of
read_env-write [] env ls h = ap (env_next (λ e. read_env e ls) env ls) env_line-end
read_env-write (kv ∷ kvs) env ls h =
    let after = write_env kvs ++ ls in
    ap (env_next (λ e. read_env e after) env after) (env_line-entry kv h.0)
    ∙ ap (λ e. read_env e after) (add_env-entry kv env h.0)
    ∙ read_env-write kvs (insert text_discrete kv.0 kv.1 env) ls h.1

handle_connect-write :
    (cid kid : Text) (kvs : List (Text × Text)) (ls : List Text)
    → lacks b',' cid ≡ true
    → All IsEntry kvs
    → handle_connect (cid ++ (b',' ∷ kid)) (write_env kvs ++ ls) ≡ (approve cid kid ∷ [], ls)
unfolding handle_connect
handle_connect-write cid kid kvs ls c h =
    ap
      (λ p.
        if p.2
        then approve_after p.0 p.1 (read_env [] (write_env kvs ++ ls))
        else ([], write_env kvs ++ ls))
      (cut-found b',' cid kid c)
    ∙ ap (approve_after cid kid) (read_env-write kvs [] ls h)

-- The heads tell the notices apart.
notice-connect : (rest : Text) → notice_of (connect_head ++ rest) ≡ connect_notice rest
unfolding notice_of cut_prefix
notice-connect rest = refl

notice-reauth : (rest : Text) → notice_of (reauth_head ++ rest) ≡ connect_notice rest
unfolding notice_of cut_prefix
notice-reauth rest = refl

notice-established : (rest : Text) → notice_of (established_head ++ rest) ≡ established_notice rest
unfolding notice_of cut_prefix
notice-established rest = refl

notice-disconnect : (rest : Text) → notice_of (disconnect_head ++ rest) ≡ disconnect_notice rest
unfolding notice_of cut_prefix
notice-disconnect rest = refl

read_one-head :
    (h : Handlers) (l : Text) (o : Notice) (ls : List Text)
    → one_line l ≡ true
    → notice_of l ≡ o
    → read_one h l ls ≡ handle h l o ls
unfolding read_one
read_one-head h l o ls one is =
    ap (λ t. handle h l (notice_of t) ls) (trim_line-id l one) ∙ ap (λ n. handle h l n ls) is

notice-says :
    (l : Text)
    → IsBlock (says l)
    → notice_of (trim_line l)
      ≡ (if has_prefix (codes ">") (trim_line l) then other_notice else reply_line)
unfolding notice_of
notice-says l (a, b, c, d) = rw (a, b, c, d) refl

handle-says :
    (h : Handlers) (l : Text) (ls : List Text) (b : Bool)
    → handle h l (if b then other_notice else reply_line) ls
      ≡ (if b then [] else replied l ∷ [], ls)
unfolding handle
handle-says h l ls true = refl
handle-says h l ls false = refl

-- One round takes one block and does what it asks for.
read_one-block :
    (h : Handlers) (b : Block) (ls : List Text)
    → IsBlock b
    → read_one h (head_of b) (body_of b ++ ls) ≡ (wanted h b, ls)
unfolding handle handle_established handle_disconnect read_one
read_one-block h (connects cid kid kvs) ls (c, one, es) =
    read_one-head h (connect_head ++ (cid ++ (b',' ∷ kid))) (connect_notice (cid ++ (b',' ∷ kid)))
      (write_env kvs ++ ls) one (notice-connect (cid ++ (b',' ∷ kid)))
    ∙ handle_connect-write cid kid kvs ls c es
read_one-block h (reauths cid kid kvs) ls (c, one, es) =
    read_one-head h (reauth_head ++ (cid ++ (b',' ∷ kid))) (connect_notice (cid ++ (b',' ∷ kid)))
      (write_env kvs ++ ls) one (notice-reauth (cid ++ (b',' ∷ kid)))
    ∙ handle_connect-write cid kid kvs ls c es
read_one-block h (establishes cid kvs) ls (one, es) =
    read_one-head h (established_head ++ cid) (established_notice cid) (write_env kvs ++ ls) one
      (notice-established cid)
    ∙ ap (established_after h.on_established cid) (read_env-write kvs [] ls es)
read_one-block h (disconnects cid kvs) ls (one, es) =
    read_one-head h (disconnect_head ++ cid) (disconnect_notice cid) (write_env kvs ++ ls) one
      (notice-disconnect cid)
    ∙ ap (disconnected_after h.on_disconnect cid) (read_env-write kvs [] ls es)
read_one-block h (says l) ls w =
    ap (λ n. handle h l n ls) (notice-says l w)
    ∙ handle-says h l ls (has_prefix (codes ">") (trim_line l))

rounds-blocks :
    (n : ℕ) (h : Handlers) (bs : List Block)
    → All IsBlock bs
    → length bs ≤ n
    → read_rounds n h (write_blocks bs) ≡ all_wanted h bs
unfolding read_rounds write_blocks all_wanted
rounds-blocks zero h [] w l = refl
rounds-blocks zero h (b ∷ bs) w l = absurd (omega arith)
rounds-blocks (suc n) h [] w l = refl
rounds-blocks (suc n) h (b ∷ bs) w l =
    ap (λ p. p.0 ++ read_rounds n h p.1) (read_one-block h b (write_blocks bs) w.0)
    ∙ ap (λ t. wanted h b ++ t) (rounds-blocks n h bs w.1 (omega arith))

blocks-le : (bs : List Block) → length bs ≤ length (write_blocks bs)
unfolding write_blocks
blocks-le [] = omega arith
blocks-le (b ∷ bs) = omega (arith, blocks-le bs, length-append (body_of b) (write_blocks bs))

-- On the blocks that openvpn writes the reader does what each one asks for, in their order: every CONNECT
-- and REAUTH is approved under its own ids, every ESTABLISHED and DISCONNECT is given to its handler with
-- its whole environment, ESTABLISHED with the name and the address in it, other notices are dropped, and each other line goes to the command in
-- flight.
pub read_loop-wanted :
    (h : Handlers) (bs : List Block)
    → All IsBlock bs
    → read_loop h (write_blocks bs) ≡ all_wanted h bs
unfolding read_loop
read_loop-wanted h bs w = rounds-blocks (length (write_blocks bs)) h bs w (blocks-le bs)
