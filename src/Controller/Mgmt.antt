-- ===== src/Controller/Mgmt.antt =====
-- internal/controller/mgmt.go, `Client`: the reader's loop over openvpn's notices, the exchange of one
-- command with its one retry, and `Kill`. A reader is the list of its complete lines. What the socket
-- answers is `Socket`, which may depend on every command written before.
pub mod Blocks
pub mod Kill
use ovcp.Base.{
  trim_line, has_prefix, cut_prefix, cut, ℕ, zero, suc, ◌+◌, ◌-◌, ◌*◌, ◌/◌, ◌%◌, ◌^◌, max, ◌≤◌, ◌<◌,
  ◌≡◌, refl, sym, ap, subst, ◌∙◌, ◌≢◌, ◌↔◌, ◌⊎◌, inl, inr, ite, dite, if_pos, if_neg, Bool, true,
  false, not, ◌&&◌, ◌||◌, Option, none, some, List, [], ◌∷◌, ◌++◌, map, arith, dec_lt, dec_le,
  ℕ_discrete, ltb, leb, ◌==◌, within, if◌then◌else◌, is_yes, ltb→lt, lt→ltb, leb, Bool-cases,
  if-intro, Option-cases, length, take, drop, keep, length-append, length-keep-le, any, find,
  any-map, any-map-true, find-holds, find-any, find-none, find-not, find-keep, find-keep_of_imp,
  find-keep-none, any-keep, IsDistinct, IsDistinct-keep, In, In-keep, keep-In, All, Text, codes,
  text_discrete, text_eq, is_empty, Map, lookup, erase, insert, lookup-erase_self, lookup-erase_ne,
  lookup-insert_self, lookup-insert_ne, IsMap, IsMap-keep, IsMap-erase, IsMap-insert, lookup-keep,
  Result, ok, err, ◌>>=◌, ◌>>◌, refuse, >>=-eq-ok, Result-cases,
}
use ovcp.Controller.Status.{VpnClient}

abbrev pub connect_head : Text
connect_head = codes ">CLIENT:CONNECT,"

abbrev pub reauth_head : Text
reauth_head = codes ">CLIENT:REAUTH,"

abbrev pub established_head : Text
established_head = codes ">CLIENT:ESTABLISHED,"

abbrev pub disconnect_head : Text
disconnect_head = codes ">CLIENT:DISCONNECT,"

abbrev pub env_head : Text
env_head = codes ">CLIENT:ENV,"

abbrev pub env_end : Text
env_end = codes "END"

-- What the reader does with a notice: the reply `client-auth-nt`, a call of a handler with what it reads
-- of the environment, or a line that belongs to the command in flight.
pub data Action : Type 0 where
  approve : Text → Text → Action
  established : Text → Text → Text → Map Text Text → Action
  disconnected : Text → Map Text Text → Action
  replied : Text → Action

-- Which handlers are set.
pub record Handlers : Type 0 where
  pub on_established : Bool
  pub on_disconnect : Bool

-- `env[name] = val` from `name=val`.
unfoldable pub add_env : Text → Map Text Text → Map Text Text
unfolding cut insert
add_env rest env = let (name, value, found) = cut b'=' rest in insert text_discrete name value env

-- What one line is to `readClientEnv`: no entry, the end, or an entry.
abbrev pub env_line_of : Option Text → Option (Option Text)
env_line_of none = none
env_line_of (some rest) = if text_eq rest env_end then some none else some (some rest)

unfoldable pub env_line : Text → Option (Option Text)
unfolding trim_line cut_prefix
env_line l = env_line_of (cut_prefix env_head (trim_line l))

-- What follows a line of the environment: an error, the end, or the lines after it.
abbrev pub env_next :
    (Map Text Text → Option (Map Text Text) × List Text)
    → Map Text Text
    → List Text
    → Option (Option Text)
    → Option (Map Text Text) × List Text
env_next next env ls none = (none, ls)
env_next next env ls (some none) = (some env, ls)
env_next next env ls (some (some rest)) = next (add_env rest env)

-- The environment, or an error, and the lines that are left.
unfoldable pub read_env : Map Text Text → List Text → Option (Map Text Text) × List Text
unfolding env_line add_env
read_env env [] = (none, [])
read_env env (l ∷ ls) = env_next (λ e. read_env e ls) env ls (env_line l)

-- env[name], which is "" where it is missing.
abbrev pub value_of : Option Text → Text
value_of none = []
value_of (some t) = t

abbrev pub get_env : Text → Map Text Text → Text
get_env name env = value_of (lookup text_discrete name env)

abbrev pub approve_after :
    Text → Text → Option (Map Text Text) × List Text → List Action × List Text
approve_after cid kid (none, ls) = ([], ls)
approve_after cid kid (some env, ls) = (approve cid kid ∷ [], ls)

-- `handleConnect`, from the header without its first piece: a header of two pieces reads nothing.
unfoldable pub handle_connect : Text → List Text → List Action × List Text
unfolding cut read_env
handle_connect ids ls =
    let (cid, kid, found) = cut b',' ids in
    if found then approve_after cid kid (read_env [] ls) else ([], ls)

abbrev pub established_after :
    Bool → Text → Option (Map Text Text) × List Text → List Action × List Text
established_after on cid (none, ls) = ([], ls)
established_after on cid (some env, ls) = (
  if on
      then established cid (get_env (codes "common_name") env)
          (get_env (codes "ifconfig_pool_remote_ip") env) env
        ∷ []
      else [],
  ls,
)

unfoldable pub handle_established : Bool → Text → List Text → List Action × List Text
unfolding read_env lookup
handle_established on cid ls = established_after on cid (read_env [] ls)

abbrev pub disconnected_after :
    Bool → Text → Option (Map Text Text) × List Text → List Action × List Text
disconnected_after on cid (none, ls) = ([], ls)
disconnected_after on cid (some env, ls) = (if on then disconnected cid env ∷ [] else [], ls)

unfoldable pub handle_disconnect : Bool → Text → List Text → List Action × List Text
unfolding read_env
handle_disconnect on cid ls = disconnected_after on cid (read_env [] ls)

-- What a line's head makes it.
pub data Notice : Type 0 where
  connect_notice established_notice disconnect_notice : Text → Notice
  other_notice reply_line : Notice

abbrev pub first_notice : (Text → Notice) → Option Text → Notice → Notice
first_notice make none later = later
first_notice make (some rest) later = make rest

unfoldable pub notice_of : Text → Notice
unfolding cut_prefix has_prefix
notice_of line = first_notice connect_notice (cut_prefix connect_head line) (
    first_notice connect_notice (cut_prefix reauth_head line) (
      first_notice established_notice (cut_prefix established_head line) (
        first_notice disconnect_notice (cut_prefix disconnect_head line)
          (if has_prefix (codes ">") line then other_notice else reply_line))))

unfoldable pub handle : Handlers → Text → Notice → List Text → List Action × List Text
unfolding handle_connect handle_established handle_disconnect
handle h raw (connect_notice ids) ls = handle_connect ids ls
handle h raw (established_notice cid) ls = handle_established h.on_established cid ls
handle h raw (disconnect_notice cid) ls = handle_disconnect h.on_disconnect cid ls
handle h raw other_notice ls = ([], ls)
handle h raw reply_line ls = (replied raw ∷ [], ls)

-- One round of `readLoop`.
unfoldable pub read_one : Handlers → Text → List Text → List Action × List Text
unfolding handle notice_of trim_line
read_one h l ls = handle h l (notice_of (trim_line l)) ls

-- `readLoop`, with fuel for `n` rounds, until the peer hangs up.
unfoldable pub read_rounds : ℕ → Handlers → List Text → List Action
unfolding read_one
read_rounds zero h ls = []
read_rounds (suc n) h [] = []
read_rounds (suc n) h (l ∷ ls) =
    let (acts, after) = read_one h l ls in acts ++ read_rounds n h after

unfoldable pub read_loop : Handlers → List Text → List Action
unfolding read_rounds
read_loop h ls = read_rounds (length ls) h ls

-- What a parser makes of the lines of a reply: fine, openvpn's own refusal (`appErr`), or a broken
-- connection.
pub data Outcome : Type 0 where
  fine refused broken : Outcome

-- The loop of `simple`, and of `releaseHold`.
unfoldable pub parse_reply : List Text → Outcome
unfolding has_prefix
parse_reply [] = broken
parse_reply (l ∷ ls) =
    let rest = parse_reply ls in
    let line = trim_line l in
    if has_prefix (codes ">") line
    then rest
    else if has_prefix (codes "SUCCESS") line
    then fine
    else if has_prefix (codes "ERROR") line
    then refused
    else rest

-- How a `tryExec` of a command ends, after the commands that were written before it.
pub record Socket : Type 0 where
  pub try_exec : List Text → Text → Outcome

pub data Error : Type 0 where
  bad_message command_refused connection_lost : Error

abbrev pub answer_of : Outcome → Result Error (Unit {0})
answer_of fine = ok tt
answer_of refused = err command_refused
answer_of broken = err connection_lost

abbrev pub is_broken : Outcome → Bool
is_broken broken = true
is_broken _ = false

-- `exec`: the commands tried so far go in, those tried by now come out. `drop` only closes the connection.
unfoldable pub exec : Socket → Text → List Text → Result Error (Unit {0}) × List Text
exec s cmd sent =
    let once = sent ++ cmd ∷ [] in
    if is_broken (s.try_exec sent cmd)
    then (answer_of (s.try_exec once cmd), once ++ cmd ∷ [])
    else (answer_of (s.try_exec sent cmd), once)

abbrev pub status_command : Text
status_command = codes "status 3"

abbrev pub kill_command : Text → VpnClient → Text
kill_command msg v = codes "client-kill " ++ (v.cid ++ (32 ∷ msg))

-- Whether the killing goes on, with the number so far.
abbrev pub kill_next :
    (ℕ → List Text → (ℕ × Result Error (Unit {0})) × List Text)
    → ℕ
    → Result Error (Unit {0}) × List Text
    → (ℕ × Result Error (Unit {0})) × List Text
kill_next next n (ok u, sent) = next (n + 1) sent
kill_next next n (err e, sent) = ((n, err e), sent)

-- The loop of `Kill` over the live clients.
unfoldable pub kill_all :
    Socket
    → Text
    → Text
    → List VpnClient
    → ℕ
    → List Text
    → (ℕ × Result Error (Unit {0})) × List Text
unfolding exec
kill_all s cn msg [] n sent = ((n, ok tt), sent)
kill_all s cn msg (v ∷ vs) n sent =
    let next = kill_all s cn msg vs in
    if text_eq v.cn cn then kill_next next n (exec s (kill_command msg v) sent) else next n sent

abbrev pub kill_live :
    Socket
    → Text
    → Text
    → List VpnClient
    → Result Error (Unit {0}) × List Text
    → (ℕ × Result Error (Unit {0})) × List Text
kill_live s cn msg live (ok u, asked) = kill_all s cn msg live 0 asked
kill_live s cn msg live (err e, asked) = ((0, err e), asked)

-- `Kill`, for the clients that a `status 3` shows if it goes through.
unfoldable pub kill :
    Socket → Text → Text → List VpnClient → List Text → (ℕ × Result Error (Unit {0})) × List Text
unfolding kill_all exec
kill s cn msg live sent =
    if not (text_eq msg (codes "HALT")) && not (text_eq msg (codes "RESTART"))
    then ((0, err bad_message), sent)
    else kill_live s cn msg live (exec s status_command sent)
