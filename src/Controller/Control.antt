-- ===== src/Controller/Control.antt =====
-- internal/controller/control.go: the control socket. `serve_conn` is `serveControlConn` on what one
-- connection has sent, and answers what it writes; the client's calls send one line and read one. The
-- JSON of a reply is a parameter, `Codec`, as the digits of strconv are.
pub mod Requests
pub mod Exchange
use ovcp.Base.{
  ℕ, zero, suc, ◌+◌, ◌-◌, ◌*◌, ◌/◌, ◌%◌, ◌^◌, max, ◌≤◌, ◌<◌, ◌≡◌, refl, sym, ap, subst, ◌∙◌, ◌≢◌,
  ◌↔◌, ◌⊎◌, inl, inr, ite, dite, if_pos, if_neg, Bool, true, false, not, ◌&&◌, ◌||◌, Option, none,
  some, List, [], ◌∷◌, ◌++◌, map, arith, dec_lt, dec_le, ℕ_discrete, ltb, leb, ◌==◌, within,
  if◌then◌else◌, is_yes, ltb→lt, lt→ltb, leb, Bool-cases, if-intro, Option-cases, length, take,
  drop, keep, length-append, length-keep-le, any, find, any-map, any-map-true, find-holds, find-any,
  find-none, find-not, find-keep, find-keep_of_imp, find-keep-none, any-keep, IsDistinct,
  IsDistinct-keep, In, In-keep, keep-In, All, Text, codes, text_discrete, text_eq, is_empty, Map,
  lookup, erase, insert, lookup-erase_self, lookup-erase_ne, lookup-insert_self, lookup-insert_ne,
  IsMap, IsMap-keep, IsMap-erase, IsMap-insert, lookup-keep, Result, ok, err, ◌>>=◌, ◌>>◌, refuse,
  >>=-eq-ok, Result-cases, trim_space, trim_right_space, trim_left_space, is_space, cut, cut-found,
  cut_prefix, cut_prefix-append, has_prefix, lacks, one_line, split, join,
}
use ovcp.Controller.Status.{VpnClient}
use ovcp.Controller.Ops.{
  Fault, failed, panicked, Op, Lifecycle, TelegramStatus, TelegramController, ControlResult, run_op,
  run_telegram_op,
}

-- How a value is written into a reply and read from it.
pub record Codec (A : Type 0) : Type 0 where
  pub encode : A → Text
  pub decode : Text → Option A

pub record Codecs : Type 0 where
  pub count : Codec ℕ
  pub clients : Codec (List VpnClient)
  pub result : Codec ControlResult
  pub telegram : Codec TelegramStatus

-- `ControlDeps`
pub record ControlDeps (W : Type 0) : Type 0 where
  pub vpn : Lifecycle W
  pub dns : Lifecycle W
  pub mgmt_kill : Text → Text → Op W ℕ
  pub mgmt_status : Op W (List VpnClient)
  pub set_debug : Bool → W → W
  pub telegram : TelegramController W
  pub upstream_rewrite : Text → Op W (Unit {0})
  pub upstream_reapply : Op W (Unit {0})
  -- `ProcessStartedAt`
  pub serve_start : ℕ

-- What the line of an op asks for.
pub data Request : Type 0 where
  kill_request : Text → Text → Request
  clients_request : Request
  assign_request : Text → Request
  reapply_request : Request
  telegram_request : Text → Request
  debug_request : Bool → Request
  dns_request : Text → Request
  vpn_request : Text → Request

abbrev pub kill_of : Text × Text × Bool → Request
kill_of (msg, cn, found) = kill_request cn msg

-- `if rest, ok := strings.CutPrefix(op, prefix); ok { ... }`
abbrev pub on_prefix : Option Text → (Text → Request) → Request → Request
on_prefix none make later = later
on_prefix (some rest) make later = make rest

-- The tests of `serveControlConn`, in their order.
unfoldable pub request_of_op : Text → Request
unfolding cut_prefix cut text_discrete
request_of_op op =
    on_prefix (cut_prefix (codes "kill ") op) (λ arg. kill_of (cut 32 arg))
      (if text_eq op (codes "clients")
        then clients_request
        else on_prefix (cut_prefix (codes "upstream-assign ") op) assign_request (
            if text_eq op (codes "upstream-reapply")
            then reapply_request
            else on_prefix (cut_prefix (codes "telegram-") op) telegram_request (
                if text_eq op (codes "debug on")
                then debug_request true
                else if text_eq op (codes "debug off")
                then debug_request false
                else on_prefix (cut_prefix (codes "dns-") op) dns_request (vpn_request op))))

-- `op := strings.TrimSpace(line)` and its tests.
unfoldable pub request_of : Text → Request
unfolding request_of_op trim_space
request_of line = request_of_op (trim_space line)

-- The payload after `OK`, with its space.
abbrev pub payload : {W A : Type 0} → (A → Text) → Result Fault A × W → Result Fault Text × W
payload write (ok a, w) = (ok (32 ∷ write a), w)
payload write (err e, w) = (err e, w)

abbrev pub no_payload : {W : Type 0} → Result Fault (Unit {0}) × W → Result Fault Text × W
no_payload (ok u, w) = (ok [], w)
no_payload (err e, w) = (err e, w)

-- What a request does, and the payload of its answer.
unfoldable pub perform : {W : Type 0} → Codecs → ControlDeps W → Request → Op W Text
unfolding run_op run_telegram_op
perform c d (kill_request cn msg) w = payload c.count.encode (d.mgmt_kill cn msg w)
perform c d clients_request w = payload c.clients.encode (d.mgmt_status w)
perform c d (assign_request cn) w = no_payload (d.upstream_rewrite cn w)
perform c d reapply_request w = no_payload (d.upstream_reapply w)
perform c d (telegram_request verb) w =
    payload c.telegram.encode (run_telegram_op d.telegram verb w)
perform c d (debug_request on) w = (ok [], d.set_debug on w)
perform c d (dns_request verb) w =
    payload c.result.encode (run_op d.dns d.serve_start verb false none w)
perform c d (vpn_request verb) w =
    payload c.result.encode (run_op d.vpn d.serve_start verb true (some d.upstream_reapply) w)

-- `replyOK`, `replyJSON`, and the answer after a panic.
unfoldable pub write_reply : Result Fault Text → Text
write_reply (ok text) = codes "OK" ++ (text ++ 10 ∷ [])
write_reply (err (failed e)) = codes "ERR " ++ (e ++ 10 ∷ [])
write_reply (err panicked) = codes "ERR internal error" ++ 10 ∷ []

abbrev pub reply_of : {W : Type 0} → Result Fault Text × W → Text × W
reply_of (r, w) = (write_reply r, w)

abbrev pub serve_line : {W : Type 0} → Codecs → ControlDeps W → Text × Text × Bool → W → Text × W
serve_line c d (line, after, found) w =
    if found then reply_of (perform c d (request_of line) w) else ([], w)

-- `serveControlConn`
unfoldable pub serve_conn : {W : Type 0} → Codecs → ControlDeps W → Text → W → Text × W
unfolding perform request_of write_reply cut trim_space
serve_conn c d sent w = serve_line c d (cut 10 sent) w

-- The client's errors once serve has been reached.
pub data Error : Type 0 where
  answered : Text → Error
  unexpected : Text → Error

abbrev first_part : Text × Text × Bool → Text
first_part (before, after, found) = before

abbrev read_ok : Text → Option Text → Result Error Text
read_ok resp none = err (unexpected resp)
read_ok resp (some rest) = ok (trim_space rest)

abbrev read_err : Option Text → Result Error Text → Result Error Text
read_err none later = later
read_err (some e) later = err (answered e)

-- How `controlRequest` reads the reply.
unfoldable pub read_reply : Text → Result Error Text
unfolding cut_prefix trim_space cut
read_reply got =
    let resp = trim_space (first_part (cut 10 got)) in
    read_err (cut_prefix (codes "ERR ") resp) (read_ok resp (cut_prefix (codes "OK") resp))

abbrev read_of : {W : Type 0} → Text × W → Result Error Text × W
read_of (got, w) = (read_reply got, w)

-- `controlRequest` with a serve that listens and answers.
unfoldable pub control_request :
    {W : Type 0} → Codecs → ControlDeps W → Text → W → Result Error Text × W
unfolding serve_conn read_reply
control_request c d op w = read_of (serve_conn c d (op ++ 10 ∷ []) w)

abbrev decoded : {A : Type 0} → Text → Option A → Result Error A
decoded text none = err (unexpected text)
decoded text (some a) = ok a

abbrev decode_of : {W A : Type 0} → Codec A → Result Error Text × W → Result Error A × W
decode_of j (ok text, w) = (decoded text (j.decode text), w)
decode_of j (err e, w) = (err e, w)

-- `Control`
unfoldable pub control :
    {W : Type 0} → Codecs → ControlDeps W → Text → W → Result Error ControlResult × W
unfolding control_request
control c d op w = decode_of c.result (control_request c d op w)

-- `Clients`
unfoldable pub clients :
    {W : Type 0} → Codecs → ControlDeps W → W → Result Error (List VpnClient) × W
unfolding control_request
clients c d w = decode_of c.clients (control_request c d (codes "clients") w)

-- `Kill`
unfoldable pub kill : {W : Type 0} → Codecs → ControlDeps W → Text → Text → W → Result Error ℕ × W
unfolding control_request
kill c d cn msg w = decode_of c.count (control_request c d (codes "kill " ++ (msg ++ (32 ∷ cn))) w)

abbrev done_of : {W : Type 0} → Result Error Text × W → Result Error (Unit {0}) × W
done_of (ok text, w) = (ok tt, w)
done_of (err e, w) = (err e, w)

-- `UpstreamAssign`
unfoldable pub upstream_assign :
    {W : Type 0} → Codecs → ControlDeps W → Text → W → Result Error (Unit {0}) × W
unfolding control_request
upstream_assign c d cn w = done_of (control_request c d (codes "upstream-assign " ++ cn) w)

-- `UpstreamReapply`
unfoldable pub upstream_reapply :
    {W : Type 0} → Codecs → ControlDeps W → W → Result Error (Unit {0}) × W
unfolding control_request
upstream_reapply c d w = done_of (control_request c d (codes "upstream-reapply") w)

-- `Debug`
unfoldable pub debug :
    {W : Type 0} → Codecs → ControlDeps W → Bool → W → Result Error (Unit {0}) × W
unfolding control_request
debug c d on w =
    done_of (control_request c d (if on then codes "debug on" else codes "debug off") w)

-- `TelegramOp`
unfoldable pub telegram_op :
    {W : Type 0} → Codecs → ControlDeps W → Text → W → Result Error TelegramStatus × W
unfolding control_request
telegram_op c d verb w = decode_of c.telegram (control_request c d (codes "telegram-" ++ verb) w)
