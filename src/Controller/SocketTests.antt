-- ===== src/Controller/SocketTests.antt =====
-- A status file, notices of openvpn, kills, and exchanges over the control socket.
use ovcp.Base.{
  all_lack, trim_line, ℕ, ◌+◌, ◌-◌, ◌≤◌, ◌≡◌, refl, ◌≢◌, Bool, true, false, Option, none, some,
  List, [], ◌∷◌, ◌++◌, map, arith, ℕ_discrete, ◌==◌, if◌then◌else◌, length, any, Text, codes,
  text_discrete, ok, err, trim_right_space, trim_left_space, trim_space, cut_prefix, has_prefix,
  lacks, one_line, join,
}
use ovcp.Controller.Status.{VpnClient, end_line, parse_status, torn_read}
use ovcp.Controller.Status.Rows.{
  Row, row, other, write_line, clients, parse_status-clients, parse_status-torn,
}
use ovcp.Controller.Mgmt.{
  fine, Socket, Handlers, read_loop, exec, status_command, kill_command, kill, bad_message,
}
use ovcp.Controller.Mgmt.Blocks.{
  Block, connects, disconnects, says, write_blocks, all_wanted, read_loop-wanted,
}
use ovcp.Controller.Mgmt.Kill.{sessions_of, kill-Counted, kill-sent}
use ovcp.Controller.Ops.{
  Fault, failed, Lifecycle, TelegramStatus, ControlResult, verb_of, unknown_verb, run_op, run_verb,
  is_starting,
}
use ovcp.Controller.Ops.Effects.{Reports, run_op-idle, run_op-after, run_op-Reports}
use ovcp.Controller.Control.{Codec, Codecs, ControlDeps, kill_request, request_of, control}
use ovcp.Controller.Control.Requests.{write_request, request_of-write}
use ovcp.Controller.Control.Exchange.{IsCodec, op_view, control-run_op}

abbrev laptop : Row
laptop = record {
  cn = codes "ann";
  real = codes "192.0.2.7:1194";
  virtual = codes "10.8.0.2";
  virtual6 = [];
  received = codes "120";
  sent = codes "80";
  since = codes "today";
  since_unix = codes "1700";
  user = codes "UNDEF";
  cid = codes "0";
  pid = codes "1";
  more = codes "AES-256-GCM" ∷ [];
}

parse_status-clients_example :
    parse_status (map write_line (other (codes "TITLE") ∷ row laptop ∷ []) ++ end_line ∷ [])
    ≡ ok (clients (other (codes "TITLE") ∷ row laptop ∷ []))
unfolding trim_line has_prefix cut_prefix one_line all_lack lacks join text_discrete ℕ_discrete
parse_status-clients_example =
    parse_status-clients (other (codes "TITLE") ∷ row laptop ∷ []) []
      ((refl, refl), ((refl, refl), tt))

parse_status-torn_example : parse_status (write_line (row laptop) ∷ []) ≡ err torn_read
unfolding any trim_line text_discrete ℕ_discrete join
parse_status-torn_example = parse_status-torn (write_line (row laptop) ∷ []) refl

abbrev both : Handlers
both = record { on_established = true; on_disconnect = true }

abbrev blocks : List Block
blocks =
    connects (codes "3") (codes "1") ((codes "common_name", codes "ann") ∷ [])
    ∷ says (codes "SUCCESS: ok")
    ∷ disconnects (codes "3") ((codes "bytes_sent", codes "80") ∷ [])
    ∷ []

read_loop-wanted_example : read_loop both (write_blocks blocks) ≡ all_wanted both blocks
unfolding lacks one_line cut_prefix trim_line has_prefix
read_loop-wanted_example =
    read_loop-wanted both blocks (
      (refl, refl, ((refl, refl), tt)),
      ((refl, refl, refl, refl), ((refl, ((refl, refl), tt)), tt)),
    )

abbrev steady : Socket
steady = record { try_exec = λ (sent : List Text) (cmd : Text). fine }

abbrev ann : VpnClient
ann = record {
  cid = codes "0";
  cn = codes "ann";
  real_address = [];
  virtual_address = [];
  bytes_recv = 0;
  bytes_sent = 0;
  connected_since = none;
  cipher = [];
}

kill-Counted_case :
    let r = kill steady (codes "ann") (codes "HALT") (ann ∷ []) [] in
    ((r.0.1 ≡ ok tt → r.0.0 ≡ length (sessions_of (codes "ann") (ann ∷ [])))
      × (r.0.0 ≤ length (sessions_of (codes "ann") (ann ∷ []))))
    × (codes "HALT" ≢ codes "HALT"
        → codes "HALT" ≢ codes "RESTART"
        → r ≡ ((0, err bad_message), []))
kill-Counted_case = kill-Counted steady (codes "ann") (codes "HALT") (ann ∷ []) []

kill-sent_example :
    (kill steady (codes "ann") (codes "HALT") (ann ∷ []) []).1
    ≡ ([] ++ status_command ∷ [])
      ++ map (kill_command (codes "HALT")) (sessions_of (codes "ann") (ann ∷ []))
unfolding kill exec text_discrete ℕ_discrete
kill-sent_example =
    kill-sent steady (codes "ann") (codes "HALT") (ann ∷ []) [] (λ sent cmd. refl) refl refl

-- A worker whose state is its pid.
abbrev worker : Lifecycle ℕ
worker = record {
  start = λ (w : ℕ). (ok tt, 7);
  stop = λ (w : ℕ). (ok tt, 0);
  restart = λ (w : ℕ). (ok tt, 8);
  reconnect = λ (w : ℕ). (err (failed (codes "not running")), w);
  pid = λ (w : ℕ). w;
  started_at = λ (w : ℕ). 100;
}

run_op-idle_case : (run_op worker 1 (codes "status") true none 0).1 ≡ 0
unfolding verb_of text_discrete ℕ_discrete
run_op-idle_case = run_op-idle worker 1 (codes "status") true none 0 refl

run_op-after_case :
    (is_starting (verb_of (codes "stop")) ≡ false
      → run_op worker 1 (codes "stop") true (some worker.start) 5
        ≡ run_op worker 1 (codes "stop") true none 5)
    × ((e : Fault) (w2 : ℕ)
        → run_verb worker true (verb_of (codes "stop")) 5 ≡ (err e, w2)
        → run_op worker 1 (codes "stop") true (some worker.start) 5 ≡ (err e, w2))
run_op-after_case = run_op-after worker 1 (codes "stop") true (some worker.start) 5

run_op-Reports_case : Reports worker 0 (run_op worker 1 (codes "start") true none 0)
run_op-Reports_case = run_op-Reports worker 1 (codes "start") true none 0

request_of-write_example :
    request_of (write_request (kill_request (codes "ann") (codes "HALT")))
    ≡ kill_request (codes "ann") (codes "HALT")
unfolding lacks trim_space trim_left_space trim_right_space write_request
request_of-write_example = request_of-write (kill_request (codes "ann") (codes "HALT")) refl refl

-- A codec of four signs, none of them white space.
abbrev four_signs : ControlResult → Text
four_signs r =
    (r.pid + 100)
    ∷ (if r.changed then 101 else 100)
    ∷ (r.started_at + 100)
    ∷ (r.serve_started_at + 100)
    ∷ []

abbrev from_four : Text → Option ControlResult
from_four (a ∷ b ∷ c ∷ d ∷ []) =
    some (record {
      pid = a - 100;
      changed = b == 101;
      started_at = c - 100;
      serve_started_at = d - 100;
    })
from_four t = none

abbrev results : Codec ControlResult
results = record { encode = four_signs; decode = from_four }

results-IsCodec : IsCodec results
unfolding lacks trim_left_space trim_right_space
results-IsCodec r = ((ground arith, ground arith, ground arith, ground arith), ground arith)

abbrev codecs : Codecs
codecs = record {
  count = record { encode = λ (n : ℕ). (n + 100) ∷ []; decode = λ (t : Text). none };
  clients = record { encode = λ (l : List VpnClient). codes "none"; decode = λ (t : Text). none };
  result = results;
  telegram = record { encode = λ (s : TelegramStatus). codes "idle"; decode = λ (t : Text). none };
}

abbrev idle : TelegramStatus
idle = record {
  running = false;
  token_set = false;
  admin = [];
  chat_linked = false;
  changed = false;
}

abbrev deps : ControlDeps ℕ
deps = record {
  vpn = worker;
  dns = worker;
  mgmt_kill = λ (cn : Text) (msg : Text) (w : ℕ). (ok 1, w);
  mgmt_status = λ (w : ℕ). (ok [], w);
  set_debug = λ (on : Bool) (w : ℕ). w;
  telegram = record {
    start = λ (w : ℕ). (ok tt, w);
    stop = λ (w : ℕ). (ok tt, w);
    restart = λ (w : ℕ). (ok tt, w);
    status = λ (w : ℕ). idle;
  };
  upstream_rewrite = λ (cn : Text) (w : ℕ). (ok tt, w);
  upstream_reapply = λ (w : ℕ). (ok tt, w);
  serve_start = 1;
}

start-known : verb_of (codes "start") ≢ unknown_verb
unfolding verb_of text_discrete ℕ_discrete
start-known h = cc

control-run_op_example : control codecs deps (codes "start") 0 ≡ (
  op_view (run_op worker 1 (codes "start") true (some deps.upstream_reapply) 0).0,
  (run_op worker 1 (codes "start") true (some deps.upstream_reapply) 0).1,
)
unfolding run_op verb_of text_discrete ℕ_discrete
control-run_op_example = control-run_op codecs deps (codes "start") 0 results-IsCodec start-known tt
