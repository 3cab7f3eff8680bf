-- ===== src/Telegram/Commands.antt =====
-- internal/telegram/poller.go: `handleCommand`. A label's first sign is written as its bytes of UTF-8, and
-- an answer by what it is about, not by its words.
use ovcp.Base.{
  Option, none, some, List, [], ◌∷◌, ◌++◌, if◌then◌else◌, Text, codes, text_discrete, text_eq,
  Result, trim_space, cut_prefix,
}
use ovcp.Controller.Ops.{Fault, Lifecycle}

pub data Worker : Type 0 where
  vpn dns : Worker

pub data Action : Type 0 where
  report_status hand_menu report_dns report_certs cancel ignore : Action
  start_worker ask_stop ask_restart stop_worker restart_worker : Worker → Action
  reconnect_vpn : Action

abbrev pub lbl_start : Text
lbl_start = 226 ∷ 150 ∷ 182 ∷ codes " start"

abbrev pub lbl_stop : Text
lbl_stop = 226 ∷ 143 ∷ 185 ∷ codes " stop"

abbrev pub lbl_restart : Text
lbl_restart = 240 ∷ 159 ∷ 148 ∷ 132 ∷ codes " restart"

abbrev pub lbl_reconnect : Text
lbl_reconnect = 240 ∷ 159 ∷ 148 ∷ 140 ∷ codes " reconnect"

abbrev pub lbl_status : Text
lbl_status = 240 ∷ 159 ∷ 147 ∷ 138 ∷ codes " status"

abbrev pub lbl_dns : Text
lbl_dns = 240 ∷ 159 ∷ 140 ∷ 144 ∷ codes " dns"

abbrev pub lbl_certs : Text
lbl_certs = 240 ∷ 159 ∷ 147 ∷ 156 ∷ codes " certs"

-- The cases of the switch, in their order.
abbrev pub cases : List (Text × Action)
cases =
    (codes "/status", report_status)
    ∷ (codes "status", report_status)
    ∷ (lbl_status, report_status)
    ∷ (codes "/menu", hand_menu)
    ∷ (codes "menu", hand_menu)
    ∷ (codes "/start", start_worker vpn)
    ∷ (codes "start", start_worker vpn)
    ∷ (lbl_start, start_worker vpn)
    ∷ (codes "/stop", ask_stop vpn)
    ∷ (codes "stop", ask_stop vpn)
    ∷ (lbl_stop, ask_stop vpn)
    ∷ (codes "/restart", ask_restart vpn)
    ∷ (codes "restart", ask_restart vpn)
    ∷ (lbl_restart, ask_restart vpn)
    ∷ (codes "/reconnect", reconnect_vpn)
    ∷ (codes "reconnect", reconnect_vpn)
    ∷ (lbl_reconnect, reconnect_vpn)
    ∷ (codes "vpn_stop_confirm", stop_worker vpn)
    ∷ (codes "vpn_restart_confirm", restart_worker vpn)
    ∷ (codes "/dns", report_dns)
    ∷ (codes "dns", report_dns)
    ∷ (lbl_dns, report_dns)
    ∷ (codes "/certs", report_certs)
    ∷ (codes "certs", report_certs)
    ∷ (lbl_certs, report_certs)
    ∷ (codes "dns_start", start_worker dns)
    ∷ (codes "dns_stop", ask_stop dns)
    ∷ (codes "dns_restart", ask_restart dns)
    ∷ (codes "dns_stop_confirm", stop_worker dns)
    ∷ (codes "dns_restart_confirm", restart_worker dns)
    ∷ (codes "cancel", cancel)
    ∷ []

unfoldable pub case_of : List (Text × Action) → Text → Action
unfolding text_discrete
case_of [] cmd = ignore
case_of ((t, a) ∷ rest) cmd = let later = case_of rest cmd in if text_eq cmd t then a else later

abbrev folded : Text → Option Text → Text
folded cmd none = cmd
folded cmd (some arg) = codes "dns_" ++ trim_space arg

-- "/dns start" is "dns_start".
unfoldable pub fold_dns : Text → Text
unfolding cut_prefix trim_space
fold_dns cmd = folded cmd (cut_prefix (codes "/dns ") cmd)

unfoldable pub action_of : Text → Action
unfolding case_of fold_dns
action_of cmd = case_of cases (fold_dns cmd)

-- What the bot answers: a report, the question before a stop or a restart, or how the call went.
pub data Answer : Type 0 where
  status_report menu dns_report certs_report cancelled : Answer
  question : Action → Answer
  went : Action → Result Fault (Unit {0}) → Answer

pub record Workers (W : Type 0) : Type 0 where
  pub vpn_worker : Lifecycle W
  pub dns_worker : Lifecycle W

abbrev pub worker_of : {W : Type 0} → Workers W → Worker → Lifecycle W
worker_of p vpn = p.vpn_worker
worker_of p dns = p.dns_worker

abbrev pub answered : {W : Type 0} → Action → Result Fault (Unit {0}) × W → List Answer × W
answered a (r, w) = (went a r ∷ [], w)

unfoldable pub perform : {W : Type 0} → Workers W → Action → W → List Answer × W
perform p report_status w = (status_report ∷ [], w)
perform p hand_menu w = (menu ∷ [], w)
perform p report_dns w = (dns_report ∷ [], w)
perform p report_certs w = (certs_report ∷ [], w)
perform p cancel w = (cancelled ∷ [], w)
perform p ignore w = ([], w)
perform p (start_worker k) w = answered (start_worker k) ((worker_of p k).start w)
perform p (ask_stop k) w = (question (stop_worker k) ∷ [], w)
perform p (ask_restart k) w = (question (restart_worker k) ∷ [], w)
perform p (stop_worker k) w = answered (stop_worker k) ((worker_of p k).stop w)
perform p (restart_worker k) w = answered (restart_worker k) ((worker_of p k).restart w)
perform p reconnect_vpn w = answered reconnect_vpn (p.vpn_worker.reconnect w)

-- `handleCommand`
unfoldable pub handle_command : {W : Type 0} → Workers W → Text → W → List Answer × W
unfolding perform action_of
handle_command p cmd w = perform p (action_of cmd) w
