-- ===== src/Telegram/Tests.antt =====
-- A command of the admin, one of a stranger, and a long text.
use ovcp.Base.{
  ℕ, zero, suc, ◌+◌, ◌≤◌, ◌≡◌, refl, ◌⊎◌, true, false, none, some, [], ◌∷◌, arith, ℕ_discrete,
  length, All, Text, codes, text_discrete, text_eq, ok, cut_prefix, trim_space, ◌++◌,
}
use ovcp.Base.{ℤ, pos, parse_int, digits_from}
use ovcp.Controller.Ops.{Lifecycle}
use ovcp.Telegram.Relinked.{set_admin-relinks}
use ovcp.Telegram.Poller.{
  Poller, set_admin, start, sender_of, matches, notify_chat, Words, Message, Update,
}
use ovcp.Telegram.Commands.{Workers, handle_command, fold_dns}
use ovcp.Telegram.Handled.{State, to_chat, handle}
use ovcp.Telegram.Obeyed.{Obeys, handle-Obeys, Starts, handle_command-asks}
use ovcp.Telegram.Updates.{Server, IsServer, Ascends, run_polls, take_all, poll, run_polls-Ascends}
use ovcp.Telegram.Messages.{max_message, byte_at, rune_start, send_message}
use ovcp.Telegram.Pieces.{HasRunes, Joins, send_message-Joins}

abbrev words : Words
words = record { equal_fold = text_eq; print_int = λ (k : ℤ). codes "42" }

abbrev worker : Lifecycle ℕ
worker = record {
  start = λ (w : ℕ). (ok tt, 7);
  stop = λ (w : ℕ). (ok tt, 0);
  restart = λ (w : ℕ). (ok tt, 8);
  reconnect = λ (w : ℕ). (ok tt, w);
  pid = λ (w : ℕ). w;
  started_at = λ (w : ℕ). 0;
}

abbrev workers : Workers ℕ
workers = record { vpn_worker = worker; dns_worker = worker }

abbrev state : State ℕ
state = record {
  settings = record { token = codes "t"; admin = codes "@ann"; chat = [] };
  world = 0;
  sent = [];
  acknowledged = [];
}

abbrev start_text : Message
start_text = record {
  chat_id = pos 42;
  from = record { id = pos 42; username = codes "ann" };
  text = codes "/start";
}

abbrev start_message : Update
start_message = record { update_id = 3; message = some start_text; callback = none }

handle-Obeys_example :
    Obeys words
      (codes "@ann")
      start_message
      state
      (handle words workers (codes "@ann") start_message state)
handle-Obeys_example = handle-Obeys words workers (codes "@ann") start_message state

handle_command-asks_example :
    ((handle_command workers (codes "/stop") 7).1 ≡ 7)
    ⊎ Starts workers 7 (handle_command workers (codes "/stop") 7).1
unfolding fold_dns cut_prefix text_discrete ℕ_discrete
handle_command-asks_example = handle_command-asks workers (codes "/stop") 7 refl

-- A server with one update for each poll that asks for it.
abbrev server : Server
server n k = some (record { update_id = k; message = none; callback = none } ∷ [])

server-IsServer : IsServer server
server-IsServer n k = (omega arith, tt)

run_polls-Ascends_example : Ascends 2 (1 ∷ 0 ∷ [])
unfolding run_polls poll take_all
run_polls-Ascends_example =
    run_polls-Ascends (λ (u : Update) (s : ℕ). some (s + 1)) server 2 0
      (record { offset = 2; fail_streak = 0; warnings = 0; seen = 1 ∷ 0 ∷ []; state = 2 })
      server-IsServer refl

unfoldable letters : ℕ → Text
letters zero = []
letters (suc n) = b'a' ∷ letters n

byte-letters : (i n : ℕ) → rune_start (byte_at i (letters n)) ≡ true
unfolding byte_at letters
byte-letters zero zero = refl
byte-letters (suc i) zero = refl
byte-letters zero (suc n) = refl
byte-letters (suc i) (suc n) = byte-letters i n

letters-HasRunes : (n : ℕ) → HasRunes (letters n)
letters-HasRunes n i = ground (arith, byte-letters i n)

send_message-Joins_example :
    All (λ p. length p ≤ max_message) (send_message (letters 5000))
    × Joins (send_message (letters 5000)) (letters 5000)
send_message-Joins_example = send_message-Joins (letters 5000) (letters-HasRunes 5000)

abbrev poller : Poller
poller = record { running = true; loop_token = codes "t"; loop_admin = codes "@ann" }

abbrev replaced : State ℕ
replaced = record state { settings = set_admin (codes "@eve") (state.settings) }

set_admin-relinks_example :
    (start false replaced.settings poller ≡ (ok tt, poller))
    × (s2 : State ℕ) × (handle words workers poller.loop_admin start_message replaced ≡ some s2)
    × (s2.world ≡ (handle_command workers (trim_space (codes "/start")) 0).1)
    × (s2.sent ≡ [] ++ to_chat (pos 42) (handle_command workers (trim_space (codes "/start")) 0).0)
    × (notify_chat s2.settings ≡ some (pos 42))
unfolding matches parse_int digits_from sender_of text_discrete ℕ_discrete
set_admin-relinks_example =
    set_admin-relinks words workers poller (codes "@eve") state start_message start_text
      (record { id = pos 42; username = codes "ann" }) (pos 42) refl (refl, refl) refl refl refl
      refl (refl, refl) (refl, refl)
