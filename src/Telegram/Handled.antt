-- ===== src/Telegram/Handled.antt =====
-- internal/telegram/poller.go: `handle`, who it listens to, and what is asked before a worker goes down.
use ovcp.Base.{not, Option, none, some, List, ◌∷◌, ◌++◌, map, if◌then◌else◌, Text, trim_space}
use ovcp.Base.{ℤ, is_zero}
use ovcp.Telegram.Poller.{
  Words, Settings, Update, matches, Sender, sender, nobody, panics, sender_of,
}
use ovcp.Telegram.Commands.{Answer, Workers, handle_command}

-- The settings, the workers, the messages sent and the callbacks answered.
pub record State (W : Type 0) : Type 0 where
  pub settings : Settings
  pub world : W
  pub sent : List (ℤ × Answer)
  pub acknowledged : List Text

abbrev pub to_chat : ℤ → List Answer → List (ℤ × Answer)
to_chat chat = map (λ a. (chat, a))

unfoldable pub handle_text : {W : Type 0} → Workers W → ℤ → Text → State W → State W
unfolding handle_command
handle_text p chat cmd s = record s {
  world = (handle_command p cmd s.world).1;
  sent = s.sent ++ to_chat chat (handle_command p cmd s.world).0;
}

-- The chat is remembered.
abbrev pub link_chat : {W : Type 0} → Words → ℤ → State W → State W
link_chat w chat s = record s { settings = record (s.settings) { chat = w.print_int chat } }

abbrev pub acknowledge : {W : Type 0} → Text → State W → State W
acknowledge id s = record s { acknowledged = id ∷ s.acknowledged }

abbrev pub handle_known : {W : Type 0} → Workers W → ℤ → Update → State W → State W
handle_known p chat u s = elim u.callback [
  | some c ↦ handle_text p chat c.data_text (acknowledge c.id s)
  | none ↦ elim u.message [ some m ↦ handle_text p chat (trim_space m.text) s | none ↦ s ]
]

abbrev pub handle_from :
    {W : Type 0} → Words → Workers W → Text → Update → State W → Sender → Option (State W)
handle_from w p admin u s nobody = some s
handle_from w p admin u s panics = none
handle_from w p admin u s (sender from chat) =
    if is_zero from.id
    then some s
    else if not (matches w admin from)
    then some s
    else some (handle_known p chat u (link_chat w chat s))

-- `handle`, for the admin that the loop was started with; nothing where it panics.
unfoldable pub handle :
    {W : Type 0} → Words → Workers W → Text → Update → State W → Option (State W)
unfolding handle_text sender_of matches trim_space
handle w p admin u s = handle_from w p admin u s (sender_of u)
