-- ===== src/Telegram/Poller.antt =====
-- internal/telegram/poller.go: the settings, `Poller`'s start and stop, and the sender of an update. An
-- update's id is a natural number. `SetToken` is what it does once the token has been accepted.
use ovcp.Base.{
  ℤ, pos, negsuc, parse_int, ℤ, parse_int, ℕ, Bool, true, false, not, ◌&&◌, ◌||◌, Option, none,
  some, [], ◌∷◌, ◌==◌, if◌then◌else◌, Text, text_discrete, text_eq, is_empty, Result, ok, err,
}

-- `strings.EqualFold` and `strconv.FormatInt`.
pub record Words : Type 0 where
  pub equal_fold : Text → Text → Bool
  pub print_int : ℤ → Text

-- The settings under `keyToken`, `keyAdmin` and `keyChat`; a missing one is empty.
pub record Settings : Type 0 where
  pub token : Text
  pub admin : Text
  pub chat : Text

-- `SetToken`
unfoldable pub set_token : Text → Settings → Settings
unfolding text_discrete
set_token token s =
    if text_eq token s.token
    then record s { token = token }
    else record s { token = token; chat = [] }

-- `SetAdmin`, without the message to the admin before.
unfoldable pub set_admin : Text → Settings → Settings
unfolding text_discrete
set_admin admin s =
    if text_eq admin s.admin
    then record s { admin = admin }
    else record s { admin = admin; chat = [] }

abbrev pub is_found : {A : Type 0} → Option A → Bool
is_found none = false
is_found (some a) = true

-- `isNumericID`
unfoldable pub is_numeric_id : Text → Bool
unfolding parse_int
is_numeric_id s = is_found (parse_int s)

-- `chatIDFor`
abbrev pub chat_or : Option ℤ → Text → Option ℤ
chat_or (some id) cached = some id
chat_or none cached = if is_empty cached then none else parse_int cached

unfoldable pub chat_id_for : Settings → Text → Option ℤ
unfolding parse_int
chat_id_for s admin = chat_or (parse_int admin) s.chat

-- `Notify`: the chat that the text goes to.
unfoldable pub notify_chat : Settings → Option ℤ
unfolding chat_id_for
notify_chat s = if is_empty s.admin || is_empty s.token then none else chat_id_for s s.admin

-- `ConfigStatus`'s ChatLinked.
unfoldable pub chat_linked : Settings → Bool
unfolding is_numeric_id
chat_linked s = is_numeric_id s.admin || not (is_empty s.chat)

-- The poller: whether it runs, and the token and the admin that its loop was started with.
pub record Poller : Type 0 where
  pub running : Bool
  pub loop_token : Text
  pub loop_admin : Text

pub data Error : Type 0 where
  busy not_configured : Error

-- `start`
unfoldable pub start_held : Settings → Poller → Result Error (Unit {0}) × Poller
start_held s p =
    if p.running
    then (ok tt, p)
    else if is_empty s.token || is_empty s.admin
    then (err not_configured, p)
    else (ok tt, record p { running = true; loop_token = s.token; loop_admin = s.admin })

-- `stop`
unfoldable pub stop_held : Poller → Poller
stop_held p = if p.running then record p { running = false } else p

-- `Start`, `Stop` and `Restart`; `held` is whether another operation has the mutex.
unfoldable pub start : Bool → Settings → Poller → Result Error (Unit {0}) × Poller
unfolding start_held
start held s p = if held then (err busy, p) else start_held s p

unfoldable pub stop : Bool → Poller → Result Error (Unit {0}) × Poller
unfolding stop_held
stop held p = if held then (err busy, p) else (ok tt, stop_held p)

unfoldable pub restart : Bool → Settings → Poller → Result Error (Unit {0}) × Poller
unfolding start_held stop_held
restart held s p = if held then (err busy, p) else start_held s (stop_held p)

pub record User : Type 0 where
  pub id : ℤ
  pub username : Text

pub record Message : Type 0 where
  pub chat_id : ℤ
  pub from : User
  pub text : Text

pub record CallbackQuery : Type 0 where
  pub id : Text
  pub from : User
  pub data_text : Text
  pub message : Option Message

pub record Update : Type 0 where
  pub update_id : ℕ
  pub message : Option Message
  pub callback : Option CallbackQuery

abbrev without_at : Text → Text
without_at [] = []
without_at (c ∷ cs) = if c == b'@' then cs else c ∷ cs

abbrev int_eq : ℤ → ℤ → Bool
int_eq (pos a) (pos b) = a == b
int_eq (negsuc a) (negsuc b) = a == b
int_eq (pos a) (negsuc b) = false
int_eq (negsuc a) (pos b) = false

abbrev matches_by : Words → Option ℤ → Text → User → Bool
matches_by w (some id) admin u = int_eq u.id id
matches_by w none admin u = not (is_empty u.username) && w.equal_fold (without_at admin) u.username

-- `matches`
unfoldable pub matches : Words → Text → User → Bool
unfolding parse_int
matches w admin u = matches_by w (parse_int admin) admin u

-- What `senderOf` finds: a sender and a chat, nobody, or a callback without a message, on which it panics.
pub data Sender : Type 0 where
  sender : User → ℤ → Sender
  nobody panics : Sender

abbrev callback_sender : CallbackQuery → Option Message → Sender
callback_sender c none = panics
callback_sender c (some m) = sender c.from m.chat_id

abbrev message_sender : Option Message → Sender
message_sender none = nobody
message_sender (some m) = sender m.from m.chat_id

-- `senderOf`
unfoldable pub sender_of : Update → Sender
sender_of u = elim u.callback [
  | some c ↦ callback_sender c c.message
  | none ↦ message_sender u.message
]
