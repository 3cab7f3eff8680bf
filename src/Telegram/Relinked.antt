-- ===== src/Telegram/Relinked.antt =====
-- What a change of the admin leaves behind while the poller runs.
use ovcp.Base.{
  ◌≡◌, refl, sym, ap, subst, ◌∙◌, true, false, ◌||◌, none, some, if◌then◌else◌, if-intro, Text,
  text_eq, is_empty, ok, ◌++◌, trim_space,
}
use ovcp.Base.{ℤ, is_zero, parse_int}
use ovcp.Telegram.Poller.{
  Words, Settings, Poller, User, Message, Update, set_admin, start_held, start, chat_or,
  chat_id_for, notify_chat, matches, sender, sender_of,
}
use ovcp.Telegram.Commands.{Workers, handle_command}
use ovcp.Telegram.Handled.{
  State, to_chat, handle_text, link_chat, handle_known, handle_from, handle,
}
use ovcp.Telegram.Obeyed.{handle_known-Answers}

set_admin-fields :
    (new : Text) (s : Settings)
    → ((set_admin new s).admin ≡ new) × ((set_admin new s).token ≡ s.token)
unfolding set_admin
set_admin-fields new s =
    if-intro (λ (k : Settings). (k.admin ≡ new) × (k.token ≡ s.token)) (text_eq new s.admin) _ _
      (refl, refl) (refl, refl)

notify-linked :
    (s : Settings) (new cached : Text) (chat : ℤ)
    → (s.admin ≡ new) × (is_empty s.token ≡ false)
    → (parse_int new ≡ none) × (is_empty new ≡ false)
    → (parse_int cached ≡ some chat) × (is_empty cached ≡ false)
    → notify_chat (record s { chat = cached }) ≡ some chat
unfolding notify_chat chat_id_for
notify-linked s new cached chat (a, t) (n, e) (c, f) =
    subst
      (λ k.
        (if is_empty k || is_empty s.token then none else chat_or (parse_int k) cached) ≡ some chat)
      (sym a) (rw (e, t, n, f) c)

start-running : (s : Settings) (p : Poller) → p.running ≡ true → start false s p ≡ (ok tt, p)
unfolding start start_held
start-running s p h = rw h refl

handle-known :
    {W : Type 0} (w : Words) (p : Workers W) (admin : Text) (u : Update) (s : State W) (from : User)
    (chat : ℤ)
    → sender_of u ≡ sender from chat
    → is_zero from.id ≡ false
    → matches w admin from ≡ true
    → handle w p admin u s ≡ some (handle_known p chat u (link_chat w chat s))
unfolding handle
handle-known w p admin u s from chat e z m = ap (handle_from w p admin u s) e ∙ rw (z, m) refl

-- What a text message does once its sender is known as the admin: its command, answered to his chat.
known-performs :
    {W : Type 0} (p : Workers W) (chat : ℤ) (u : Update) (m : Message) (s : State W)
    → u.callback ≡ none
    → u.message ≡ some m
    → ((handle_known p chat u s).world ≡ (handle_command p (trim_space m.text) s.world).1)
      × ((handle_known p chat u s).sent
          ≡ s.sent ++ to_chat chat (handle_command p (trim_space m.text) s.world).0)
unfolding handle_text
known-performs p chat u m s c e = rw (c, e) (refl, refl)

-- With a token set and a chat id that reads back as it prints: while the poller runs, `SetAdmin` does not
-- reach it, and `Start` does nothing: the command in a text message
-- of the admin that was replaced is still carried out on the workers and answered to his chat, and after it
-- the notifications for the new admin, known by name, go to the chat of the old one.
pub set_admin-relinks :
    {W : Type 0} (w : Words) (p : Workers W) (poller : Poller) (new : Text) (s : State W)
    (u : Update) (m : Message) (from : User) (chat : ℤ)
    → poller.running ≡ true
    → (u.callback ≡ none) × (u.message ≡ some m)
    → sender_of u ≡ sender from chat
    → is_zero from.id ≡ false
    → matches w poller.loop_admin from ≡ true
    → is_empty s.settings.token ≡ false
    → (parse_int new ≡ none) × (is_empty new ≡ false)
    → (parse_int (w.print_int chat) ≡ some chat) × (is_empty (w.print_int chat) ≡ false)
    → let s1 : State W = record s { settings = set_admin new s.settings } in
      (start false s1.settings poller ≡ (ok tt, poller))
      × (s2 : State W) × (handle w p poller.loop_admin u s1 ≡ some s2)
      × (s2.world ≡ (handle_command p (trim_space m.text) s.world).1)
      × (s2.sent ≡ s.sent ++ to_chat chat (handle_command p (trim_space m.text) s.world).0)
      × (notify_chat s2.settings ≡ some chat)
set_admin-relinks w p poller new s u m from chat r (d, g) e z k0 t n c =
    let s1 : State _ = record s { settings = set_admin new s.settings } in
    let (a, k) = set_admin-fields new s.settings in
    let done = known-performs p chat u m (link_chat w chat s1) d g in
    let (same, more, sent) = handle_known-Answers p chat u (link_chat w chat s1) in
    (
      start-running s1.settings poller r,
      handle_known p chat u (link_chat w chat s1),
      handle-known w p poller.loop_admin u s1 from chat e z k0,
      done.0,
      done.1,
      ap notify_chat same
          ∙ notify-linked s1.settings new (w.print_int chat) chat (a, ap is_empty k ∙ t) n c,
    )
