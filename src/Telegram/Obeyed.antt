-- ===== src/Telegram/Obeyed.antt =====
-- Whom the bot obeys, and what it asks first.
use ovcp.Base.{
  ◌≡◌, refl, sym, ap, subst, ◌⊎◌, inl, inr, Bool, true, false, not, ◌&&◌, ◌||◌, Option, none, some,
  List, [], ◌∷◌, ◌++◌, arith, ℕ_discrete, if◌then◌else◌, Bool-cases, if-intro, any, Text, codes,
  text_discrete, text_eq, trim_space,
}
use ovcp.Base.{ℤ, is_zero}
use ovcp.Telegram.Poller.{
  Words, User, Message, Update, matches, Sender, sender, nobody, panics, sender_of,
}
use ovcp.Telegram.Commands.{
  Worker, Action, report_status, hand_menu, report_dns, report_certs, cancel, ignore, start_worker,
  ask_stop, ask_restart, stop_worker, restart_worker, reconnect_vpn, cases, case_of, fold_dns,
  action_of, Answer, Workers, worker_of, perform, handle_command,
}
use ovcp.Telegram.Handled.{
  State, to_chat, handle_text, link_chat, acknowledge, handle_known, handle_from, handle,
}

append_none : (xs : List (ℤ × Answer)) → xs ≡ xs ++ []
append_none [] = refl
append_none (x ∷ xs) = ap (λ t. x ∷ t) (append_none xs)

-- The settings stay, and what is sent goes to the chat.
abbrev pub Answers : {W : Type 0} → ℤ → State W → State W → Type 0
Answers chat s s2 =
    (s2.settings ≡ s.settings) × (new : List Answer) × (s2.sent ≡ s.sent ++ to_chat chat new)

handle_text-Answers :
    {W : Type 0} (p : Workers W) (chat : ℤ) (cmd : Text) (s : State W)
    → Answers chat s (handle_text p chat cmd s)
unfolding handle_text
handle_text-Answers p chat cmd s = (refl, (handle_command p cmd s.world).0, refl)

message-Answers :
    {W : Type 0} (p : Workers W) (chat : ℤ) (m : Option Message) (s : State W)
    → Answers chat s (elim m [ some t ↦ handle_text p chat (trim_space t.text) s | none ↦ s ])
message-Answers p chat (some t) s = handle_text-Answers p chat (trim_space t.text) s
message-Answers p chat none s = (refl, [], append_none s.sent)

pub handle_known-Answers :
    {W : Type 0} (p : Workers W) (chat : ℤ) (u : Update) (s : State W)
    → Answers chat s (handle_known p chat u s)
handle_known-Answers p chat u s =
    elim u.callback
      as (λ o. Answers chat s (elim o [
        | some c ↦ handle_text p chat c.data_text (acknowledge c.id s)
        | none ↦ elim u.message [ some m ↦ handle_text p chat (trim_space m.text) s | none ↦ s ]
      ])) [
        | some c ↦ handle_text-Answers p chat c.data_text (acknowledge c.id s)
        | none ↦ message-Answers p chat u.message s
      ]

-- What an update may lead to.
abbrev pub Obeys : {W : Type 0} → Words → Text → Update → State W → Option (State W) → Type 0
Obeys w admin u s none = sender_of u ≡ panics
Obeys w admin u s (some s2) =
    (s2 ≡ s)
    ⊎ ((from : User) × (chat : ℤ) × (sender_of u ≡ sender from chat)
        × (matches w admin from ≡ true)
        × (s2.settings ≡ record (s.settings) { chat = w.print_int chat })
        × (new : List Answer) × (s2.sent ≡ s.sent ++ to_chat chat new))

known-Obeys :
    {W : Type 0} (w : Words) (p : Workers W) (admin : Text) (u : Update) (s : State W) (from : User)
    (chat : ℤ)
    → sender_of u ≡ sender from chat
    → Obeys w admin u s (handle_from w p admin u s (sender from chat))
known-Obeys w p admin u s from chat e =
    if-intro (Obeys w admin u s) (is_zero from.id) (some s) _ (inl refl)
      (elim (Bool-cases (matches w admin from)) [
        | inl m ↦
            let (same, new, sent) = handle_known-Answers p chat u (link_chat w chat s) in
            subst
              (λ b.
                Obeys w admin u s
                  (if not b then some s else some (handle_known p chat u (link_chat w chat s))))
              (sym m) (inr (from, chat, e, m, same, new, sent))
        | inr m ↦
            subst
              (λ b.
                Obeys w admin u s
                  (if not b then some s else some (handle_known p chat u (link_chat w chat s))))
              (sym m) (inl refl)
      ])

from-Obeys :
    {W : Type 0} (w : Words) (p : Workers W) (admin : Text) (u : Update) (s : State W) (f : Sender)
    → sender_of u ≡ f
    → Obeys w admin u s (handle_from w p admin u s f)
from-Obeys w p admin u s nobody e = inl refl
from-Obeys w p admin u s panics e = e
from-Obeys w p admin u s (sender from chat) e = known-Obeys w p admin u s from chat e

-- An update changes nothing and gets no answer, or its sender is the admin: then his chat is the one
-- remembered, no other setting changes, and every answer goes to that chat. Only an update whose callback
-- has no message makes the handler panic, whoever sent it.
pub handle-Obeys :
    {W : Type 0} (w : Words) (p : Workers W) (admin : Text) (u : Update) (s : State W)
    → Obeys w admin u s (handle w p admin u s)
unfolding handle
handle-Obeys w p admin u s = from-Obeys w p admin u s (sender_of u) refl

-- The callbacks of the two buttons that say yes, for each worker.
abbrev pub is_confirmation : Text → Bool
is_confirmation t =
    text_eq t (codes "vpn_stop_confirm")
    || text_eq t (codes "vpn_restart_confirm")
    || text_eq t (codes "dns_stop_confirm")
    || text_eq t (codes "dns_restart_confirm")

abbrev pub is_gentle : Action → Bool
is_gentle (stop_worker k) = false
is_gentle (restart_worker k) = false
is_gentle a = true

abbrev is_rough : Text × Action → Bool
is_rough c = not (is_gentle c.1) && not (is_confirmation c.0)

cases-gentle : any is_rough cases ≡ false
unfolding any text_discrete ℕ_discrete
cases-gentle = refl

head-gentle :
    (c : Text × Action) (cs : List (Text × Action))
    → any is_rough (c ∷ cs) ≡ false
    → is_rough c ≡ false
unfolding any
head-gentle c cs h = ground arith

tail-gentle :
    (c : Text × Action) (cs : List (Text × Action))
    → any is_rough (c ∷ cs) ≡ false
    → any is_rough cs ≡ false
unfolding any
tail-gentle c cs h = ground arith

gentle-case :
    (k : Text) (a : Action)
    → is_confirmation k ≡ false
    → is_rough (k, a) ≡ false
    → is_gentle a ≡ true
gentle-case k a n h = elim (Bool-cases (is_gentle a)) [ inl g ↦ g | inr g ↦ absurd (ground arith) ]

text_ne : (t k : Text) → ¬ (t ≡ k) → text_eq t k ≡ false
text_ne t k d = ground arith

case_of-gentle :
    (cs : List (Text × Action)) (t : Text)
    → any is_rough cs ≡ false
    → is_confirmation t ≡ false
    → is_gentle (case_of cs t) ≡ true
unfolding case_of any
case_of-gentle [] t h n = refl
case_of-gentle ((k, a) ∷ cs) t h n = elim (text_discrete t k) [
  | yes e ↦
      let q : is_confirmation k ≡ false = subst (λ x. is_confirmation x ≡ false) e n in
      if-intro (λ x. is_gentle x ≡ true) (text_eq t k) a (case_of cs t)
        (gentle-case k a q (head-gentle (k, a) cs h))
        (case_of-gentle cs t (tail-gentle (k, a) cs h) n)
  | no d ↦
      subst (λ b. is_gentle (if b then a else case_of cs t) ≡ true) (sym (text_ne t k d))
        (case_of-gentle cs t (tail-gentle (k, a) cs h) n)
]

-- Starting a worker, or the signal to reconnect.
abbrev pub Starts : {W : Type 0} → Workers W → W → W → Type 0
Starts p w w2 =
    ((k : Worker) × (w2 ≡ ((worker_of p k).start w).1)) ⊎ (w2 ≡ (p.vpn_worker.reconnect w).1)

perform-gentle :
    {W : Type 0} (p : Workers W) (a : Action) (w : W)
    → is_gentle a ≡ true
    → ((perform p a w).1 ≡ w) ⊎ Starts p w (perform p a w).1
unfolding perform
perform-gentle p report_status w h = inl refl
perform-gentle p hand_menu w h = inl refl
perform-gentle p report_dns w h = inl refl
perform-gentle p report_certs w h = inl refl
perform-gentle p cancel w h = inl refl
perform-gentle p ignore w h = inl refl
perform-gentle p (start_worker k) w h = inr (inl (k, refl))
perform-gentle p (ask_stop k) w h = inl refl
perform-gentle p (ask_restart k) w h = inl refl
perform-gentle p (stop_worker k) w h = absurd (ground arith)
perform-gentle p (restart_worker k) w h = absurd (ground arith)
perform-gentle p reconnect_vpn w h = inr (inr refl)

-- A command that is not one of the four confirmations, after `/dns ` has been folded, stops and restarts no
-- worker: it leaves the workers as they are, starts one, or tells openvpn to reconnect.
pub handle_command-asks :
    {W : Type 0} (p : Workers W) (cmd : Text) (w : W)
    → is_confirmation (fold_dns cmd) ≡ false
    → ((handle_command p cmd w).1 ≡ w) ⊎ Starts p w (handle_command p cmd w).1
unfolding handle_command action_of
handle_command-asks p cmd w n =
    perform-gentle p (action_of cmd) w (case_of-gentle cases (fold_dns cmd) cases-gentle n)
