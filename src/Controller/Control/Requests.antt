-- ===== src/Controller/Control/Requests.antt =====
-- That the line of a request is read back as that request.
use ovcp.Base.{
  ◌≡◌, refl, sym, ap, subst, ◌∙◌, ◌≢◌, ◌⊎◌, inl, inr, true, false, ◌∷◌, ◌++◌, arith, ℕ_discrete,
  trim_space, if◌then◌else◌, Text, codes, text_discrete, cut-found, cut_prefix, lacks,
}
use ovcp.Controller.Ops.{verb_of, unknown_verb}
use ovcp.Controller.Control.{
  Request, kill_request, clients_request, assign_request, reapply_request, telegram_request,
  debug_request, dns_request, vpn_request, kill_of, request_of_op, request_of,
}

-- The line of a request, without its line end.
unfoldable pub write_request : Request → Text
write_request (kill_request cn msg) = codes "kill " ++ (msg ++ (32 ∷ cn))
write_request clients_request = codes "clients"
write_request (assign_request cn) = codes "upstream-assign " ++ cn
write_request reapply_request = codes "upstream-reapply"
write_request (telegram_request verb) = codes "telegram-" ++ verb
write_request (debug_request on) = if on then codes "debug on" else codes "debug off"
write_request (dns_request verb) = codes "dns-" ++ verb
write_request (vpn_request verb) = verb

-- A message without a space, and a verb that `RunOp` knows.
abbrev pub IsRequest : Request → Type 0
IsRequest (kill_request cn msg) = lacks 32 msg ≡ true
IsRequest (vpn_request verb) = verb_of verb ≢ unknown_verb
IsRequest r = Unit

pub verb-cases :
    (v : Text)
    → verb_of v ≢ unknown_verb
    → (v ≡ codes "status")
      ⊎ (v ≡ codes "start")
      ⊎ (v ≡ codes "stop")
      ⊎ (v ≡ codes "restart")
      ⊎ (v ≡ codes "reconnect")
unfolding verb_of
verb-cases v n = elim (text_discrete v (codes "status")) [
  | yes e ↦ inl e
  | no a ↦ elim (text_discrete v (codes "start")) [
    | yes e ↦ inr (inl e)
    | no b ↦ elim (text_discrete v (codes "stop")) [
      | yes e ↦ inr (inr (inl e))
      | no c ↦ elim (text_discrete v (codes "restart")) [
        | yes e ↦ inr (inr (inr (inl e)))
        | no d ↦ elim (text_discrete v (codes "reconnect")) [
          | yes e ↦ inr (inr (inr (inr e)))
          | no f ↦ absurd (n (ground arith))
        ]
      ]
    ]
  ]
]

op-verb : (v : Text) → verb_of v ≢ unknown_verb → request_of_op v ≡ vpn_request v
unfolding request_of_op cut_prefix text_discrete ℕ_discrete
op-verb v n = elim (verb-cases v n) [
  | inl e ↦ subst (λ t. request_of_op t ≡ vpn_request t) (sym e) refl
  | inr (inl e) ↦ subst (λ t. request_of_op t ≡ vpn_request t) (sym e) refl
  | inr (inr (inl e)) ↦ subst (λ t. request_of_op t ≡ vpn_request t) (sym e) refl
  | inr (inr (inr (inl e))) ↦ subst (λ t. request_of_op t ≡ vpn_request t) (sym e) refl
  | inr (inr (inr (inr e))) ↦ subst (λ t. request_of_op t ≡ vpn_request t) (sym e) refl
]

op-write : (r : Request) → IsRequest r → request_of_op (write_request r) ≡ r
unfolding request_of_op write_request cut_prefix text_discrete ℕ_discrete
op-write (kill_request cn msg) h = ap kill_of (cut-found 32 msg cn h)
op-write clients_request h = refl
op-write (assign_request cn) h = refl
op-write reapply_request h = refl
op-write (telegram_request verb) h = refl
op-write (debug_request true) h = refl
op-write (debug_request false) h = refl
op-write (dns_request verb) h = refl
op-write (vpn_request verb) h = op-verb verb h

-- The line of each request is read back as it: `serveControlConn` trims the line, and its tests never
-- mistake one op for another, if the line has no white space at its ends to trim (so the name to assign is
-- not empty), a kill's message has no space and a verb for openvpn is one of the five.
pub request_of-write :
    (r : Request)
    → IsRequest r
    → trim_space (write_request r) ≡ write_request r
    → request_of (write_request r) ≡ r
unfolding request_of
request_of-write r h e = ap request_of_op e ∙ op-write r h
