-- ===== src/Controller/Mgmt/Kill.antt =====
-- Whom `Kill` reaches, and how often a command is written.
use ovcp.Base.{
  ℕ, suc, ◌+◌, ◌≤◌, ◌≡◌, refl, sym, ap, ◌∙◌, ◌≢◌, ◌⊎◌, inl, inr, true, false, not, ◌&&◌, ◌||◌, List,
  [], ◌∷◌, ◌++◌, map, arith, Bool-cases, if-intro, length, keep, Text, codes, text_eq, Result, ok,
  err,
}
use ovcp.Controller.Status.{VpnClient}
use ovcp.Controller.Mgmt.{
  Outcome, fine, refused, broken, Socket, Error, bad_message, exec, status_command, kill_command,
  answer_of, is_broken, kill_next, kill_all, kill_live, kill,
}

-- A command is written once, or twice where the first try broke the connection; the answer is that of
-- the last try, and openvpn's own refusal is not tried again.
pub exec-tries :
    (s : Socket) (cmd : Text) (sent : List Text)
    → ((is_broken (s.try_exec sent cmd) ≡ false)
        × (exec s cmd sent ≡ (answer_of (s.try_exec sent cmd), sent ++ cmd ∷ [])))
      ⊎ ((is_broken (s.try_exec sent cmd) ≡ true)
          × (exec s cmd sent
              ≡ (answer_of (s.try_exec (sent ++ cmd ∷ []) cmd), (sent ++ cmd ∷ []) ++ cmd ∷ [])))
unfolding exec
exec-tries s cmd sent = elim (Bool-cases (is_broken (s.try_exec sent cmd))) [
  | inl lost ↦ inr (lost, ground arith)
  | inr there ↦ inl (there, ground arith)
]

-- The sessions of the CN.
abbrev pub sessions_of : Text → List VpnClient → List VpnClient
sessions_of cn = keep (λ v. text_eq v.cn cn)

abbrev Counted : ℕ → ℕ → (ℕ × Result Error (Unit {0})) × List Text → Type 0
Counted n m r = (r.0.1 ≡ ok tt → r.0.0 ≡ n + m) × (r.0.0 ≤ n + m)

kill_next-Counted :
    (next : ℕ → List Text → (ℕ × Result Error (Unit {0})) × List Text) (n m : ℕ)
    (r : Result Error (Unit {0}) × List Text)
    → ((k : ℕ) (sent : List Text) → Counted k m (next k sent))
    → Counted n (suc m) (kill_next next n r)
kill_next-Counted next n m (ok u, sent) h =
    let (all, most) = h (n + 1) sent in (λ e. omega (arith, all e), omega arith)
kill_next-Counted next n m (err e, sent) h = (λ q. absurd (ground arith), omega arith)

kill_all-Counted :
    (s : Socket) (cn msg : Text) (vs : List VpnClient) (n : ℕ) (sent : List Text)
    → Counted n (length (sessions_of cn vs)) (kill_all s cn msg vs n sent)
unfolding kill_all keep
kill_all-Counted s cn msg [] n sent = (λ h. omega arith, omega arith)
kill_all-Counted s cn msg (v ∷ vs) n sent = elim (Bool-cases (text_eq v.cn cn)) [
  | inl his ↦ rw his (
      kill_next-Counted (kill_all s cn msg vs) n (length (sessions_of cn vs))
        (exec s (kill_command msg v) sent) (λ k sent'. kill_all-Counted s cn msg vs k sent'))
  | inr other ↦ rw other (kill_all-Counted s cn msg vs n sent)
]

kill_live-Counted :
    (s : Socket) (cn msg : Text) (live : List VpnClient) (r : Result Error (Unit {0}) × List Text)
    → Counted 0 (length (sessions_of cn live)) (kill_live s cn msg live r)
kill_live-Counted s cn msg live (ok u, asked) = kill_all-Counted s cn msg live 0 asked
kill_live-Counted s cn msg live (err e, asked) = (λ q. absurd (ground arith), omega arith)

bad-kill :
    (s : Socket) (cn msg : Text) (live : List VpnClient) (sent : List Text)
    → msg ≢ codes "HALT"
    → msg ≢ codes "RESTART"
    → kill s cn msg live sent ≡ ((0, err bad_message), sent)
unfolding kill
bad-kill s cn msg live sent a b = ground arith

-- The number that `Kill` returns never exceeds the live sessions of the CN, and is their number where it
-- returns no error; and a message other than HALT and RESTART is refused before anything is written.
pub kill-Counted :
    (s : Socket) (cn msg : Text) (live : List VpnClient) (sent : List Text)
    → let r = kill s cn msg live sent in
      ((r.0.1 ≡ ok tt → r.0.0 ≡ length (sessions_of cn live))
        × (r.0.0 ≤ length (sessions_of cn live)))
      × (msg ≢ codes "HALT" → msg ≢ codes "RESTART" → r ≡ ((0, err bad_message), sent))
unfolding kill
kill-Counted s cn msg live sent =
    let counted : Counted 0 (length (sessions_of cn live)) (kill s cn msg live sent) =
      if-intro (Counted 0 (length (sessions_of cn live)))
        (not (text_eq msg (codes "HALT")) && not (text_eq msg (codes "RESTART")))
        ((0, err bad_message), sent) (kill_live s cn msg live (exec s status_command sent))
        (λ q. absurd (ground arith), omega arith)
        (kill_live-Counted s cn msg live (exec s status_command sent)) in
    let (all, most) = counted in
    ((λ e. omega (arith, all e), omega (arith, most)), λ a b. bad-kill s cn msg live sent a b)

-- A socket on which no connection breaks.
abbrev pub Steady : Socket → Type 0
Steady s = (sent : List Text) (cmd : Text) → is_broken (s.try_exec sent cmd) ≡ false

append_assoc : (xs ys zs : List Text) → (xs ++ ys) ++ zs ≡ xs ++ (ys ++ zs)
append_assoc [] ys zs = refl
append_assoc (x ∷ xs) ys zs = ap (λ t. x ∷ t) (append_assoc xs ys zs)

append_nil : (xs : List Text) → xs ≡ xs ++ []
append_nil [] = refl
append_nil (x ∷ xs) = ap (λ t. x ∷ t) (append_nil xs)

exec-Steady :
    (s : Socket) (cmd : Text) (sent : List Text)
    → Steady s
    → exec s cmd sent ≡ (answer_of (s.try_exec sent cmd), sent ++ cmd ∷ [])
unfolding exec
exec-Steady s cmd sent h = ground (arith, h sent cmd)

kill_next-ok :
    (next : ℕ → List Text → (ℕ × Result Error (Unit {0})) × List Text) (n : ℕ) (a : Outcome)
    (sent : List Text)
    → (kill_next next n (answer_of a, sent)).0.1 ≡ ok tt
    → kill_next next n (answer_of a, sent) ≡ next (n + 1) sent
kill_next-ok next n fine sent e = refl
kill_next-ok next n refused sent e = absurd (ground arith)
kill_next-ok next n broken sent e = absurd (ground arith)

kill_all-his :
    (s : Socket) (cn msg : Text) (v : VpnClient) (vs : List VpnClient) (n : ℕ) (sent : List Text)
    → text_eq v.cn cn ≡ true
    → kill_all s cn msg (v ∷ vs) n sent
      ≡ kill_next (kill_all s cn msg vs) n (exec s (kill_command msg v) sent)
unfolding kill_all
kill_all-his s cn msg v vs n sent his = rw his refl

kill_all-other :
    (s : Socket) (cn msg : Text) (v : VpnClient) (vs : List VpnClient) (n : ℕ) (sent : List Text)
    → text_eq v.cn cn ≡ false
    → kill_all s cn msg (v ∷ vs) n sent ≡ kill_all s cn msg vs n sent
unfolding kill_all
kill_all-other s cn msg v vs n sent other = rw other refl

sessions-his :
    (cn : Text) (v : VpnClient) (vs : List VpnClient)
    → text_eq v.cn cn ≡ true
    → sessions_of cn (v ∷ vs) ≡ v ∷ sessions_of cn vs
unfolding keep
sessions-his cn v vs his = rw his refl

sessions-other :
    (cn : Text) (v : VpnClient) (vs : List VpnClient)
    → text_eq v.cn cn ≡ false
    → sessions_of cn (v ∷ vs) ≡ sessions_of cn vs
unfolding keep
sessions-other cn v vs other = rw other refl

kill_all-sent :
    (s : Socket) (cn msg : Text) (vs : List VpnClient) (n : ℕ) (sent : List Text)
    → Steady s
    → (kill_all s cn msg vs n sent).0.1 ≡ ok tt
    → (kill_all s cn msg vs n sent).1 ≡ sent ++ map (kill_command msg) (sessions_of cn vs)
unfolding kill_all keep
kill_all-sent s cn msg [] n sent h e = append_nil sent
kill_all-sent s cn msg (v ∷ vs) n sent h e = elim (Bool-cases (text_eq v.cn cn)) [
  | inl his ↦
      let next = kill_all s cn msg vs in
      let cmd = kill_command msg v in
      let q =
        kill_all-his s cn msg v vs n sent his ∙ ap (kill_next next n) (exec-Steady s cmd sent h) in
      let there =
        kill_next-ok next n (s.try_exec sent cmd) (sent ++ cmd ∷ [])
          (ap (λ r. r.0.1) (sym q) ∙ e) in
      let rest =
        kill_all-sent s cn msg vs (n + 1) (sent ++ cmd ∷ []) h
          (ap (λ r. r.0.1) (sym (q ∙ there)) ∙ e) in
      ap (λ r. r.1) (q ∙ there)
      ∙ rest
      ∙ append_assoc sent (cmd ∷ []) (map (kill_command msg) (sessions_of cn vs))
      ∙ ap (λ l. sent ++ map (kill_command msg) l) (sym (sessions-his cn v vs his))
  | inr other ↦
      ap (λ r. r.1) (kill_all-other s cn msg v vs n sent other)
      ∙ kill_all-sent s cn msg vs n sent h
          (ap (λ r. r.0.1) (sym (kill_all-other s cn msg v vs n sent other)) ∙ e)
      ∙ ap (λ l. sent ++ map (kill_command msg) l) (sym (sessions-other cn v vs other))
]

kill-live :
    (s : Socket) (cn msg : Text) (live : List VpnClient) (sent : List Text)
    → (text_eq msg (codes "HALT") || text_eq msg (codes "RESTART")) ≡ true
    → kill s cn msg live sent ≡ kill_live s cn msg live (exec s status_command sent)
unfolding kill
kill-live s cn msg live sent m = ground arith

kill_live-ok :
    (s : Socket) (cn msg : Text) (live : List VpnClient) (a : Outcome) (asked : List Text)
    → (kill_live s cn msg live (answer_of a, asked)).0.1 ≡ ok tt
    → kill_live s cn msg live (answer_of a, asked) ≡ kill_all s cn msg live 0 asked
kill_live-ok s cn msg live fine asked e = refl
kill_live-ok s cn msg live refused asked e = absurd (ground arith)
kill_live-ok s cn msg live broken asked e = absurd (ground arith)

-- Where no connection breaks, a `Kill` of HALT or RESTART that returns no error has written `status 3` and
-- then one command for each live session of the CN, in order, and nothing else.
pub kill-sent :
    (s : Socket) (cn msg : Text) (live : List VpnClient) (sent : List Text)
    → Steady s
    → (text_eq msg (codes "HALT") || text_eq msg (codes "RESTART")) ≡ true
    → (kill s cn msg live sent).0.1 ≡ ok tt
    → (kill s cn msg live sent).1
      ≡ (sent ++ status_command ∷ []) ++ map (kill_command msg) (sessions_of cn live)
kill-sent s cn msg live sent h m e =
    let asked = sent ++ status_command ∷ [] in
    let q =
      kill-live s cn msg live sent m
      ∙ ap (kill_live s cn msg live) (exec-Steady s status_command sent h) in
    let there =
      kill_live-ok s cn msg live (s.try_exec sent status_command) asked
        (ap (λ r. r.0.1) (sym q) ∙ e) in
    ap (λ r. r.1) (q ∙ there)
    ∙ kill_all-sent s cn msg live 0 asked h (ap (λ r. r.0.1) (sym (q ∙ there)) ∙ e)
