-- ===== src/Upstream/Rules/Runs.antt =====
-- Whole runs of the operations on the clients' rules.
use ovcp.Base.{
  [], ℕ, ◌≡◌, refl, ap, subst, ◌∙◌, inl, inr, some, List, ◌∷◌, arith, Option-cases, All, Text,
  text_discrete, lookup,
}
use ovcp.Upstream.Config.{Upstream, Config, find_upstream}
use ovcp.Upstream.Rules.{
  Nft, Rule, State, add_tracked, uninstall_rule, establish, disconnect, reassign, clear_all,
}
use ovcp.Upstream.Rules.Synced.{KernelRule, IsNft, Synced, Marked, Synced-move}
use ovcp.Upstream.Rules.Kept.{
  InStep, add_tracked-cases, add_tracked-Synced, install_rule-InStep, uninstall_rule-InStep,
}

pub data Call : Type 0 where
  established : Text → Text → Text → Config → Call
  disconnected : Text → Call
  reassigned : Text → Text → Text → Config → Call
  exited : List Text → Call

-- The call's configuration marks only as `P` allows.
abbrev pub Allows : (Rule → ℕ → Type 0) → Call → Type 0
Allows P (established cid cn ip c) = (r : Rule) (t : ℕ) → Marked c r t → P r t
Allows P (disconnected cid) = Unit
Allows P (reassigned cid cn ip c) = (r : Rule) (t : ℕ) → Marked c r t → P r t
Allows P (exited order) = Unit

module _ {K : Type 0} (n : Nft K) where
  unfoldable pub step : State K → Call → State K
  unfolding establish disconnect reassign clear_all
  step s (established cid cn ip c) = (establish n cid cn ip c s).1
  step s (disconnected cid) = disconnect n cid s
  step s (reassigned cid cn ip c) = (reassign n cid cn ip c s).1
  step s (exited order) = clear_all n order s

  unfoldable pub run : State K → List Call → State K
  unfolding step
  run s [] = s
  run s (x ∷ xs) = run (step s x) xs

module _ {K : Type 0} (n : Nft K) (rules : K → List KernelRule) (w : IsNft n rules)
    (P : Rule → ℕ → Type 0) where
  add_tracked-InStep :
      (cid cn ip : Text) (up : Upstream) (s : State K)
      → ((r : Rule) → r.cn ≡ cn → P r up.table)
      → InStep n rules w P s
      → InStep n rules w P (add_tracked n cid cn ip up s).1
  add_tracked-InStep cid cn ip up s p y = elim (add_tracked-cases n rules w cid cn ip up s) [
    | inl (_, done, _, _, _, _) ↦
        add_tracked-Synced n rules w P (λ _. Unit) (λ _. Unit) cid cn ip up s (λ c _. inr tt) p y
          done
    | inr (e, failed, same, unchanged) ↦ Synced-move P (λ _. Unit) unchanged same y
  ]

  -- A client whose configuration names this upstream may get its mark.
  marks :
      (cn id : Text) (up : Upstream) (c : Config)
      → ((r : Rule) (t : ℕ) → Marked c r t → P r t)
      → lookup text_discrete cn c.per_cn ≡ some id
      → find_upstream c id ≡ some up
      → (r : Rule) → r.cn ≡ cn
      → P r up.table
  marks cn id up c p l f r e =
      p r up.table (id, up, ap (λ x. lookup text_discrete x c.per_cn) e ∙ l, f, refl)

  establish-InStep :
      (cid cn ip : Text) (c : Config) (s : State K)
      → ((r : Rule) (t : ℕ) → Marked c r t → P r t)
      → InStep n rules w P s
      → InStep n rules w P (establish n cid cn ip c s).1
  unfolding establish
  establish-InStep cid cn ip c s p y = elim (Option-cases (lookup text_discrete cn c.per_cn)) [
    | inl plain ↦ subst (InStep n rules w P) (ground arith) y
    | inr (id, l) ↦ elim (Option-cases (find_upstream c id)) [
      | inl gone ↦ subst (InStep n rules w P) (ground arith) y
      | inr (up, f) ↦
          subst (InStep n rules w P) (ground arith)
            (add_tracked-InStep cid cn ip up s (marks cn id up c p l f) y)
    ]
  ]

  reassign-InStep :
      (cid cn ip : Text) (c : Config) (s : State K)
      → ((r : Rule) (t : ℕ) → Marked c r t → P r t)
      → InStep n rules w P s
      → InStep n rules w P (reassign n cid cn ip c s).1
  unfolding reassign
  reassign-InStep cid cn ip c s p y = elim (Option-cases (lookup text_discrete cn c.per_cn)) [
    | inl plain ↦
        subst (InStep n rules w P) (ground arith) (uninstall_rule-InStep n rules w P cid s y)
    | inr (id, l) ↦ elim (Option-cases (find_upstream c id)) [
      | inl gone ↦ subst (InStep n rules w P) (ground arith) y
      | inr (up, f) ↦
          subst (InStep n rules w P) (ground arith)
            (install_rule-InStep n rules w P cid cn ip up s (marks cn id up c p l f) y)
    ]
  ]

  clear_all-InStep :
      (order : List Text) (s : State K)
      → InStep n rules w P s
      → InStep n rules w P (clear_all n order s)
  unfolding clear_all
  clear_all-InStep [] s y = y
  clear_all-InStep (cid ∷ order) s y =
      clear_all-InStep order (uninstall_rule n cid s).1 (uninstall_rule-InStep n rules w P cid s y)

  step-InStep :
      (s : State K) (x : Call) → Allows P x → InStep n rules w P s → InStep n rules w P (step n s x)
  unfolding step disconnect
  step-InStep s (established cid cn ip c) p y = establish-InStep cid cn ip c s p y
  step-InStep s (disconnected cid) p y = uninstall_rule-InStep n rules w P cid s y
  step-InStep s (reassigned cid cn ip c) p y = reassign-InStep cid cn ip c s p y
  step-InStep s (exited order) p y = clear_all-InStep order s y

  -- With nft as its manual says, from a state in which it holds, and whatever nft refuses: after any sequence of connects,
  -- disconnects, reassignments and worker exits every tracked client has a rule in the kernel under a
  -- handle of its own, for its address, with a table that every call's configuration allows by `P`.
  pub run-Synced :
      (xs : List Call) (s : State K)
      → All (Allows P) xs
      → Synced P (λ _. Unit) (rules s.kernel) s.tracked
      → Synced P (λ _. Unit) (rules (run n s xs).kernel) (run n s xs).tracked
  unfolding run
  run-Synced [] s a y = y
  run-Synced (x ∷ xs) s a y = run-Synced xs (step n s x) a.1 (step-InStep s x a.0 y)
