-- ===== src/Upstream/Rules/Assigned.antt =====
-- What a `Reassign` that succeeds brings about.
use ovcp.Base.{
  ℕ, ◌≡◌, refl, sym, ap, subst, ◌∙◌, ◌≢◌, ◌⊎◌, inl, inr, not, Option, none, some, List, arith,
  Option-cases, In, In-keep, Text, text_discrete, Map, lookup, lookup-erase_self,
  lookup-insert_self, Result, ok, err,
}
use ovcp.Upstream.Config.{Upstream, Config, find_upstream}
use ovcp.Upstream.Rules.{
  Nft, Error, Rule, State, add_tracked, then_drop, drop_old, install_rule, remove_rule,
  untracked_as, uninstall_rule, reassign,
}
use ovcp.Upstream.Rules.Synced.{
  KernelRule, has_handle, IsNft, Backed, Marked, Synced-fresh, In-append_last,
}
use ovcp.Upstream.Rules.Kept.{InStep, add_tracked-cases, remove_rule-cases, then_drop-ok}

err_ok : (e : Error) (r : Result Error (Unit {0})) → r ≡ err e → r ≢ ok tt
err_ok e (ok u) h g = cc
err_ok e (err f) h g = cc

module _ {K : Type 0} (n : Nft K) where
  untracked_as-gone :
      (cid : Text) (m : Map Text Rule) (x : Result Error (Unit {0}) × K)
      → (untracked_as n cid m x).0 ≡ ok tt
      → lookup text_discrete cid (untracked_as n cid m x).1.tracked ≡ none
  untracked_as-gone cid m (ok u, k) e = lookup-erase_self text_discrete cid m
  untracked_as-gone cid m (err u, k) e = cc

  -- A client that `uninstallRule` reports as removed is not tracked any more.
  uninstall_rule-gone :
      (cid : Text) (s : State K)
      → (uninstall_rule n cid s).0 ≡ ok tt
      → lookup text_discrete cid (uninstall_rule n cid s).1.tracked ≡ none
  unfolding uninstall_rule
  uninstall_rule-gone cid s e = elim (Option-cases (lookup text_discrete cid s.tracked)) [
    | inl absent ↦ ground arith
    | inr (r, found) ↦
        ground (arith, untracked_as-gone cid s.tracked (remove_rule n r.handle s.kernel))
  ]

  drop_old-tracked : (old : Option Rule) (s : State K) → (drop_old n old s).tracked ≡ s.tracked
  drop_old-tracked none s = refl
  drop_old-tracked (some o) s = refl

  then_drop-result :
      (old : Option Rule) (x : Result Error (Unit {0}) × State K) → (then_drop n old x).0 ≡ x.0
  then_drop-result old (ok tt, s) = refl
  then_drop-result old (err u, s) = refl

module _ {K : Type 0} (n : Nft K) (rules : K → List KernelRule) (w : IsNft n rules) where
  -- A rule under another handle outlives the removal of the old one.
  drop_old-In :
      (old : Option Rule) (s : State K) (x : KernelRule)
      → ((o : Rule) → old ≡ some o → x.handle ≢ o.handle)
      → In x (rules s.kernel)
      → In x (rules (drop_old n old s).kernel)
  drop_old-In none s x other h = h
  drop_old-In (some o) s x other h = elim (remove_rule-cases n rules w o.handle s.kernel) [
    | inl (_, less) ↦ subst (In x) (sym less) (
        In-keep (λ r. not (has_handle o.handle r)) x (rules s.kernel) h
          (ground (arith, other o refl)))
    | inr (_, same) ↦ subst (In x) (sym same) h
  ]

  install_rule-Backed :
      (P Q : Rule → ℕ → Type 0) (cid cn ip : Text) (up : Upstream) (s : State K)
      → InStep n rules w P s
      → ((r : Rule) → r.cn ≡ cn → Q r up.table)
      → (install_rule n cid cn ip up s).0 ≡ ok tt
      → (r : Rule) × (lookup text_discrete cid (install_rule n cid cn ip up s).1.tracked ≡ some r)
        × (r.cn ≡ cn)
        × (r.ip ≡ ip)
        × Backed Q (rules (install_rule n cid cn ip up s).1.kernel) r
  unfolding install_rule
  install_rule-Backed P Q cid cn ip up s y q good =
      let old = lookup text_discrete cid s.tracked in
      let x = add_tracked n cid cn ip up s in
      elim (add_tracked-cases n rules w cid cn ip up s) [
        | inr (e, failed, _, _) ↦
            absurd (err_ok e (then_drop n old x).0 (then_drop-result n old x ∙ failed) good)
        | inl (r, done, named, more, grown, fresh) ↦
            let same = then_drop-ok n rules w old x done in
            let rule : KernelRule = record { handle = r.handle; ip = r.ip; table = up.table } in
            (
              r,
              ap (λ z. lookup text_discrete cid z.tracked) same
                  ∙ ap (lookup text_discrete cid) (drop_old-tracked n old x.1 ∙ more)
                  ∙ lookup-insert_self text_discrete cid r s.tracked,
              named.0,
              named.1,
              (
                up.table,
                q r named.0,
                subst (λ z. In rule (rules z.kernel)) (sym same)
                    (drop_old-In old x.1 rule
                      (λ o found clash.
                        Synced-fresh P (λ _. Unit) (rules s.kernel) s.tracked r.handle y fresh cid o
                          tt found (sym clash))
                      (subst (In rule) (sym grown) (In-append_last rule (rules s.kernel)))),
              ),
            )
      ]

  -- With nft as its manual says, in a state in which `tracked` and the kernel are in step: a `Reassign` that succeeds for a client with an override leaves it
  -- tracked at its address, with a rule in the kernel that marks for the assigned upstream, and one for a
  -- client without an override leaves it untracked.
  pub reassign-Marked :
      (P : Rule → ℕ → Type 0) (cid cn ip : Text) (c : Config) (s : State K)
      → InStep n rules w P s
      → (reassign n cid cn ip c s).0 ≡ ok tt
      → ((lookup text_discrete cn c.per_cn ≡ none)
          × (lookup text_discrete cid (reassign n cid cn ip c s).1.tracked ≡ none))
        ⊎ ((r : Rule) × (lookup text_discrete cid (reassign n cid cn ip c s).1.tracked ≡ some r)
            × (r.cn ≡ cn)
            × (r.ip ≡ ip)
            × Backed (Marked c) (rules (reassign n cid cn ip c s).1.kernel) r)
  unfolding reassign
  reassign-Marked P cid cn ip c s y good = elim (Option-cases (lookup text_discrete cn c.per_cn)) [
    | inl plain ↦ inl (plain, ground (arith, uninstall_rule-gone n cid s))
    | inr (id, l) ↦ elim (Option-cases (find_upstream c id)) [
      | inl gone ↦ absurd (ground arith)
      | inr (up, f) ↦
          let here : reassign n cid cn ip c s ≡ install_rule n cid cn ip up s = ground arith in
          let (r, found, a, b, backed) =
            install_rule-Backed P (Marked c) cid cn ip up s y
              (λ r e. (id, up, ap (λ x. lookup text_discrete x c.per_cn) e ∙ l, f, refl))
              (ap (λ z. z.0) (sym here) ∙ good) in
          inr (
            r,
            ap (λ z. lookup text_discrete cid z.1.tracked) here ∙ found,
            a,
            b,
            subst (λ z. Backed (Marked c) (rules z.1.kernel) r) (sym here) backed,
          )
    ]
  ]
