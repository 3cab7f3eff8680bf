-- ===== src/Upstream/Rules/Kept.antt =====
-- That the operations on the clients' rules keep `tracked` and the kernel's table in step.
use ovcp.Base.{
  [], ℕ, ◌≡◌, refl, sym, ap, subst, ◌∙◌, ◌≢◌, ◌⊎◌, inl, inr, false, not, Option, none, some, List,
  ◌∷◌, ◌++◌, arith, Bool-cases, Option-cases, keep, any, Text, text_discrete, Map, lookup, erase,
  insert, Result, ok, err,
}
use ovcp.Upstream.Config.{Upstream}
use ovcp.Upstream.Rules.{
  del_failed, add_failed, Nft, Error, bad_ip, Rule, State, add_rule, remove_rule, add_tracked,
  drop_old, then_drop, install_rule, untracked_as, uninstall_rule,
}
use ovcp.Upstream.Rules.Synced.{
  KernelRule, has_handle, IsNft, Synced, Synced-fresh, Synced-insert, Synced-erase, Synced-kill,
  Synced-move, lookup-insert_cases, lookup-erase_cases,
}

module _ {K : Type 0} (n : Nft K) (rules : K → List KernelRule) (w : IsNft n rules) where
  add_rule-cases :
      (ip : Text) (table : ℕ) (k : K)
      → ((h : ℕ) × ((add_rule n ip table k).0 ≡ ok h)
          × (rules (add_rule n ip table k).1
              ≡ rules k ++ (record { handle = h; ip = ip; table = table }) ∷ [])
          × (any (has_handle h) (rules k) ≡ false))
        ⊎ ((e : Error) × ((add_rule n ip table k).0 ≡ err e)
            × (rules (add_rule n ip table k).1 ≡ rules k))
  unfolding add_rule
  add_rule-cases ip table k = elim (Bool-cases (n.is_v4 ip)) [
    | inr bad ↦ inr (bad_ip, ground arith, ground arith)
    | inl good ↦ elim (Option-cases (n.add ip table k).0) [
      | inl failed ↦ inr (add_failed, ground arith, ground (arith, w.not_added ip table k failed))
      | inr (out, done) ↦
          let (h, parsed, more, fresh) = w.added ip table k out done in
          inl (h, ground arith, ground arith, fresh)
    ]
  ]

  -- An `addTracked` records a rule that is new to the kernel, or changes nothing.
  pub add_tracked-cases :
      (cid cn ip : Text) (up : Upstream) (s : State K)
      → ((r : Rule) × ((add_tracked n cid cn ip up s).0 ≡ ok tt)
          × ((r.cn ≡ cn) × (r.ip ≡ ip))
          × ((add_tracked n cid cn ip up s).1.tracked ≡ insert text_discrete cid r s.tracked)
          × (rules (add_tracked n cid cn ip up s).1.kernel
              ≡ rules s.kernel ++ (record { handle = r.handle; ip = r.ip; table = up.table }) ∷ [])
          × (any (has_handle r.handle) (rules s.kernel) ≡ false))
        ⊎ ((e : Error) × ((add_tracked n cid cn ip up s).0 ≡ err e)
            × ((add_tracked n cid cn ip up s).1.tracked ≡ s.tracked)
            × (rules (add_tracked n cid cn ip up s).1.kernel ≡ rules s.kernel))
  unfolding add_tracked
  add_tracked-cases cid cn ip up s = elim (add_rule-cases ip up.table s.kernel) [
    | inl (h, done, more, fresh) ↦ inl (
      record { ip = ip; cn = cn; handle = h },
      ground arith,
      (refl, refl),
      ground arith,
      ground arith,
      fresh,
    )
    | inr (e, failed, same) ↦ inr (e, ground arith, ground arith, ground arith)
  ]

  -- A removal takes the rules of its handle away, or changes nothing.
  pub remove_rule-cases :
      (h : ℕ) (k : K)
      → (((remove_rule n h k).0 ≡ ok tt)
          × (rules (remove_rule n h k).1 ≡ keep (λ r. not (has_handle h r)) (rules k)))
        ⊎ (((remove_rule n h k).0 ≡ err del_failed) × (rules (remove_rule n h k).1 ≡ rules k))
  unfolding remove_rule
  remove_rule-cases h k = elim (Bool-cases (n.del h k).0) [
    | inl gone ↦ inl (ground arith, w.deleted h k gone)
    | inr still ↦ inr (ground arith, w.not_deleted h k still)
  ]

  pub then_drop-ok :
      (old : Option Rule) (x : Result Error (Unit {0}) × State K)
      → x.0 ≡ ok tt
      → (then_drop n old x).1 ≡ drop_old n old x.1
  then_drop-ok old (ok u, s) e = refl
  then_drop-ok old (err u, s) e = cc

  pub then_drop-err :
      (old : Option Rule) (x : Result Error (Unit {0}) × State K) (u : Error)
      → x.0 ≡ err u
      → then_drop n old x ≡ x
  then_drop-err old (ok u, s) v e = cc
  then_drop-err old (err u, s) v e = refl

  pub untracked_as-ok :
      (cid : Text) (m : Map Text Rule) (x : Result Error (Unit {0}) × K)
      → x.0 ≡ ok tt
      → (untracked_as n cid m x).1 ≡ (record { tracked = erase text_discrete cid m; kernel = x.1 })
  untracked_as-ok cid m (ok u, k) e = refl
  untracked_as-ok cid m (err u, k) e = cc

  pub untracked_as-err :
      (cid : Text) (m : Map Text Rule) (x : Result Error (Unit {0}) × K) (u : Error)
      → x.0 ≡ err u
      → (untracked_as n cid m x).1 ≡ (record { tracked = m; kernel = x.1 })
  untracked_as-err cid m (ok u, k) v e = cc
  untracked_as-err cid m (err u, k) v e = refl

  module _ (P : Rule → ℕ → Type 0) where
    abbrev pub InStep : State K → Type 0
    InStep s = Synced P (λ _. Unit) (rules s.kernel) s.tracked

    pub add_tracked-Synced :
        (D D' : Text → Type 0) (cid cn ip : Text) (up : Upstream) (s : State K)
        → ((c : Text) → D' c → (c ≡ cid) ⊎ D c)
        → ((r : Rule) → r.cn ≡ cn → P r up.table)
        → Synced P D (rules s.kernel) s.tracked
        → (add_tracked n cid cn ip up s).0 ≡ ok tt
        → Synced P D'
            (rules (add_tracked n cid cn ip up s).1.kernel)
            (add_tracked n cid cn ip up s).1.tracked
    add_tracked-Synced D D' cid cn ip up s only p y good = elim (add_tracked-cases cid cn ip up s) [
      | inl (r, done, named, more, grown, fresh) ↦ Synced-move P D' (grown) (more) (
          Synced-insert P D D' (rules s.kernel) s.tracked cid r up.table only y fresh (p r named.0))
      | inr (e, failed, same, unchanged) ↦ absurd (ground arith)
    ]

    -- The rule of a handle that no other tracked client has.
    remove_rule-Synced :
        (h : ℕ) (k : K) (m : Map Text Rule)
        → Synced P (λ _. Unit) (rules k) m
        → ((cid : Text) (r : Rule) → Unit {0} → lookup text_discrete cid m ≡ some r → r.handle ≢ h)
        → Synced P (λ _. Unit) (rules (remove_rule n h k).1) m
    remove_rule-Synced h k m y other = elim (remove_rule-cases h k) [
      | inl (_, less) ↦
          Synced-move P (λ _. Unit) less refl (Synced-kill P (λ _. Unit) (rules k) m h y other)
      | inr (_, same) ↦ Synced-move P (λ _. Unit) same refl y
    ]

    drop_old-InStep :
        (cid : Text) (r : Rule) (m : Map Text Rule) (old : Option Rule) (s : State K)
        → lookup text_discrete cid m ≡ old
        → s.tracked ≡ insert text_discrete cid r m
        → ((q : Rule) → old ≡ some q → r.handle ≢ q.handle)
        → ((a : Text) (q o : Rule)
            → a ≢ cid
            → lookup text_discrete a m ≡ some q
            → old ≡ some o
            → q.handle ≢ o.handle)
        → InStep s
        → InStep (drop_old n old s)
    drop_old-InStep cid r m none s l e new others y = y
    drop_old-InStep cid r m (some o) s l e new others y =
        remove_rule-Synced o.handle s.kernel s.tracked y (λ a q _ found.
          elim (lookup-insert_cases a cid r q m (ap (lookup text_discrete a) (sym e) ∙ found)) [
            | inl (_, same) ↦ λ clash. new o refl (ap (λ x. x.handle) same ∙ clash)
            | inr (apart, kept_) ↦ others a q o apart kept_ refl
          ])

    pub install_rule-InStep :
        (cid cn ip : Text) (up : Upstream) (s : State K)
        → ((r : Rule) → r.cn ≡ cn → P r up.table)
        → InStep s
        → InStep (install_rule n cid cn ip up s).1
    unfolding install_rule
    install_rule-InStep cid cn ip up s p y = elim (add_tracked-cases cid cn ip up s) [
      | inr (e, failed, same, unchanged) ↦
          subst (λ x. InStep x.1)
            (sym (
              then_drop-err (lookup text_discrete cid s.tracked) (add_tracked n cid cn ip up s) e
                failed))
            (Synced-move P (λ _. Unit) unchanged same y)
      | inl (r, done, named, more, grown, fresh) ↦
          subst InStep
            (sym (
              then_drop-ok (lookup text_discrete cid s.tracked) (add_tracked n cid cn ip up s)
                done))
            (drop_old-InStep cid r s.tracked (lookup text_discrete cid s.tracked)
              (add_tracked n cid cn ip up s).1 refl more
              (λ q found clash.
                Synced-fresh P (λ _. Unit) (rules s.kernel) s.tracked r.handle y fresh cid q tt
                  found (sym clash))
              (λ a q o apart here old clash. apart (y.apart a cid q o tt tt here old clash))
              (add_tracked-Synced (λ _. Unit) (λ _. Unit) cid cn ip up s (λ c _. inr tt) p y done))
    ]

    uninstall_rule-some :
        (cid : Text) (r : Rule) (s : State K)
        → lookup text_discrete cid s.tracked ≡ some r
        → (uninstall_rule n cid s).1
          ≡ (untracked_as n cid s.tracked (remove_rule n r.handle s.kernel)).1
    unfolding uninstall_rule
    uninstall_rule-some cid r s found = ground arith

    pub uninstall_rule-InStep :
        (cid : Text) (s : State K) → InStep s → InStep (uninstall_rule n cid s).1
    unfolding uninstall_rule
    uninstall_rule-InStep cid s y = elim (Option-cases (lookup text_discrete cid s.tracked)) [
      | inl none_there ↦ subst InStep (ground arith) y
      | inr (r, found) ↦
          subst InStep (sym (uninstall_rule-some cid r s found))
            (elim (remove_rule-cases r.handle s.kernel) [
              | inl (gone, less) ↦
                  subst InStep
                    (sym (untracked_as-ok cid s.tracked (remove_rule n r.handle s.kernel) gone))
                    (remove_rule-Synced r.handle s.kernel (erase text_discrete cid s.tracked)
                      (Synced-erase P (λ _. Unit) (λ _. Unit) (rules s.kernel) s.tracked cid
                        (λ c _. inr tt) y)
                      (λ a q _ here clash.
                        let (apart, old) = lookup-erase_cases a cid q s.tracked here in
                        apart (y.apart a cid q r tt tt old found clash)))
              | inr (still, same) ↦
                  subst InStep
                    (sym (
                      untracked_as-err cid s.tracked (remove_rule n r.handle s.kernel) del_failed
                        still))
                    (Synced-move P (λ _. Unit) same refl y)
            ])
    ]
