-- ===== src/Upstream/Apply/Commands.antt =====
-- The commands of an `Apply`, which no failure of an earlier one leaves out before the nft table.
use ovcp.Base.{
  ◌≡◌, refl, sym, ap, subst, ◌∙◌, ◌⊎◌, inl, inr, true, false, some, List, [], ◌∷◌, ◌++◌, arith,
  if◌then◌else◌, Bool-cases, any, In, Text, text_discrete, lookup, ok, Result-cases,
}
use ovcp.Upstream.Config.{Host, Upstream, Config, table_base, max_upstreams, is_socks, validate}
use ovcp.Upstream.Valid.{Good}
use ovcp.Upstream.Changes.{validate-IsValid}
use ovcp.Upstream.Rules.{Nft, Rule, reinstall}
use ovcp.Upstream.Rules.Synced.{KernelRule, IsNft, Synced, Marked}
use ovcp.Upstream.Rules.Rebuilt.{reinstall-Synced}
use ovcp.Upstream.Apply.{
  rule_prio, Command, rule_del, route_flush, route_unreachable, rule_add, nft_delete, nft_check,
  nft_load, teardown_args, all_routes, nft_ruleset, Tools, World, Failure, command_failed,
  relays_failed, exec, exec_all, clear_band, exec_collect, install, apply_valid, apply,
}
use ovcp.Upstream.Apply.Routes.{
  is_clearing, Guarded, append_assoc, In-append_left, any-append, teardown_from-In, all_routes-In,
  all_routes-clearing, append-nil, append-last, All-In,
}

module _ {K : Type 0} (tools : Tools K) where
  exec-tracked :
      (cmd : Command) (w : World K) → (exec tools cmd w).1.clients.tracked ≡ w.clients.tracked
  unfolding exec
  exec-tracked cmd w = ground arith

  exec-log :
      (cmd : Command) (cmds : List Command) (w : World K)
      → (exec tools cmd w).1.log ++ cmds ≡ w.log ++ cmd ∷ cmds
  unfolding exec
  exec-log cmd cmds w = append_assoc w.log (cmd ∷ []) cmds

  exec_all-log :
      (cmds : List Command) (w : World K)
      → ((exec_all tools cmds w).log ≡ w.log ++ cmds)
        × ((exec_all tools cmds w).clients.tracked ≡ w.clients.tracked)
  unfolding exec_all
  exec_all-log [] w = (append-nil w.log, refl)
  exec_all-log (cmd ∷ cmds) w =
      let (logged, tracked) = exec_all-log cmds (exec tools cmd w).1 in
      (logged ∙ exec-log cmd cmds w, tracked ∙ exec-tracked cmd w)

  exec_collect-log :
      (cmds : List Command) (w : World K)
      → ((exec_collect tools cmds w).1.log ≡ w.log ++ cmds)
        × ((exec_collect tools cmds w).1.clients.tracked ≡ w.clients.tracked)
  unfolding exec_collect
  exec_collect-log [] w = (append-nil w.log, refl)
  exec_collect-log (cmd ∷ cmds) w =
      let (logged, tracked) = exec_collect-log cmds (exec tools cmd w).1 in
      (logged ∙ exec-log cmd cmds w, tracked ∙ exec-tracked cmd w)

  install-unchecked :
      (n : Nft K) (order : List Text) (h : Host) (c : Config) (errs : List Failure) (w : World K)
      → tools.fails w.log (nft_check (nft_ruleset h c)) ≡ true
      → install tools n order h c errs w ≡ (
        errs ++ command_failed (nft_check (nft_ruleset h c)) ∷ [],
        (exec tools (nft_check (nft_ruleset h c)) w).1,
      )
  unfolding install exec
  install-unchecked n order h c errs w bad = ground arith

  install-checked :
      (n : Nft K) (order : List Text) (h : Host) (c : Config) (errs : List Failure) (w : World K)
      → tools.fails w.log (nft_check (nft_ruleset h c)) ≡ false
      → (install tools n order h c errs w).1.log
        ≡ (w.log ++ nft_check (nft_ruleset h c) ∷ []) ++ nft_load (nft_ruleset h c) ∷ []
  unfolding install exec
  install-checked n order h c errs w good = ground arith

  install-unloaded :
      (n : Nft K) (order : List Text) (h : Host) (c : Config) (errs : List Failure) (w : World K)
      → tools.fails w.log (nft_check (nft_ruleset h c)) ≡ false
      → tools.fails (w.log ++ nft_check (nft_ruleset h c) ∷ []) (nft_load (nft_ruleset h c)) ≡ true
      → (install tools n order h c errs w).0
        ≡ errs ++ command_failed (nft_load (nft_ruleset h c)) ∷ []
  unfolding install exec
  install-unloaded n order h c errs w good bad = ground arith

  install-done :
      (n : Nft K) (order : List Text) (h : Host) (c : Config) (errs : List Failure) (w : World K)
      → tools.fails w.log (nft_check (nft_ruleset h c)) ≡ false
      → tools.fails (w.log ++ nft_check (nft_ruleset h c) ∷ []) (nft_load (nft_ruleset h c)) ≡ false
      → (install tools n order h c errs w).1.clients
        ≡ reinstall n c order (record {
          tracked = w.clients.tracked;
          kernel =
              tools.effect
                (nft_load (nft_ruleset h c))
                (tools.effect (nft_check (nft_ruleset h c)) w.clients.kernel);
        })
  unfolding install exec
  install-done n order h c errs w good fine = ground arith

  -- A run in which the nft table was loaded ends with a `reinstall`.
  install-loaded :
      (n : Nft K) (order : List Text) (h : Host) (c : Config) (errs : List Failure) (w : World K)
      → (install tools n order h c errs w).0 ≡ []
      → (k : K) × ((install tools n order h c errs w).1.clients
          ≡ reinstall n c order (record { tracked = w.clients.tracked; kernel = k }))
  unfolding install exec
  install-loaded n order h c errs w e =
      let chk = nft_check (nft_ruleset h c) in
      let load = nft_load (nft_ruleset h c) in
      elim (Bool-cases (tools.fails w.log chk)) [
        | inl bad ↦ absurd (
            append-last errs (command_failed chk)
              (ap (λ r. r.0) (sym (install-unchecked n order h c errs w bad)) ∙ e))
        | inr good ↦ elim (Bool-cases (tools.fails (w.log ++ chk ∷ []) load)) [
          | inl bad ↦ absurd (
              append-last errs (command_failed load)
                (sym (install-unloaded n order h c errs w good bad) ∙ e))
          | inr fine ↦ (
            tools.effect load (tools.effect chk w.clients.kernel),
            install-done n order h c errs w good fine,
          )
        ]
      ]

  install-log :
      (n : Nft K) (order : List Text) (h : Host) (c : Config) (errs : List Failure) (w : World K)
      → ((install tools n order h c errs w).1.log ≡ w.log ++ nft_check (nft_ruleset h c) ∷ [])
        ⊎ ((install tools n order h c errs w).1.log
            ≡ w.log ++ nft_check (nft_ruleset h c) ∷ nft_load (nft_ruleset h c) ∷ [])
  unfolding install exec
  install-log n order h c errs w =
      let chk = nft_check (nft_ruleset h c) in
      let load = nft_load (nft_ruleset h c) in
      let both = append_assoc w.log (chk ∷ []) (load ∷ []) in
      elim (Bool-cases (tools.fails w.log chk)) [
        | inl bad ↦ inl (ap (λ r. r.1.log) (install-unchecked n order h c errs w bad))
        | inr good ↦ inr (install-checked n order h c errs w good ∙ both)
      ]

  apply-valid :
      (n : Nft K) (order : List Text) (h : Host) (c : Config) (w : World K)
      → validate h c ≡ ok tt
      → apply tools n order h c w
        ≡ (ok (apply_valid tools n order h c w).0, (apply_valid tools n order h c w).1)
  unfolding apply
  apply-valid n order h c w v = ground arith

  -- The state before the nft table is built, after the band is cleared and the routes are set.
  abbrev routed : Config → World K → World K
  routed c w = (exec_collect tools (all_routes c.upstreams) (clear_band tools w)).1

  routed-log :
      (c : Config) (w : World K)
      → ((routed c w).log ≡ w.log ++ ((teardown_args ++ nft_delete ∷ []) ++ all_routes c.upstreams))
        × ((routed c w).clients.tracked ≡ w.clients.tracked)
  unfolding clear_band
  routed-log c w =
      let cleared = exec_all-log (teardown_args ++ nft_delete ∷ []) w in
      let set = exec_collect-log (all_routes c.upstreams) (clear_band tools w) in
      (
        set.0
            ∙ ap (λ l. l ++ all_routes c.upstreams) cleared.0
            ∙ append_assoc w.log (teardown_args ++ nft_delete ∷ []) (all_routes c.upstreams),
        set.1 ∙ cleared.1,
      )

  abbrev collected : Config → World K → List Failure
  collected c w =
      (exec_collect tools (all_routes c.upstreams) (clear_band tools w)).0
      ++ (if tools.relays_fail c (routed c w).log then relays_failed ∷ [] else [])

  apply_valid-install :
      (n : Nft K) (order : List Text) (h : Host) (c : Config) (w : World K)
      → apply_valid tools n order h c w ≡ install tools n order h c (collected c w) (routed c w)
  unfolding apply_valid
  apply_valid-install n order h c w = refl

  -- The commands of the band, then those of the upstreams, then the nft table's.
  apply-log :
      (n : Nft K) (order : List Text) (h : Host) (c : Config) (w : World K) (tail : List Command)
      → validate h c ≡ ok tt
      → (install tools n order h c (collected c w) (routed c w)).1.log ≡ (routed c w).log ++ tail
      → (apply tools n order h c w).1.log
        ≡ w.log ++ ((teardown_args ++ nft_delete ∷ []) ++ (all_routes c.upstreams ++ tail))
  apply-log n order h c w tail v e =
      let band = teardown_args ++ nft_delete ∷ [] in
      let routes = all_routes c.upstreams in
      ap (λ r. r.1.log) (apply-valid n order h c w v)
      ∙ ap (λ r. r.1.log) (apply_valid-install n order h c w)
      ∙ e
      ∙ ap (λ l. l ++ tail) (routed-log c w).0
      ∙ append_assoc w.log (band ++ routes) tail
      ∙ ap (λ l. w.log ++ l) (append_assoc band routes tail)

  -- The rest of the log, once the last commands are known to clear nothing.
  apply-parts :
      (n : Nft K) (order : List Text) (h : Host) (c : Config) (w : World K) (u : Upstream)
      (tail : List Command)
      → validate h c ≡ ok tt
      → In u c.upstreams
      → is_socks u ≡ false
      → any is_clearing tail ≡ false
      → (install tools n order h c (collected c w) (routed c w)).1.log ≡ (routed c w).log ++ tail
      → (before after : List Command) × ((apply tools n order h c w).1.log
          ≡ w.log ++ (before ++ after))
        × In (route_flush u.table) before
        × In (rule_del (rule_prio u.table)) before
        × Guarded u after
        × (any is_clearing after ≡ false)
  unfolding teardown_args
  apply-parts n order h c w u tail v i s none_cleared e =
      let good = All-In (Good h) c.upstreams u ((validate-IsValid h c).0 v).good i in
      let routes = all_routes c.upstreams in
      let band = teardown_from-In max_upstreams table_base u.table good.above good.below in
      let guard = all_routes-In c.upstreams u i s in
      (
        teardown_args ++ nft_delete ∷ [],
        routes ++ tail,
        apply-log n order h c w tail v e,
        In-append_left (route_flush u.table) teardown_args (nft_delete ∷ []) band.0,
        In-append_left (rule_del (rule_prio u.table)) teardown_args (nft_delete ∷ []) band.1,
        (
          In-append_left (route_unreachable u.table) routes tail guard.0,
          In-append_left (rule_add u.table (rule_prio u.table)) routes tail guard.1,
        ),
        ground (arith, any-append is_clearing routes tail, all_routes-clearing c.upstreams),
      )

  -- An accepted `Apply` first clears the band, flushing every table of the band and deleting its rule,
  -- and then, whichever commands fail, adds the `unreachable` route and the rule of every interface
  -- upstream, with no command that clears anything after them.
  pub apply-Guarded :
      (n : Nft K) (order : List Text) (h : Host) (c : Config) (w : World K) (u : Upstream)
      → validate h c ≡ ok tt
      → In u c.upstreams
      → is_socks u ≡ false
      → (before after : List Command) × ((apply tools n order h c w).1.log
          ≡ w.log ++ (before ++ after))
        × In (route_flush u.table) before
        × In (rule_del (rule_prio u.table)) before
        × Guarded u after
        × (any is_clearing after ≡ false)
  unfolding any
  apply-Guarded n order h c w u v i s =
      elim (install-log n order h c (collected c w) (routed c w)) [
        | inl e ↦ apply-parts n order h c w u (nft_check (nft_ruleset h c) ∷ []) v i s refl e
        | inr e ↦
            apply-parts n order h c w u
              (nft_check (nft_ruleset h c) ∷ nft_load (nft_ruleset h c) ∷ []) v i s refl e
      ]

  -- With nft as its manual says: an `Apply` that reports no failure, and visits every tracked client,
  -- leaves each client that is still tracked with a rule of its own in the kernel, for its address, that
  -- marks for the upstream which the configuration assigns to it.
  pub apply-Synced :
      (n : Nft K) (rules : K → List KernelRule) (nft : IsNft n rules) (order : List Text) (h : Host)
      (c : Config) (w : World K)
      → ((cid : Text) (r : Rule)
          → lookup text_discrete cid w.clients.tracked ≡ some r
          → In cid order)
      → (apply tools n order h c w).0 ≡ ok []
      → Synced
          (Marked c)
          (λ _. Unit)
          (rules (apply tools n order h c w).1.clients.kernel)
          (apply tools n order h c w).1.clients.tracked
  unfolding apply
  apply-Synced n rules nft order h c w covers e = elim (Result-cases (validate h c)) [
    | inr (bad, r) ↦ absurd (ground arith)
    | inl (u, r) ↦
        let quiet : (apply_valid tools n order h c w).0 ≡ [] = ground arith in
        let (k, done) =
          install-loaded n order h c (collected c w) (routed c w)
            (ap (λ x. x.0) (sym (apply_valid-install n order h c w)) ∙ quiet) in
        let clients =
          ap (λ x. x.1.clients) (apply-valid n order h c w r)
          ∙ ap (λ x. x.1.clients) (apply_valid-install n order h c w)
          ∙ done
          ∙ ap (λ m. reinstall n c order (record { tracked = m; kernel = k })) (routed-log c w).1 in
        subst (λ x. Synced (Marked c) (λ _. Unit) (rules x.kernel) x.tracked) (sym clients)
          (reinstall-Synced n rules nft c order (record { tracked = w.clients.tracked; kernel = k })
            covers)
  ]
