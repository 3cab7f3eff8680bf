-- ===== src/Upstream/Apply.antt =====
-- internal/upstream/upstream.go: `teardownArgs`, `routeArgs`, `nftRuleset`, `clearBand`, `Teardown` and
-- `Apply`. A command line is a value of `Command`, and a line of the nft ruleset one of `Statement`; what a
-- command does and whether it fails is `Tools`, which may depend on every command before it. The mutex
-- makes each call one step.
pub mod Routes
pub mod Commands
use ovcp.Base.{
  ℕ, zero, suc, ◌+◌, ◌-◌, ◌*◌, ◌/◌, ◌%◌, ◌^◌, max, ◌≤◌, ◌<◌, ◌≡◌, refl, sym, ap, subst, ◌∙◌, ◌≢◌,
  ◌↔◌, ◌⊎◌, inl, inr, ite, dite, if_pos, if_neg, Bool, true, false, not, ◌&&◌, ◌||◌, Option, none,
  some, List, [], ◌∷◌, ◌++◌, map, arith, dec_lt, dec_le, ℕ_discrete, ltb, leb, ◌==◌, within,
  if◌then◌else◌, is_yes, ltb→lt, lt→ltb, Bool-cases, if-intro, Option-cases, length, take, drop,
  keep, length-append, length-keep-le, any, find, any-map, any-map-true, find-holds, find-any,
  find-none, find-not, find-keep, find-keep_of_imp, find-keep-none, any-keep, IsDistinct,
  IsDistinct-keep, In, In-keep, keep-In, All, Text, codes, text_discrete, text_eq, is_empty, Map,
  lookup, erase, insert, lookup-erase_self, lookup-erase_ne, lookup-insert_self, lookup-insert_ne,
  IsMap, IsMap-keep, IsMap-erase, IsMap-insert, lookup-keep, Result, ok, err, ◌>>=◌, ◌>>◌, refuse,
  >>=-eq-ok, Result-cases,
}
use ovcp.Upstream.Config.{
  Host, Upstream, Config, Error, table_base, max_upstreams, is_socks, socks_port, find_upstream,
  resolve, validate,
}
use ovcp.Upstream.Rules.{Nft, State, reinstall}

abbrev pub rule_prio_base : ℕ
rule_prio_base = 20000

unfoldable pub rule_prio : ℕ → ℕ
rule_prio table = rule_prio_base + (table - table_base)

pub data Statement : Type 0 where
  mark_default : ℕ → Statement
  redirect_socks : ℕ → ℕ → Statement
  masquerade : ℕ → Text → Statement
  masquerade_unmarked : Statement

pub data Command : Type 0 where
  rule_del : ℕ → Command
  route_flush : ℕ → Command
  route_via : Text → Text → ℕ → Command
  route_dev : Text → ℕ → Command
  route_unreachable : ℕ → Command
  rule_add : ℕ → ℕ → Command
  nft_delete : Command
  nft_check nft_load : List Statement → Command

-- The loop of `teardownArgs`, with `n` tables left from `t` on.
unfoldable pub teardown_from : ℕ → ℕ → List Command
unfolding rule_prio
teardown_from zero t = []
teardown_from (suc n) t = rule_del (rule_prio t) ∷ route_flush t ∷ teardown_from n (t + 1)

unfoldable pub teardown_args : List Command
unfolding teardown_from
teardown_args = teardown_from max_upstreams table_base

unfoldable pub route_args : Upstream → List Command
unfolding rule_prio
route_args u =
    (if is_empty u.gateway then route_dev u.iface u.table else route_via u.gateway u.iface u.table)
    ∷ route_unreachable u.table
    ∷ rule_add u.table (rule_prio u.table)
    ∷ []

-- The mark of every client without an override.
unfoldable pub default_marks : Config → List Statement
unfolding find_upstream resolve
default_marks c = elim (find_upstream c (resolve c [])) [
  | none ↦ []
  | some u ↦ mark_default u.table ∷ []
]

unfoldable pub redirects : List Upstream → List Statement
unfolding socks_port
redirects [] = []
redirects (u ∷ us) =
    let rest = redirects us in
    if is_socks u then redirect_socks u.table (socks_port u) ∷ rest else rest

unfoldable pub masquerades : Host → List Upstream → List Statement
masquerades h [] = []
masquerades h (u ∷ us) =
    let rest = masquerades h us in
    if is_socks u || not (h.iface_exists u.iface) then rest else masquerade u.table u.iface ∷ rest

unfoldable pub nft_ruleset : Host → Config → List Statement
unfolding default_marks redirects masquerades
nft_ruleset h c =
    default_marks c
    ++ (redirects c.upstreams ++ (masquerades h c.upstreams ++ masquerade_unmarked ∷ []))

pub record Tools (K : Type 0) : Type 0 where
  pub fails : List Command → Command → Bool
  pub effect : Command → K → K
  pub relays_fail : Config → List Command → Bool

-- Every command so far, in order, and the clients' rules.
pub record World (K : Type 0) : Type 0 where
  pub log : List Command
  pub clients : State K

pub data Failure : Type 0 where
  command_failed : Command → Failure
  relays_failed : Failure

-- A line of `routeArgs` for each interface upstream, in order.
unfoldable pub all_routes : List Upstream → List Command
unfolding route_args
all_routes [] = []
all_routes (u ∷ us) = if is_socks u then all_routes us else route_args u ++ all_routes us

module _ {K : Type 0} (tools : Tools K) where
  unfoldable pub exec : Command → World K → Bool × World K
  exec cmd w = (
    not (tools.fails w.log cmd),
    record {
      log = w.log ++ cmd ∷ [];
      clients =
          if tools.fails w.log cmd
          then w.clients
          else record w.clients { kernel = tools.effect cmd w.clients.kernel };
    },
  )

  -- Commands whose failures are ignored.
  unfoldable pub exec_all : List Command → World K → World K
  unfolding exec
  exec_all [] w = w
  exec_all (cmd ∷ cmds) w = exec_all cmds (exec cmd w).1

  unfoldable pub clear_band : World K → World K
  unfolding exec_all teardown_args
  clear_band w = exec_all (teardown_args ++ nft_delete ∷ []) w

  -- Commands whose failures are collected.
  unfoldable pub exec_collect : List Command → World K → List Failure × World K
  unfolding exec
  exec_collect [] w = ([], w)
  exec_collect (cmd ∷ cmds) w =
      let (good, next) = exec cmd w in
      let (errs, last) = exec_collect cmds next in
      (if good then errs else command_failed cmd ∷ errs, last)

  -- From the ruleset on, with the failures so far. Those of `reinstall` are not collected.
  unfoldable pub install :
      Nft K → List Text → Host → Config → List Failure → World K → List Failure × World K
  unfolding exec nft_ruleset reinstall
  install n order h c errs w =
      let rules = nft_ruleset h c in
      let (checked, w₁) = exec (nft_check rules) w in
      if not checked
      then (errs ++ command_failed (nft_check rules) ∷ [], w₁)
      else let (loaded, w₂) = exec (nft_load rules) w₁ in
        if not loaded
        then (errs ++ command_failed (nft_load rules) ∷ [], w₂)
        else (errs, record w₂ { clients = reinstall n c order w₂.clients })

  unfoldable pub apply_valid : Nft K → List Text → Host → Config → World K → List Failure × World K
  unfolding clear_band exec_collect all_routes install
  apply_valid n order h c w =
      let (errs, w₁) = exec_collect (all_routes c.upstreams) (clear_band w) in
      let relays : List Failure = if tools.relays_fail c w₁.log then relays_failed ∷ [] else [] in
      install n order h c (errs ++ relays) w₁

  unfoldable pub apply :
      Nft K → List Text → Host → Config → World K → Result Error (List Failure) × World K
  unfolding validate apply_valid
  apply n order h c w = elim (validate h c) [
    | err e ↦ (err e, w)
    | ok u ↦ (ok (apply_valid n order h c w).0, (apply_valid n order h c w).1)
  ]

  unfoldable pub teardown : World K → List Failure × World K
  unfolding clear_band
  teardown w =
      let w₁ = clear_band w in
      (
        if tools.relays_fail (record { upstreams = []; default = []; per_cn = [] }) w₁.log
            then relays_failed ∷ []
            else [],
        w₁,
      )
