-- ===== src/Upstream/Applied.antt =====
-- Runs of `Apply` in which a route fails, or nothing does.
use ovcp.Base.{
  ◌≡◌, refl, inl, Bool, true, false, List, [], ◌∷◌, ◌++◌, arith, any, In, codes, text_discrete,
  lookup,
}
use ovcp.Store.Names.{check_name, all_name_bytes, is_name_byte}
use ovcp.Upstream.Config.{Upstream, validate}
use ovcp.Base.{pos}
use ovcp.Upstream.Rules.Synced.{KernelRule, Synced, Marked}
use ovcp.Upstream.Apply.{
  Command, rule_del, route_flush, route_dev, nft_load, rule_prio, Tools, World, route_args,
  all_routes, nft_ruleset, exec, exec_all, clear_band, exec_collect, install, apply_valid, apply,
}
use ovcp.Upstream.Apply.Routes.{is_clearing, Guarded}
use ovcp.Upstream.Apply.Commands.{apply-Guarded, apply-Synced}
use ovcp.Upstream.Examples.{host, config, config-accepted, table_nft, table_nft-IsNft, stale}

abbrev is_route_dev : Command → Bool
is_route_dev (route_dev iface table) = true
is_route_dev _ = false

abbrev loaded : Command → List KernelRule → List KernelRule
loaded (nft_load rules) rs = []
loaded _ rs = rs

-- No default route can be set.
abbrev no_route : Tools (List KernelRule)
no_route = record {
  fails = λ log cmd. is_route_dev cmd;
  effect = loaded;
  relays_fail = λ c log. false;
}

abbrev smooth : Tools (List KernelRule)
smooth = record no_route { fails = λ log cmd. false }

abbrev before_apply : World (List KernelRule)
before_apply = record { log = []; clients = stale }

abbrev wired : Upstream
wired = record {
  id = codes "wan";
  iface = codes "eth0";
  gateway = [];
  socks = [];
  dial_timeout = pos 0;
  handshake_timeout = pos 0;
  table = 100;
  description = [];
}

apply-Guarded_case :
    (before after : List Command) × ((apply no_route table_nft
        (codes "1" ∷ [])
        host
        config
        before_apply).1.log
      ≡ before ++ after)
    × In (route_flush 100) before
    × In (rule_del (rule_prio 100)) before
    × Guarded wired after
    × (any is_clearing after ≡ false)
apply-Guarded_case =
    apply-Guarded no_route table_nft (codes "1" ∷ []) host config before_apply wired config-accepted
      (inl refl) refl

apply-Synced_example :
    Synced
      (Marked config)
      (λ _. Unit)
      (apply smooth table_nft (codes "1" ∷ []) host config before_apply).1.clients.kernel
      (apply smooth table_nft (codes "1" ∷ []) host config before_apply).1.clients.tracked
unfolding lookup apply apply_valid clear_band exec_collect exec_all exec install all_routes
    route_args nft_ruleset validate check_name all_name_bytes is_name_byte text_discrete
apply-Synced_example =
    apply-Synced smooth table_nft (λ rs. rs) table_nft-IsNft (codes "1" ∷ []) host config
      before_apply
      (λ cid r l. elim (text_discrete (codes "1") cid) [
        | yes e ↦ inl e
        | no n ↦ absurd (ground arith)
      ])
      refl
