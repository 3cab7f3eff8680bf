-- ===== src/Upstream/Examples.antt =====
-- Runs on small configurations, and on a table that keeps its rules in a list.
use ovcp.Base.{
  [], ℕ, ◌+◌, max, ◌≤◌, ◌<◌, ◌≡◌, refl, subst, ◌↔◌, ◌⊎◌, inl, true, false, not, Option, none, some,
  List, ◌∷◌, ◌++◌, arith, keep, any, find, Text, codes, text_discrete, lookup, erase, insert, ok,
}
use ovcp.Upstream.Config.{
  Host, Upstream, Config, is_iface, all_iface_bytes, validate_mode, validate_one, validate_all,
  validate, has_table, find_upstream, resolve, next_table_from, next_table, with_added, without,
  assign, assigned, set_default, validated, table_base, max_upstreams,
}
use ovcp.Base.{pos}
use ovcp.Store.Names.{check_name, all_name_bytes, is_name_byte}
use ovcp.Upstream.Tables.{next_table-lowest, next_table-total}
use ovcp.Upstream.Valid.{IsValid}
use ovcp.Upstream.Changes.{
  validate-IsValid, without-IsValid, with_added-IsValid, assign-IsValid, set_default-IsValid,
}
use ovcp.Upstream.Resolving.{resolve-assign, resolve-without, resolve-defined}
use ovcp.Upstream.Rules.{
  Nft, Rule, State, parse_lines, parse_handle, add_rule, add_tracked, install_rule, reassign,
  reinstall,
}
use ovcp.Upstream.Rules.Synced.{KernelRule, has_handle, IsNft, Backed, Synced, Marked}
use ovcp.Upstream.Rules.Runs.{Call, established, disconnected, reassigned, run, run-Synced}
use ovcp.Upstream.Rules.Assigned.{reassign-Marked}
use ovcp.Upstream.Rules.Rebuilt.{reinstall-Synced}

abbrev pub host : Host
host = record { is_ip = λ t. true; parse_url = λ t. none; iface_exists = λ t. true }

abbrev wan : Upstream
wan = record {
  id = codes "wan";
  iface = codes "eth0";
  gateway = [];
  socks = [];
  dial_timeout = pos 0;
  handshake_timeout = pos 0;
  table = 100;
  description = [];
}

abbrev lte : Upstream
lte = record wan { id = codes "lte"; iface = codes "wwan0"; table = 101 }

abbrev pub config : Config
config = record {
  upstreams = wan ∷ lte ∷ [];
  default = codes "wan";
  per_cn = (codes "phone", codes "lte") ∷ [];
}

pub config-accepted : validate host config ≡ ok tt
unfolding validate validate_all validate_one validate_mode is_iface all_iface_bytes check_name
    all_name_bytes is_name_byte any text_discrete
config-accepted = refl

validate-IsValid_example : (validate host config ≡ ok tt) ↔ IsValid host config
validate-IsValid_example = validate-IsValid host config

next_table-lowest_case :
    (table_base ≤ 102)
    × (102 < table_base + max_upstreams)
    × (any (has_table 102) config.upstreams ≡ false)
    × ((s : ℕ) → table_base ≤ s → s < 102 → any (has_table s) config.upstreams ≡ true)
unfolding next_table next_table_from any
next_table-lowest_case = next_table-lowest config.upstreams 102 refl

next_table-total_case : (t : ℕ) × (next_table config.upstreams ≡ ok t)
next_table-total_case = next_table-total config.upstreams (omega arith)

without-IsValid_case : IsValid host (without config (codes "wan")).0
without-IsValid_case =
    without-IsValid host config (codes "wan") (validate-IsValid_example.0 config-accepted)

abbrev dsl : Upstream
dsl = record wan { id = codes "dsl"; iface = codes "ppp0"; table = 102 }

with_added-IsValid_case : IsValid host (record config { upstreams = wan ∷ lte ∷ dsl ∷ [] })
unfolding with_added next_table next_table_from validate validate_all validate_one validate_mode
    is_iface all_iface_bytes check_name all_name_bytes is_name_byte any text_discrete
with_added-IsValid_case =
    with_added-IsValid host config (record config { upstreams = wan ∷ lte ∷ dsl ∷ [] })
      (record dsl { table = 0 }) dsl refl

abbrev moved : Config
moved = record config { per_cn = (codes "phone", codes "wan") ∷ [] }

phone_moved : assign host config (codes "phone") (codes "wan") false ≡ ok moved
unfolding assign assigned validated insert erase validate validate_all validate_one validate_mode
    is_iface all_iface_bytes check_name all_name_bytes is_name_byte any text_discrete
phone_moved = refl

assign-IsValid_case : IsValid host moved
assign-IsValid_case =
    assign-IsValid host config moved (codes "phone") (codes "wan") false phone_moved

set_default_accepted : IsValid host (record config { default = codes "lte" })
unfolding set_default validated validate validate_all validate_one validate_mode is_iface
    all_iface_bytes check_name all_name_bytes is_name_byte any text_discrete
set_default_accepted =
    set_default-IsValid host config (record config { default = codes "lte" }) (codes "lte") refl

resolve-assign_case : resolve moved (codes "phone") ≡ codes "wan"
unfolding text_discrete
resolve-assign_case =
    resolve-assign host config moved (codes "phone") (codes "wan") false (codes "phone") phone_moved

resolve-without_case : resolve (without config (codes "lte")).0 (codes "phone") ≡ codes "wan"
unfolding resolve lookup text_discrete
resolve-without_case = resolve-without config (codes "lte") (codes "phone") (refl, tt)

resolve-defined_case :
    (resolve config (codes "phone") ≡ [])
    ⊎ ((u : Upstream) × (find_upstream config (resolve config (codes "phone")) ≡ some u)
        × (u.id ≡ resolve config (codes "phone")))
resolve-defined_case =
    resolve-defined host config (codes "phone") (validate-IsValid_example.0 config-accepted)

-- A table that hands out one more than its largest handle.
unfoldable pub next_handle : List KernelRule → ℕ
next_handle [] = 1
next_handle (r ∷ rs) = max (r.handle + 1) (next_handle rs)

abbrev pub first_byte : Text → Option ℕ
first_byte [] = none
first_byte (c ∷ t) = some c

abbrev pub table_nft : Nft (List KernelRule)
table_nft = record {
  is_v4 = λ t. true;
  add = λ ip table rs. (
    some (codes "# handle " ++ next_handle rs ∷ []),
    rs ++ (record { handle = next_handle rs; ip = ip; table = table }) ∷ [],
  );
  del = λ h rs. (any (has_handle h) rs, keep (λ r. not (has_handle h r)) rs);
  lines = λ t. t ∷ [];
  index = λ t mark. some 0;
  trim = λ t. t;
  atoi = first_byte;
}

next_handle-fresh :
    (h : ℕ) (rs : List KernelRule) → next_handle rs ≤ h → any (has_handle h) rs ≡ false
unfolding next_handle any
next_handle-fresh h [] l = refl
next_handle-fresh h (r ∷ rs) l = ground (arith, next_handle-fresh h rs)

keep_none :
    (h : ℕ) (rs : List KernelRule)
    → any (has_handle h) rs ≡ false
    → keep (λ r. not (has_handle h r)) rs ≡ rs
unfolding any keep
keep_none h [] e = refl
keep_none h (r ∷ rs) e = ground (arith, keep_none h rs)

printed-parsed :
    (rs : List KernelRule) (out : Text)
    → codes "# handle " ++ next_handle rs ∷ [] ≡ out
    → parse_handle table_nft out ≡ some (next_handle rs)
unfolding parse_handle parse_lines
printed-parsed rs out e = subst (λ o. parse_handle table_nft o ≡ some (next_handle rs)) e refl

pub table_nft-IsNft : IsNft table_nft (λ rs. rs)
unfolding parse_handle parse_lines next_handle
table_nft-IsNft = record {
  added = λ ip table rs out e. (
    next_handle rs,
    printed-parsed rs out (ground arith),
    refl,
    next_handle-fresh (next_handle rs) rs (omega arith),
  );
  not_added = λ ip table rs e. absurd (ground arith);
  deleted = λ h rs e. refl;
  not_deleted = λ h rs e. keep_none h rs e;
}

abbrev start : State (List KernelRule)
start = record { tracked = []; kernel = [] }

abbrev calls : List Call
calls =
    established (codes "1") (codes "phone") (codes "10.8.0.2") config
    ∷ reassigned (codes "1") (codes "phone") (codes "10.8.0.2") config
    ∷ disconnected (codes "2")
    ∷ []

start-Synced : (P : Rule → ℕ → Type 0) → Synced P (λ _. Unit) [] []
unfolding lookup
start-Synced P = record {
  backed = λ cid r d l. absurd (ground arith);
  apart = λ a b r q _ _ l _ _. absurd (ground arith);
}

run-Synced_example :
    Synced
      (Marked config)
      (λ _. Unit)
      (run table_nft start calls).kernel
      (run table_nft start calls).tracked
run-Synced_example =
    run-Synced table_nft (λ rs. rs) table_nft-IsNft (Marked config) calls start
      (λ r t m. m, (λ r t m. m, (tt, tt))) (start-Synced (Marked config))

reassign-Marked_example :
    ((lookup text_discrete (codes "phone") config.per_cn ≡ none)
      × (lookup text_discrete
            (codes "1")
            (reassign table_nft
              (codes "1")
              (codes "phone")
              (codes "10.8.0.2")
              config
              start).1.tracked
          ≡ none))
    ⊎ ((r : Rule) × (lookup text_discrete
            (codes "1")
            (reassign table_nft
              (codes "1")
              (codes "phone")
              (codes "10.8.0.2")
              config
              start).1.tracked
          ≡ some r)
        × (r.cn ≡ codes "phone")
        × (r.ip ≡ codes "10.8.0.2")
        × Backed
            (Marked config)
            (reassign table_nft
              (codes "1")
              (codes "phone")
              (codes "10.8.0.2")
              config
              start).1.kernel
            r)
unfolding reassign install_rule add_tracked add_rule parse_handle parse_lines find_upstream find
    lookup text_discrete next_handle
reassign-Marked_example =
    reassign-Marked table_nft (λ rs. rs) table_nft-IsNft (Marked config) (codes "1") (codes "phone")
      (codes "10.8.0.2") config start (start-Synced (Marked config)) refl

abbrev pub stale : State (List KernelRule)
stale = record {
  tracked = (codes "1", record { ip = codes "10.8.0.2"; cn = codes "phone"; handle = 9 }) ∷ [];
  kernel = [];
}

reinstall-Synced_example :
    Synced
      (Marked config)
      (λ _. Unit)
      (reinstall table_nft config (codes "1" ∷ []) stale).kernel
      (reinstall table_nft config (codes "1" ∷ []) stale).tracked
unfolding lookup
reinstall-Synced_example =
    reinstall-Synced table_nft (λ rs. rs) table_nft-IsNft config (codes "1" ∷ []) stale
      (λ cid r l. elim (text_discrete (codes "1") cid) [
        | yes e ↦ inl e
        | no n ↦ absurd (ground arith)
      ])
