-- ===== src/Api/VpnConfig.antt =====
-- internal/api/api.go: `LoadConfig`, `SaveConfig`, `PreviewVPNConfig`, `SetVPNConfig` and
-- `SetManagementClientAuth`, over the setting `vpn_config`, the file server.conf and the audit log. The
-- setting can be read, and the JSON of a configuration reads back as it; to save the setting, to write the
-- file and to rename it may each fail. A call runs alone: nothing else changes the setting or the file
-- between its steps.
pub mod Synced
pub mod Repeated
use ovcp.Base.{
  ℕ, zero, suc, ◌+◌, ◌-◌, ◌*◌, ◌/◌, ◌%◌, ◌^◌, max, ◌≤◌, ◌<◌, ◌≡◌, refl, sym, ap, subst, ◌∙◌, ◌≢◌,
  ◌↔◌, ◌⊎◌, inl, inr, ite, dite, if_pos, if_neg, Bool, true, false, not, ◌&&◌, ◌||◌, Option, none,
  some, List, [], ◌∷◌, ◌++◌, map, arith, dec_lt, dec_le, ℕ_discrete, ltb, leb, ◌==◌, within,
  if◌then◌else◌, is_yes, ltb→lt, lt→ltb, leb, Bool-cases, if-intro, Option-cases, length, take,
  drop, keep, length-append, length-keep-le, any, find, any-map, any-map-true, find-holds, find-any,
  find-none, find-not, find-keep, find-keep_of_imp, find-keep-none, any-keep, IsDistinct,
  IsDistinct-keep, In, In-keep, keep-In, All, Text, codes, text_discrete, text_eq, is_empty, Map,
  lookup, erase, insert, lookup-erase_self, lookup-erase_ne, lookup-insert_self, lookup-insert_ne,
  IsMap, IsMap-keep, IsMap-erase, IsMap-insert, lookup-keep, Result, ok, err, ◌>>=◌, ◌>>◌, refuse,
  >>=-eq-ok, Result-cases, trim_space, trim_right_space, trim_left_space, is_space, cut, cut-found,
  cut_prefix, cut_prefix-append, has_prefix, lacks, one_line, split, join,
}
use ovcp.Ovpnconf.Server.{Net, Config, Error, validate}
use ovcp.Ovpnconf.Render.{render, Files, WriteError, invalid, write_atomic}
use ovcp.Ovpnconf.Diff.{diff}

pub record Setup : Type 0 where
  -- The setting, if it was ever saved.
  pub vpn_config : Option Config
  pub conf_file : Option Text
  -- The actors of `config_change`.
  pub changes : List Text

-- `LoadConfig`; `default` is `ovpnconf.Default()`.
abbrev pub load_config : Config → Setup → Config
load_config default s = elim s.vpn_config [ none ↦ default | some c ↦ c ]

-- Whether the setting can be saved, and the file written.
pub record Io : Type 0 where
  pub saves : Bool
  pub files : Files

pub data Failure : Type 0 where
  save_failed : Failure
  refused : WriteError → Failure

-- `SaveConfig`
unfoldable pub save_config : Io → Config → Setup → Result Failure Setup
save_config io c s = if io.saves then ok (record s { vpn_config = some c }) else err save_failed

-- `PreviewVPNConfig` without the warning.
unfoldable pub preview_vpn_config : Net → Config → Setup → Config → Result Error (List Text)
unfolding validate diff render
preview_vpn_config net default s c =
    validate net c >>= (λ u. ok (diff (render net (load_config default s)) (render net c)))

abbrev pub written :
    Setup → Result WriteError (Unit {0}) × Option Text → Result Failure (Unit {0}) × Setup
written s (ok u, file) = (ok tt, record s { conf_file = file })
written s (err e, file) = (err (refused e), record s { conf_file = file })

-- `SaveConfig`, and then `WriteAtomic`: a file that fails leaves the setting saved.
abbrev pub write_saved :
    Net → Io → Config → Setup → Result Failure Setup → Result Failure (Unit {0}) × Setup
write_saved net io c s (err e) = (err e, s)
write_saved net io c s (ok s2) = written s2 (write_atomic net io.files c s2.conf_file)

abbrev pub audited :
    Text → List Text → Result Failure (Unit {0}) × Setup → Result Failure (List Text) × Setup
audited actor lines (ok u, s) = (ok lines, record s { changes = actor ∷ s.changes })
audited actor lines (err e, s) = (err e, s)

abbrev pub set_previewed :
    Net → Io → Text → Config → Setup → Result Error (List Text) → Result Failure (List Text) × Setup
set_previewed net io actor c s (err e) = (err (refused (invalid e)), s)
set_previewed net io actor c s (ok []) = (ok [], s)
set_previewed net io actor c s (ok (l ∷ ls)) =
    audited actor (l ∷ ls) (write_saved net io c s (save_config io c s))

-- `SetVPNConfig`
unfoldable pub set_vpn_config :
    Net → Config → Io → Text → Config → Setup → Result Failure (List Text) × Setup
unfolding preview_vpn_config save_config write_atomic
set_vpn_config net default io actor c s =
    set_previewed net io actor c s (preview_vpn_config net default s c)

-- `SetManagementClientAuth`
unfoldable pub set_management_client_auth :
    Net → Config → Io → Bool → Setup → Result Failure (Unit {0}) × Setup
unfolding save_config write_atomic
set_management_client_auth net default io active s =
    let c : Config = record (load_config default s) { management_client_auth = active } in
    write_saved net io c s (save_config io c s)
