-- ===== src/Upstream/Rules.antt =====
-- internal/upstream/upstream.go: the mark rules of the connected clients that have an override, from
-- `trackedRule` to `removeRule`, and `reinstall`. The kernel's table stands behind `Nft`: nft itself,
-- Go's net.ParseIP and the string functions that read nft's output. A `range` over `tracked` visits
-- the client ids in an order that is given.
pub mod Synced
pub mod Kept
pub mod Runs
pub mod Assigned
pub mod Rebuilt
use ovcp.Base.{
  [], ℕ, ◌+◌, ◌-◌, ◌*◌, ◌/◌, ◌%◌, ◌^◌, ◌≤◌, ◌<◌, ◌≡◌, ◌∙◌, ◌≢◌, ◌↔◌, ◌⊎◌, Bool, not, ◌&&◌, ◌||◌,
  Option, none, some, List, ◌∷◌, ◌++◌, ◌==◌, if◌then◌else◌, drop, Text, codes, text_discrete, Map,
  lookup, erase, insert, Result, ok, err, ◌>>=◌, ◌>>◌,
}
use ovcp.Upstream.Config.{Upstream, Config, find_upstream}

-- `nft`, on a kernel state `K`.
pub record Nft (K : Type 0) : Type 0 where
  pub is_v4 : Text → Bool
  pub add : Text → ℕ → K → Option Text × K
  pub del : ℕ → K → Bool × K
  pub lines : Text → List Text
  pub index : Text → Text → Option ℕ
  pub trim : Text → Text
  pub atoi : Text → Option ℕ

pub data Error : Type 0 where
  bad_ip add_failed no_handle del_failed upstream_gone : Error

-- `trackedRule`
pub record Rule : Type 0 where
  pub ip : Text
  pub cn : Text
  pub handle : ℕ

pub record State (K : Type 0) : Type 0 where
  pub tracked : Map Text Rule
  pub kernel : K

module _ {K : Type 0} (n : Nft K) where
  unfoldable pub parse_lines : List Text → Option ℕ
  parse_lines [] = none
  parse_lines (l ∷ ls) =
      let rest = parse_lines ls in
      elim (n.index l (codes "# handle ")) [
        | none ↦ rest
        | some i ↦ n.atoi (n.trim (drop (i + 9) l))
      ]

  unfoldable pub parse_handle : Text → Option ℕ
  unfolding parse_lines
  parse_handle out = parse_lines (n.lines out)

  abbrev pub handle_of : Option Text → Result Error ℕ
  handle_of none = err add_failed
  handle_of (some out) = elim (parse_handle out) [ none ↦ err no_handle | some h ↦ ok h ]

  unfoldable pub add_rule : Text → ℕ → K → Result Error ℕ × K
  unfolding parse_handle
  add_rule ip table k =
      if not (n.is_v4 ip)
      then (err bad_ip, k)
      else (handle_of (n.add ip table k).0, (n.add ip table k).1)

  unfoldable pub remove_rule : ℕ → K → Result Error (Unit {0}) × K
  remove_rule h k = (if (n.del h k).0 then ok tt else err del_failed, (n.del h k).1)

  -- What `addTracked` does with the answer of `addRule`.
  abbrev pub tracked_as :
      Text → Text → Text → Map Text Rule → Result Error ℕ × K → Result Error (Unit {0}) × State K
  tracked_as cid cn ip m (ok h, k) = (
    ok tt,
    record {
      tracked = insert text_discrete cid (record { ip = ip; cn = cn; handle = h }) m;
      kernel = k;
    },
  )
  tracked_as cid cn ip m (err e, k) = (err e, record { tracked = m; kernel = k })

  unfoldable pub add_tracked :
      Text → Text → Text → Upstream → State K → Result Error (Unit {0}) × State K
  unfolding add_rule
  add_tracked cid cn ip up s = tracked_as cid cn ip s.tracked (add_rule ip up.table s.kernel)

  -- The old rule's removal, whose failure is only logged.
  abbrev pub drop_old : Option Rule → State K → State K
  drop_old none s = s
  drop_old (some old) s = record s { kernel = (remove_rule old.handle s.kernel).1 }

  abbrev pub then_drop :
      Option Rule → Result Error (Unit {0}) × State K → Result Error (Unit {0}) × State K
  then_drop old (err e, s) = (err e, s)
  then_drop old (ok u, s) = (ok tt, drop_old old s)

  unfoldable pub install_rule :
      Text → Text → Text → Upstream → State K → Result Error (Unit {0}) × State K
  unfolding add_tracked remove_rule
  install_rule cid cn ip up s =
      then_drop (lookup text_discrete cid s.tracked) (add_tracked cid cn ip up s)

  -- What `uninstallRule` does with the answer of `removeRule`.
  abbrev pub untracked_as :
      Text → Map Text Rule → Result Error (Unit {0}) × K → Result Error (Unit {0}) × State K
  untracked_as cid m (ok u, k) = (ok tt, record { tracked = erase text_discrete cid m; kernel = k })
  untracked_as cid m (err e, k) = (err e, record { tracked = m; kernel = k })

  unfoldable pub uninstall_rule : Text → State K → Result Error (Unit {0}) × State K
  unfolding remove_rule lookup
  uninstall_rule cid s = elim (lookup text_discrete cid s.tracked) [
    | none ↦ (ok tt, s)
    | some e ↦ untracked_as cid s.tracked (remove_rule e.handle s.kernel)
  ]

  unfoldable pub establish :
      Text → Text → Text → Config → State K → Result Error (Unit {0}) × State K
  unfolding add_tracked find_upstream lookup
  establish cid cn ip c s = elim (lookup text_discrete cn c.per_cn) [
    | none ↦ (ok tt, s)
    | some id ↦ elim (find_upstream c id) [
      | none ↦ (err upstream_gone, s)
      | some up ↦ add_tracked cid cn ip up s
    ]
  ]

  unfoldable pub disconnect : Text → State K → State K
  unfolding uninstall_rule
  disconnect cid s = (uninstall_rule cid s).1

  unfoldable pub reassign :
      Text → Text → Text → Config → State K → Result Error (Unit {0}) × State K
  unfolding install_rule uninstall_rule find_upstream lookup
  reassign cid cn ip c s = elim (lookup text_discrete cn c.per_cn) [
    | none ↦ uninstall_rule cid s
    | some id ↦ elim (find_upstream c id) [
      | none ↦ (err upstream_gone, s)
      | some up ↦ install_rule cid cn ip up s
    ]
  ]

  unfoldable pub clear_all : List Text → State K → State K
  unfolding uninstall_rule
  clear_all [] s = s
  clear_all (cid ∷ order) s = clear_all order (uninstall_rule cid s).1

  abbrev pub forget : Text → State K → State K
  forget cid s = record s { tracked = erase text_discrete cid s.tracked }

  -- A client whose rule could not be added again is forgotten.
  abbrev pub kept : Text → Result Error (Unit {0}) × State K → State K
  kept cid (ok u, s) = s
  kept cid (err e, s) = forget cid s

  -- One round of `reinstall`.
  unfoldable pub reinstall_one : Config → Text → State K → State K
  unfolding add_tracked find_upstream lookup erase
  reinstall_one c cid s = elim (lookup text_discrete cid s.tracked) [
    | none ↦ s
    | some e ↦ elim (lookup text_discrete e.cn c.per_cn) [
      | none ↦ forget cid s
      | some id ↦ elim (find_upstream c id) [
        | none ↦ forget cid s
        | some up ↦ kept cid (add_tracked cid e.cn e.ip up s)
      ]
    ]
  ]

  unfoldable pub reinstall : Config → List Text → State K → State K
  unfolding reinstall_one
  reinstall c [] s = s
  reinstall c (cid ∷ order) s = reinstall c order (reinstall_one c cid s)
