-- ===== src/Api/VpnConfig/Synced.antt =====
-- What a change of the configuration leads to, and when server.conf is the text of the saved one.
use ovcp.Base.{
  ◌≡◌, refl, sym, ap, subst, ◌∙◌, ◌⊎◌, inl, inr, Bool, true, false, ◌&&◌, Option, some, List, [],
  ◌∷◌, Text, Result, ok, err, ◌>>=◌, Result-cases, Bool-cases, if◌then◌else◌, arith,
}
use ovcp.Ovpnconf.Server.{Net, Config, Error, validate}
use ovcp.Ovpnconf.Render.{
  render, Files, WriteError, invalid, write_failed, rename_failed, installed, write_atomic,
}
use ovcp.Ovpnconf.Diff.{diff, lines, diff-lines}
use ovcp.Api.VpnConfig.{
  Setup, load_config, Io, Failure, save_failed, refused, save_config, preview_vpn_config, written,
  write_saved, audited, set_previewed, set_vpn_config, set_management_client_auth,
}

-- The step that fails.
abbrev pub file_error : Files → WriteError
file_error f = if f.writes then rename_failed else write_failed

-- Where a valid configuration is saved and written: how far it gets.
abbrev Saved : Net → Io → Config → Setup → Result Failure (Unit {0}) × Setup → Type 0
Saved net io c s q =
    ((io.saves ≡ false) × (q ≡ (err save_failed, s)))
    ⊎ ((io.saves ≡ true)
        × (io.files.writes && io.files.renames ≡ false)
        × (q ≡ (err (refused (file_error io.files)), record s { vpn_config = some c })))
    ⊎ ((io.saves ≡ true)
        × (io.files.writes && io.files.renames ≡ true)
        × (q ≡ (ok tt, record s { vpn_config = some c; conf_file = some (render net c) })))

write_saved-Saved :
    (net : Net) (io : Io) (c : Config) (s : Setup)
    → validate net c ≡ ok tt
    → Saved net io c s (write_saved net io c s (save_config io c s))
unfolding save_config write_atomic
write_saved-Saved net io c s v =
    let s2 : Setup = record s { vpn_config = some c } in
    let put : Result Error (Unit {0}) → Result WriteError (Unit {0}) × Option Text =
      installed net io.files c s2.conf_file in
    elim (Bool-cases io.saves) [
      | inr n ↦ inl (n, rw n refl)
      | inl y ↦ inr (elim (Bool-cases io.files.writes) [
        | inr w ↦ inl (y, ground arith, rw y (ap (λ k. written s2 (put k)) v ∙ rw w refl))
        | inl w ↦ elim (Bool-cases io.files.renames) [
          | inr r ↦ inl (y, ground arith, rw y (ap (λ k. written s2 (put k)) v ∙ rw (w, r) refl))
          | inl r ↦ inr (y, ground arith, rw y (ap (λ k. written s2 (put k)) v ∙ rw (w, r) refl))
        ]
      ])
    ]

-- What a change leads to.
abbrev pub Changed :
    Net → Config → Io → Text → Config → Setup → Result Failure (List Text) × Setup → Type 0
Changed net default io actor c s (r, s2) =
    ((e : Error) × (r ≡ err (refused (invalid e))) × (validate net c ≡ err e) × (s2 ≡ s))
    ⊎ ((r ≡ ok [])
        × (validate net c ≡ ok tt)
        × (lines (render net (load_config default s)) ≡ lines (render net c))
        × (s2 ≡ s))
    ⊎ ((r ≡ err save_failed) × (validate net c ≡ ok tt) × (io.saves ≡ false) × (s2 ≡ s))
    ⊎ ((r ≡ err (refused (file_error io.files)))
        × (validate net c ≡ ok tt)
        × (io.files.writes && io.files.renames ≡ false)
        × (s2 ≡ record s { vpn_config = some c }))
    ⊎ ((l : Text) × (ls : List Text) × (r ≡ ok (l ∷ ls))
        × (validate net c ≡ ok tt)
        × (s2 ≡ record s {
          vpn_config = some c;
          conf_file = some (render net c);
          changes = actor ∷ s.changes;
        }))

audited-Changed :
    (net : Net) (default : Config) (io : Io) (actor : Text) (c : Config) (s : Setup) (l : Text)
    (ls : List Text) (q : Result Failure (Unit {0}) × Setup)
    → validate net c ≡ ok tt
    → Saved net io c s q
    → Changed net default io actor c s (audited actor (l ∷ ls) q)
audited-Changed net default io actor c s l ls q v (inl (n, e)) =
    subst (λ k. Changed net default io actor c s (audited actor (l ∷ ls) k)) (sym e)
      (inr (inr (inl (refl, v, n, refl))))
audited-Changed net default io actor c s l ls q v (inr (inl (y, n, e))) =
    subst (λ k. Changed net default io actor c s (audited actor (l ∷ ls) k)) (sym e)
      (inr (inr (inr (inl (refl, v, n, refl)))))
audited-Changed net default io actor c s l ls q v (inr (inr (y, n, e))) =
    subst (λ k. Changed net default io actor c s (audited actor (l ∷ ls) k)) (sym e)
      (inr (inr (inr (inr (l, ls, refl, v, refl)))))

set_previewed-Changed :
    (net : Net) (default : Config) (io : Io) (actor : Text) (c : Config) (s : Setup) (d : List Text)
    → validate net c ≡ ok tt
    → diff (render net (load_config default s)) (render net c) ≡ d
    → Changed net default io actor c s (set_previewed net io actor c s (ok d))
set_previewed-Changed net default io actor c s [] v h =
    inr (inl (refl, v, (diff-lines (render net (load_config default s)) (render net c)).0 h, refl))
set_previewed-Changed net default io actor c s (l ∷ ls) v h =
    audited-Changed net default io actor c s l ls _ v (write_saved-Saved net io c s v)

pub set_vpn_config-Changed :
    (net : Net) (default : Config) (io : Io) (actor : Text) (c : Config) (s : Setup)
    → Changed net default io actor c s (set_vpn_config net default io actor c s)
unfolding set_vpn_config preview_vpn_config
set_vpn_config-Changed net default io actor c s =
    let d = diff (render net (load_config default s)) (render net c) in
    elim (Result-cases (validate net c)) [
      | inl (u, v) ↦
          subst
            (λ k.
              Changed net default io actor c s (set_previewed net io actor c s (k >>= (λ x. ok d))))
            (sym v) (set_previewed-Changed net default io actor c s d v refl)
      | inr (e, v) ↦
          subst
            (λ k.
              Changed net default io actor c s (set_previewed net io actor c s (k >>= (λ x. ok d))))
            (sym v) (inl (e, refl, v, refl))
    ]

auth-validate :
    (net : Net) (c : Config) (active : Bool)
    → validate net (record c { management_client_auth = active }) ≡ validate net c
unfolding validate
auth-validate net c active = refl

-- A change of the configuration: by an actor, or of the flag that per-client upstreams need.
pub data Change : Type 0 where
  set_by : Text → Config → Change
  set_auth : Bool → Change

-- Whether the file lags behind: since a write that failed, and until one goes through.
abbrev lags : Bool → Failure → Bool
lags b save_failed = b
lags b (refused (invalid e)) = b
lags b (refused write_failed) = true
lags b (refused rename_failed) = true

abbrev auth_lags : Bool → Result Failure (Unit {0}) → Bool
auth_lags b (ok u) = false
auth_lags b (err e) = lags b e

-- A change that is none writes nothing.
abbrev set_lags : Bool → Result Failure (List Text) → Bool
set_lags b (ok []) = b
set_lags b (ok (l ∷ ls)) = false
set_lags b (err e) = lags b e

abbrev set_after : Bool → Result Failure (List Text) × Setup → Bool × Setup
set_after b (r, s) = (set_lags b r, s)

abbrev auth_after : Bool → Result Failure (Unit {0}) × Setup → Bool × Setup
auth_after b (r, s) = (auth_lags b r, s)

-- The changes in their order; the Boolean says whether the file lags behind.
unfoldable pub run_changes : Net → Config → List (Io × Change) → Bool × Setup → Bool × Setup
unfolding set_vpn_config set_management_client_auth
run_changes net default [] (b, s) = (b, s)
run_changes net default ((io, set_by actor c) ∷ cs) (b, s) =
    run_changes net default cs (set_after b (set_vpn_config net default io actor c s))
run_changes net default ((io, set_auth active) ∷ cs) (b, s) =
    run_changes net default cs (auth_after b (set_management_client_auth net default io active s))

-- The saved configuration is valid, and the file is its text, unless it lags behind.
abbrev pub IsSynced : Net → Config → Bool × Setup → Type 0
IsSynced net default (b, s) =
    (validate net (load_config default s) ≡ ok tt)
    × (b ≡ false → s.conf_file ≡ some (render net (load_config default s)))

lags-file : (b : Bool) (f : Files) → lags b (refused (file_error f)) ≡ true
lags-file b f = elim (Bool-cases f.writes) [ inl w ↦ rw w refl | inr w ↦ rw w refl ]

behind :
    (net : Net) (default c : Config) (s : Setup) (b k : Bool)
    → validate net c ≡ ok tt
    → k ≡ true
    → IsSynced net default (k, record s { vpn_config = some c })
behind net default c s b k v h = (v, λ e. absurd (ground arith))

set-IsSynced :
    (net : Net) (default : Config) (io : Io) (actor : Text) (c : Config) (b : Bool) (s : Setup)
    (q : Result Failure (List Text) × Setup)
    → IsSynced net default (b, s)
    → Changed net default io actor c s q
    → IsSynced net default (set_after b q)
set-IsSynced net default io actor c b s (r, s2) h (inl (e, a, v, same)) =
    subst (λ k. IsSynced net default (set_after b k)) (sym (ap (λ x. (x, s2)) a))
      (subst (λ k. IsSynced net default (b, k)) (sym same) h)
set-IsSynced net default io actor c b s (r, s2) h (inr (inl (a, v, d, same))) =
    subst (λ k. IsSynced net default (set_after b k)) (sym (ap (λ x. (x, s2)) a))
      (subst (λ k. IsSynced net default (b, k)) (sym same) h)
set-IsSynced net default io actor c b s (r, s2) h (inr (inr (inl (a, v, n, same)))) =
    subst (λ k. IsSynced net default (set_after b k)) (sym (ap (λ x. (x, s2)) a))
      (subst (λ k. IsSynced net default (b, k)) (sym same) h)
set-IsSynced net default io actor c b s (r, s2) h (inr (inr (inr (inl (a, v, n, new))))) =
    subst (λ k. IsSynced net default (set_after b k)) (sym (ap (λ x. (x, s2)) a))
      (subst (λ k. IsSynced net default (lags b (refused (file_error io.files)), k)) (sym new)
        (behind net default c s b _ v (lags-file b io.files)))
set-IsSynced net default io actor c b s (r, s2) h (inr (inr (inr (inr (l, ls, a, v, new))))) =
    subst (λ k. IsSynced net default (set_after b k)) (sym (ap (λ x. (x, s2)) a))
      (subst (λ k. IsSynced net default (false, k)) (sym new) (v, λ e. refl))

Saved-IsSynced :
    (net : Net) (default : Config) (io : Io) (c : Config) (b : Bool) (s : Setup)
    (q : Result Failure (Unit {0}) × Setup)
    → validate net c ≡ ok tt
    → IsSynced net default (b, s)
    → Saved net io c s q
    → IsSynced net default (auth_after b q)
Saved-IsSynced net default io c b s q v h (inl (n, e)) =
    subst (λ k. IsSynced net default (auth_after b k)) (sym e) h
Saved-IsSynced net default io c b s q v h (inr (inl (y, n, e))) =
    subst (λ k. IsSynced net default (auth_after b k)) (sym e)
      (behind net default c s b _ v (lags-file b io.files))
Saved-IsSynced net default io c b s q v h (inr (inr (y, n, e))) =
    subst (λ k. IsSynced net default (auth_after b k)) (sym e) (v, λ k. refl)

auth-IsSynced :
    (net : Net) (default : Config) (io : Io) (active b : Bool) (s : Setup)
    → IsSynced net default (b, s)
    → IsSynced net default (auth_after b (set_management_client_auth net default io active s))
unfolding set_management_client_auth
auth-IsSynced net default io active b s h =
    let c : Config = record (load_config default s) { management_client_auth = active } in
    let v = auth-validate net (load_config default s) active ∙ h.0 in
    Saved-IsSynced net default io c b s _ v h (write_saved-Saved net io c s v)

-- Through any changes that run one after the other, whatever of them is invalid and whatever cannot be saved
-- or written, the saved configuration stays valid, and server.conf is its text, except from a write of the
-- file that fails until one goes through.
pub run_changes-IsSynced :
    (net : Net) (default : Config) (cs : List (Io × Change)) (b : Bool) (s : Setup)
    → IsSynced net default (b, s)
    → IsSynced net default (run_changes net default cs (b, s))
unfolding run_changes
run_changes-IsSynced net default [] b s h = h
run_changes-IsSynced net default ((io, set_by actor c) ∷ cs) b s h =
    let q = set_vpn_config net default io actor c s in
    run_changes-IsSynced net default cs (set_after b q).0 (set_after b q).1 (
      set-IsSynced net default io actor c b s q h (set_vpn_config-Changed net default io actor c s))
run_changes-IsSynced net default ((io, set_auth active) ∷ cs) b s h =
    let q = set_management_client_auth net default io active s in
    run_changes-IsSynced net default cs (auth_after b q).0 (auth_after b q).1
      (auth-IsSynced net default io active b s h)
