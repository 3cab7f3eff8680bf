-- ===== src/Api/VpnConfig/Repeated.antt =====
-- What a configuration change does that is repeated after its file could not be written.
use ovcp.Base.{◌∷◌, ◌≡◌, refl, sym, ap, ◌∙◌, inl, inr, some, List, [], Text, Result, ok, err, ◌>>=◌}
use ovcp.Ovpnconf.Server.{Net, Config, validate}
use ovcp.Ovpnconf.Render.{render, WriteError}
use ovcp.Ovpnconf.Diff.{diff, lines, diff-lines}
use ovcp.Api.VpnConfig.{
  Setup, load_config, Io, Failure, save_failed, refused, preview_vpn_config, set_previewed,
  set_vpn_config,
}
use ovcp.Api.VpnConfig.Synced.{Changed, set_vpn_config-Changed}

ok-ne-err : {E A : Type 0} (a : A) (e : E) → ok a ≡ err e → ⊥
ok-ne-err a e h = cc

err-ne-refused :
    {A : Type 0} (r : Result Failure A) (e : WriteError)
    → r ≡ err save_failed
    → r ≡ err (refused e)
    → ⊥
err-ne-refused r e a h = cc

-- A configuration that is the saved one already.
saved-again :
    (net : Net) (default : Config) (io : Io) (actor : Text) (c : Config) (s : Setup)
    → validate net c ≡ ok tt
    → s.vpn_config ≡ some c
    → set_vpn_config net default io actor c s ≡ (ok [], s)
unfolding set_vpn_config preview_vpn_config
saved-again net default io actor c s v e =
    let same : load_config default s ≡ c = rw e refl in
    let none_differ : diff (render net (load_config default s)) (render net c) ≡ [] =
      (diff-lines (render net (load_config default s)) (render net c)).1
        (ap (λ k. lines (render net k)) same) in
    ap
      (λ k.
        set_previewed net io actor c s
          (k >>= (λ x. ok (diff (render net (load_config default s)) (render net c)))))
      v
    ∙ ap (λ d. set_previewed net io actor c s (ok d)) none_differ

failed-saves :
    (net : Net) (default : Config) (io : Io) (actor : Text) (c : Config) (s : Setup)
    (e : WriteError) (q : Result Failure (List Text) × Setup)
    → validate net c ≡ ok tt
    → q.0 ≡ err (refused e)
    → Changed net default io actor c s q
    → q.1 ≡ record s { vpn_config = some c }
failed-saves net default io actor c s e (r, s2) v h (inl (x, a, b, same)) =
    absurd (ok-ne-err tt x (sym v ∙ b))
failed-saves net default io actor c s e (r, s2) v h (inr (inl (a, b, d, same))) =
    absurd (ok-ne-err [] (refused e) (sym a ∙ h))
failed-saves net default io actor c s e (r, s2) v h (inr (inr (inl (a, b, d, same)))) =
    absurd (err-ne-refused r e a h)
failed-saves net default io actor c s e (r, s2) v h (inr (inr (inr (inl (a, b, d, new))))) = new
failed-saves net default io actor c s e (r, s2) v h (inr (inr (inr (inr (l, ls, a, b, new))))) =
    absurd (ok-ne-err (l ∷ ls) (refused e) (sym a ∙ h))

-- After a write of server.conf that failed, the same call does not repair it: `SetVPNConfig` compares the
-- configuration with the saved setting, which it is already, so it answers that nothing has changed and
-- leaves the file as it was before the first call.
pub set_vpn_config-unrepaired :
    (net : Net) (default : Config) (io again : Io) (actor : Text) (c : Config) (s : Setup)
    (e : WriteError)
    → validate net c ≡ ok tt
    → (set_vpn_config net default io actor c s).0 ≡ err (refused e)
    → let s2 = (set_vpn_config net default io actor c s).1 in
      (s2.conf_file ≡ s.conf_file) × (set_vpn_config net default again actor c s2 ≡ (ok [], s2))
set_vpn_config-unrepaired net default io again actor c s e v h =
    let q = set_vpn_config net default io actor c s in
    let new =
      failed-saves net default io actor c s e q v h
        (set_vpn_config-Changed net default io actor c s) in
    (
      ap (λ k. k.conf_file) new,
      saved-again net default again actor c q.1 v (ap (λ k. k.vpn_config) new),
    )
