-- ===== src/Upstream/Rules/Rebuilt.antt =====
-- What `reinstall` leaves when `Apply` has built the kernel's table anew and every old handle is stale.
use ovcp.Base.{
  [], ℕ, ◌≡◌, refl, sym, ap, subst, ◌∙◌, ◌≢◌, ◌⊎◌, inl, inr, none, some, List, ◌∷◌, arith,
  Option-cases, In, Text, text_discrete, Map, lookup, Result, ok, err,
}
use ovcp.Upstream.Config.{Upstream, Config, find_upstream}
use ovcp.Upstream.Rules.{
  Nft, Error, Rule, State, add_tracked, forget, kept, reinstall_one, reinstall,
}
use ovcp.Upstream.Rules.Synced.{KernelRule, IsNft, Synced, Marked, Synced-erase, Synced-move}
use ovcp.Upstream.Rules.Kept.{add_tracked-cases, add_tracked-Synced}

-- The clients that the loop has behind it.
abbrev Past : List Text → Text → Type 0
Past order cid = ¬ In cid order

Past-cons :
    (cid : Text) (order : List Text) (a : Text) → Past order a → (a ≡ cid) ⊎ Past (cid ∷ order) a
Past-cons cid order a p = elim (text_discrete a cid) [
  | yes e ↦ inl e
  | no n ↦ inr (λ h. elim h [ inl e ↦ n (sym e) | inr there ↦ p there ])
]

none-some : {r : Rule} → none ≢ some r
none-some e = cc

Synced-absent :
    (P : Rule → ℕ → Type 0) (D D' : Text → Type 0) (rs : List KernelRule) (m : Map Text Rule)
    (cid : Text)
    → ((a : Text) → D' a → (a ≡ cid) ⊎ D a)
    → lookup text_discrete cid m ≡ none
    → Synced P D rs m
    → Synced P D' rs m
Synced-absent P D D' rs m cid only e s =
    let old : (a : Text) (r : Rule) → D' a → lookup text_discrete a m ≡ some r → D a = λ a r d l.
      elim (only a d) [
        | inl q ↦ absurd (none-some (sym e ∙ ap (λ x. lookup text_discrete x m) (sym q) ∙ l))
        | inr h ↦ h
      ] in
    record {
      backed = λ a r d l. s.backed a r (old a r d l) l;
      apart = λ a b r q da db la lb. s.apart a b r q (old a r da la) (old b q db lb) la lb;
    }

module _ {K : Type 0} (n : Nft K) (rules : K → List KernelRule) (w : IsNft n rules)
    (c : Config) where
  kept-ok : (cid : Text) (x : Result Error (Unit {0}) × State K) → x.0 ≡ ok tt → kept n cid x ≡ x.1
  kept-ok cid (ok u, s) e = refl
  kept-ok cid (err u, s) e = cc

  kept-err :
      (cid : Text) (x : Result Error (Unit {0}) × State K) (u : Error)
      → x.0 ≡ err u
      → kept n cid x ≡ forget n cid x.1
  kept-err cid (ok u, s) v e = cc
  kept-err cid (err u, s) v e = refl

  abbrev InOrder : List Text → State K → Type 0
  InOrder order s = Synced (Marked c) (Past order) (rules s.kernel) s.tracked

  forget-InOrder :
      (cid : Text) (order : List Text) (s : State K)
      → InOrder (cid ∷ order) s
      → InOrder order (forget n cid s)
  forget-InOrder cid order s y =
      Synced-erase (Marked c) (Past (cid ∷ order)) (Past order) (rules s.kernel) s.tracked cid
        (Past-cons cid order) y

  kept-InOrder :
      (cid id : Text) (order : List Text) (e : Rule) (up : Upstream) (s : State K)
      → lookup text_discrete e.cn c.per_cn ≡ some id
      → find_upstream c id ≡ some up
      → InOrder (cid ∷ order) s
      → InOrder order (kept n cid (add_tracked n cid e.cn e.ip up s))
  kept-InOrder cid id order e up s l f y = elim (add_tracked-cases n rules w cid e.cn e.ip up s) [
    | inl (_, done, _, _, _, _) ↦
        subst (InOrder order) (sym (kept-ok cid (add_tracked n cid e.cn e.ip up s) done)) (
          add_tracked-Synced n rules w (Marked c) (Past (cid ∷ order)) (Past order) cid e.cn e.ip up
            s (Past-cons cid order)
            (λ r q. (id, up, ap (λ x. lookup text_discrete x c.per_cn) q ∙ l, f, refl)) y done)
    | inr (u, failed, same, unchanged) ↦
        subst (InOrder order) (sym (kept-err cid (add_tracked n cid e.cn e.ip up s) u failed)) (
          forget-InOrder cid order (add_tracked n cid e.cn e.ip up s).1
            (Synced-move (Marked c) (Past (cid ∷ order)) unchanged same y))
  ]

  reinstall_one-InOrder :
      (cid : Text) (order : List Text) (s : State K)
      → InOrder (cid ∷ order) s
      → InOrder order (reinstall_one n c cid s)
  unfolding reinstall_one
  reinstall_one-InOrder cid order s y = elim (Option-cases (lookup text_discrete cid s.tracked)) [
    | inl absent ↦ subst (InOrder order) (ground arith) (
        Synced-absent (Marked c) (Past (cid ∷ order)) (Past order) (rules s.kernel) s.tracked cid
          (Past-cons cid order) absent y)
    | inr (e, found) ↦ elim (Option-cases (lookup text_discrete e.cn c.per_cn)) [
      | inl plain ↦ subst (InOrder order) (ground arith) (forget-InOrder cid order s y)
      | inr (id, l) ↦ elim (Option-cases (find_upstream c id)) [
        | inl gone ↦ subst (InOrder order) (ground arith) (forget-InOrder cid order s y)
        | inr (up, f) ↦
            subst (InOrder order) (ground arith) (kept-InOrder cid id order e up s l f y)
      ]
    ]
  ]

  reinstall-InOrder :
      (order : List Text) (s : State K) → InOrder order s → InOrder [] (reinstall n c order s)
  unfolding reinstall
  reinstall-InOrder [] s y = y
  reinstall-InOrder (cid ∷ order) s y =
      reinstall-InOrder order (reinstall_one n c cid s) (reinstall_one-InOrder cid order s y)

  -- With nft as its manual says, and whatever the kernel's table holds: a `reinstall` that visits every tracked client leaves each client
  -- that is still tracked with a rule of its own in the kernel, for its address, that marks for the
  -- upstream which the configuration assigns to it.
  pub reinstall-Synced :
      (order : List Text) (s : State K)
      → ((cid : Text) (r : Rule) → lookup text_discrete cid s.tracked ≡ some r → In cid order)
      → Synced
          (Marked c)
          (λ _. Unit)
          (rules (reinstall n c order s).kernel)
          (reinstall n c order s).tracked
  reinstall-Synced order s covers =
      let before : InOrder order s = record {
        backed = λ a r past l. absurd (past (covers a r l));
        apart = λ a b r q past _ l _ _. absurd (past (covers a r l));
      } in
      let after = reinstall-InOrder order s before in
      record {
        backed = λ a r _ l. after.backed a r (λ h. h) l;
        apart = λ a b r q _ _ la lb. after.apart a b r q (λ h. h) (λ h. h) la lb;
      }
