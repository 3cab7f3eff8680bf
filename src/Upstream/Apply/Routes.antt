-- ===== src/Upstream/Apply/Routes.antt =====
-- The commands that clear the band and set the routes: which tables they cover.
use ovcp.Base.{
  ℕ, zero, suc, ◌+◌, ◌≤◌, ◌<◌, ◌≡◌, refl, sym, ap, subst, ◌∙◌, ◌≢◌, inl, inr, Bool, true, false,
  ◌||◌, List, [], ◌∷◌, ◌++◌, arith, ℕ_discrete, Bool-cases, if-intro, any, In, All,
}
use ovcp.Upstream.Config.{Upstream, is_socks}
use ovcp.Upstream.Apply.{
  rule_prio, Command, rule_del, route_flush, route_unreachable, rule_add, nft_delete, teardown_from,
  route_args, all_routes, Failure,
}

-- The command takes something away.
abbrev pub is_clearing : Command → Bool
is_clearing (rule_del p) = true
is_clearing (route_flush t) = true
is_clearing nft_delete = true
is_clearing _ = false

pub append_assoc : (xs ys zs : List Command) → (xs ++ ys) ++ zs ≡ xs ++ (ys ++ zs)
append_assoc [] ys zs = refl
append_assoc (x ∷ xs) ys zs = ap (λ t. x ∷ t) (append_assoc xs ys zs)

pub In-append_left : (x : Command) (xs ys : List Command) → In x xs → In x (xs ++ ys)
In-append_left x [] ys h = absurd h
In-append_left x (y ∷ xs) ys (inl e) = inl e
In-append_left x (y ∷ xs) ys (inr h) = inr (In-append_left x xs ys h)

In-append_right : (x : Command) (xs ys : List Command) → In x ys → In x (xs ++ ys)
In-append_right x [] ys h = h
In-append_right x (y ∷ xs) ys h = inr (In-append_right x xs ys h)

pub any-append :
    (p : Command → Bool) (xs ys : List Command) → any p (xs ++ ys) ≡ (any p xs || any p ys)
unfolding any
any-append p [] ys = refl
any-append p (x ∷ xs) ys = ground (arith, any-append p xs ys)

pub teardown_from-In :
    (n t table : ℕ)
    → t ≤ table
    → table < t + n
    → In (route_flush table) (teardown_from n t)
      × In (rule_del (rule_prio table)) (teardown_from n t)
unfolding teardown_from
teardown_from-In zero t table a b = absurd (omega arith)
teardown_from-In (suc n) t table a b = elim (ℕ_discrete t table) [
  | yes e ↦ (inr (inl (ap route_flush e)), inl (ap (λ x. rule_del (rule_prio x)) e))
  | no d ↦
      let rest = teardown_from-In n (t + 1) table (omega arith) (omega arith) in
      (inr (inr rest.0), inr (inr rest.1))
]

all_routes-cons :
    (v : Upstream) (us : List Upstream)
    → is_socks v ≡ false
    → all_routes (v ∷ us) ≡ route_args v ++ all_routes us
unfolding all_routes
all_routes-cons v us s = ground arith

all_routes-skip :
    (v : Upstream) (us : List Upstream) → is_socks v ≡ true → all_routes (v ∷ us) ≡ all_routes us
unfolding all_routes
all_routes-skip v us s = ground arith

-- An interface upstream's kill switch is among the commands.
abbrev pub Guarded : Upstream → List Command → Type 0
Guarded u cmds =
    In (route_unreachable u.table) cmds × In (rule_add u.table (rule_prio u.table)) cmds

pub all_routes-In :
    (us : List Upstream) (u : Upstream) → In u us → is_socks u ≡ false → Guarded u (all_routes us)
unfolding route_args
all_routes-In [] u h s = absurd h
all_routes-In (v ∷ us) u (inl e) s =
    subst (λ w. Guarded w (all_routes (v ∷ us))) e
      (subst (Guarded v) (sym (all_routes-cons v us (ap is_socks e ∙ s)))
        (inr (inl refl), inr (inr (inl refl))))
all_routes-In (v ∷ us) u (inr h) s = elim (Bool-cases (is_socks v)) [
  | inl socks ↦ subst (Guarded u) (sym (all_routes-skip v us socks)) (all_routes-In us u h s)
  | inr iface ↦
      let rest = all_routes-In us u h s in
      subst (Guarded u) (sym (all_routes-cons v us iface)) (
        In-append_right (route_unreachable u.table) (route_args v) (all_routes us) rest.0,
        In-append_right (rule_add u.table (rule_prio u.table)) (route_args v) (all_routes us)
            rest.1,
      )
]

pub all_routes-clearing : (us : List Upstream) → any is_clearing (all_routes us) ≡ false
unfolding all_routes route_args any
all_routes-clearing [] = refl
all_routes-clearing (u ∷ us) =
    let rest = all_routes-clearing us in
    if-intro (λ cmds. any is_clearing cmds ≡ false) (is_socks u) (all_routes us)
      (route_args u ++ all_routes us) rest (ground arith)

pub All-In : (P : Upstream → Type 0) (us : List Upstream) (u : Upstream) → All P us → In u us → P u
All-In P [] u a h = absurd h
All-In P (v ∷ us) u a (inl e) = subst P e a.0
All-In P (v ∷ us) u a (inr h) = All-In P us u a.1 h

pub append-last : (xs : List Failure) (x : Failure) → xs ++ x ∷ [] ≢ []
append-last [] x e = cc
append-last (y ∷ xs) x e = cc

pub append-nil : (xs : List Command) → xs ≡ xs ++ []
append-nil [] = refl
append-nil (x ∷ xs) = ap (λ t. x ∷ t) (append-nil xs)
