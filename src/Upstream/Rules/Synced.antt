-- ===== src/Upstream/Rules/Synced.antt =====
-- What the kernel's table has for the clients that `tracked` lists, as long as nft does what its manual
-- says: an `add` that succeeds appends one rule under a new handle and prints that handle, a `delete`
-- that succeeds removes the rules of its handle, and one that fails changes nothing.
use ovcp.Base.{
  [], ℕ, ◌≡◌, refl, sym, subst, ◌∙◌, ◌≢◌, ◌⊎◌, inl, inr, Bool, true, false, not, none, some, List,
  ◌∷◌, ◌++◌, arith, ◌==◌, keep, any, In, In-keep, Text, text_discrete, Map, lookup, erase, insert,
  lookup-erase_self, lookup-erase_ne, lookup-insert_self, lookup-insert_ne,
}
use ovcp.Upstream.Config.{Upstream, Config, find_upstream}
use ovcp.Upstream.Rules.{Nft, Rule, parse_handle}

pub record KernelRule : Type 0 where
  pub handle : ℕ
  pub ip : Text
  pub table : ℕ

abbrev pub has_handle : ℕ → KernelRule → Bool
has_handle h r = r.handle == h

pub record IsNft {K : Type 0} (n : Nft K) (rules : K → List KernelRule) : Type 0 where
  pub added :
      (ip : Text) (table : ℕ) (k : K) (out : Text)
      → (n.add ip table k).0 ≡ some out
      → (h : ℕ) × (parse_handle n out ≡ some h)
        × (rules (n.add ip table k).1
            ≡ rules k ++ (record { handle = h; ip = ip; table = table }) ∷ [])
        × (any (has_handle h) (rules k) ≡ false)
  pub not_added :
      (ip : Text) (table : ℕ) (k : K)
      → (n.add ip table k).0 ≡ none
      → rules (n.add ip table k).1 ≡ rules k
  pub deleted :
      (h : ℕ) (k : K)
      → (n.del h k).0 ≡ true
      → rules (n.del h k).1 ≡ keep (λ r. not (has_handle h r)) (rules k)
  pub not_deleted : (h : ℕ) (k : K) → (n.del h k).0 ≡ false → rules (n.del h k).1 ≡ rules k

-- The kernel has the client's rule, for its address, and marks with a table that `P` allows.
abbrev pub Backed : (Rule → ℕ → Type 0) → List KernelRule → Rule → Type 0
Backed P rs r = (t : ℕ) × P r t × In (record { handle = r.handle; ip = r.ip; table = t }) rs

-- Every tracked client of `D` is backed, under a handle of its own.
pub record Synced (P : Rule → ℕ → Type 0) (D : Text → Type 0) (rs : List KernelRule)
    (m : Map Text Rule) : Type 0 where
  pub backed : (cid : Text) (r : Rule) → D cid → lookup text_discrete cid m ≡ some r → Backed P rs r
  pub apart :
      (a b : Text) (r q : Rule)
      → D a
      → D b
      → lookup text_discrete a m ≡ some r
      → lookup text_discrete b m ≡ some q
      → r.handle ≡ q.handle
      → a ≡ b

-- The configuration sends the client to the upstream of this table.
abbrev pub Marked : Config → Rule → ℕ → Type 0
Marked c r t =
    (id : Text) × (u : Upstream) × (lookup text_discrete r.cn c.per_cn ≡ some id)
    × (find_upstream c id ≡ some u)
    × (u.table ≡ t)

In-append : (x : KernelRule) (xs ys : List KernelRule) → In x xs → In x (xs ++ ys)
In-append x [] ys h = absurd h
In-append x (y ∷ xs) ys (inl e) = inl e
In-append x (y ∷ xs) ys (inr h) = inr (In-append x xs ys h)

pub In-append_last : (x : KernelRule) (xs : List KernelRule) → In x (xs ++ x ∷ [])
In-append_last x [] = inl refl
In-append_last x (y ∷ xs) = inr (In-append_last x xs)

In-any : (x : KernelRule) (xs : List KernelRule) → In x xs → any (has_handle x.handle) xs ≡ true
unfolding any
In-any x [] h = absurd h
In-any x (y ∷ xs) (inl e) = ground arith
In-any x (y ∷ xs) (inr h) = ground (arith, In-any x xs h)

-- What a lookup in a changed map finds, is the new entry or an old one of another key.
pub lookup-insert_cases :
    (a cid : Text) (r q : Rule) (m : Map Text Rule)
    → lookup text_discrete a (insert text_discrete cid r m) ≡ some q
    → ((a ≡ cid) × (r ≡ q)) ⊎ ((a ≢ cid) × (lookup text_discrete a m ≡ some q))
lookup-insert_cases a cid r q m e = elim (text_discrete a cid) [
  | yes y ↦ inl (y, ground (arith, lookup-insert_self text_discrete cid r m))
  | no n ↦ inr (n, ground (arith, lookup-insert_ne text_discrete cid a r m (λ w. n (sym w))))
]

pub lookup-erase_cases :
    (a cid : Text) (q : Rule) (m : Map Text Rule)
    → lookup text_discrete a (erase text_discrete cid m) ≡ some q
    → (a ≢ cid) × (lookup text_discrete a m ≡ some q)
lookup-erase_cases a cid q m e = elim (text_discrete a cid) [
  | yes y ↦ absurd (ground (arith, lookup-erase_self text_discrete cid m))
  | no n ↦ (n, ground (arith, lookup-erase_ne text_discrete cid a m (λ w. n (sym w))))
]

-- A client of the larger set that is not `cid` is one of the smaller set.
other_in :
    (D D' : Text → Type 0) (cid a : Text)
    → ((c : Text) → D' c → (c ≡ cid) ⊎ D c)
    → D' a
    → a ≢ cid
    → D a
other_in D D' cid a only d n = elim (only a d) [ inl e ↦ absurd (n e) | inr h ↦ h ]

module _ (P : Rule → ℕ → Type 0) (D : Text → Type 0) where
  -- No client of `D` has a handle that the kernel does not.
  pub Synced-fresh :
      (rs : List KernelRule) (m : Map Text Rule) (h : ℕ)
      → Synced P D rs m
      → any (has_handle h) rs ≡ false
      → (cid : Text) (r : Rule) → D cid
      → lookup text_discrete cid m ≡ some r
      → r.handle ≢ h
  Synced-fresh rs m h s f cid r d e q =
      let (t, _, there) = s.backed cid r d e in
      let found = In-any (record { handle = r.handle; ip = r.ip; table = t }) rs there in
      ground arith

  pub Synced-insert :
      (D' : Text → Type 0) (rs : List KernelRule) (m : Map Text Rule) (cid : Text) (r : Rule)
      (t : ℕ)
      → ((c : Text) → D' c → (c ≡ cid) ⊎ D c)
      → Synced P D rs m
      → any (has_handle r.handle) rs ≡ false
      → P r t
      → Synced P D'
          (rs ++ (record { handle = r.handle; ip = r.ip; table = t }) ∷ [])
          (insert text_discrete cid r m)
  Synced-insert D' rs m cid r t only s f p = record {
    backed = λ a q d e. elim (lookup-insert_cases a cid r q m e) [
      | inl (_, same) ↦
          subst (Backed P (rs ++ (record { handle = r.handle; ip = r.ip; table = t }) ∷ [])) same
            (t, p, In-append_last (record { handle = r.handle; ip = r.ip; table = t }) rs)
      | inr (n, old) ↦
          let (u, pu, there) = s.backed a q (other_in D D' cid a only d n) old in
          (u, pu, In-append (record { handle = q.handle; ip = q.ip; table = u }) rs _ there)
    ];
    apart = λ a b q w da db ea eb same. elim (lookup-insert_cases a cid r q m ea) [
      | inl (x, rq) ↦ elim (lookup-insert_cases b cid r w m eb) [
        | inl (y, rw_) ↦ x ∙ sym y
        | inr (y, old) ↦
            absurd (
              Synced-fresh rs m r.handle s f b w (other_in D D' cid b only db y) old (ground arith))
      ]
      | inr (x, old) ↦ elim (lookup-insert_cases b cid r w m eb) [
        | inl (y, rw_) ↦
            absurd (
              Synced-fresh rs m r.handle s f a q (other_in D D' cid a only da x) old (ground arith))
        | inr (y, new) ↦
            s.apart a b q w (other_in D D' cid a only da x) (other_in D D' cid b only db y) old new
              same
      ]
    ];
  }

  pub Synced-erase :
      (D' : Text → Type 0) (rs : List KernelRule) (m : Map Text Rule) (cid : Text)
      → ((c : Text) → D' c → (c ≡ cid) ⊎ D c)
      → Synced P D rs m
      → Synced P D' rs (erase text_discrete cid m)
  Synced-erase D' rs m cid only s = record {
    backed = λ a q d e.
        let (n, old) = lookup-erase_cases a cid q m e in
        s.backed a q (other_in D D' cid a only d n) old;
    apart = λ a b q w da db ea eb same.
        let (x, old) = lookup-erase_cases a cid q m ea in
        let (y, new) = lookup-erase_cases b cid w m eb in
        s.apart a b q w (other_in D D' cid a only da x) (other_in D D' cid b only db y) old new
          same;
  }

  pub Synced-kill :
      (rs : List KernelRule) (m : Map Text Rule) (h : ℕ)
      → Synced P D rs m
      → ((cid : Text) (r : Rule) → D cid → lookup text_discrete cid m ≡ some r → r.handle ≢ h)
      → Synced P D (keep (λ r. not (has_handle h r)) rs) m
  Synced-kill rs m h s other = record {
    backed = λ a q d e.
        let (u, pu, there) = s.backed a q d e in
        (
          u,
          pu,
          In-keep (λ r. not (has_handle h r)) (record { handle = q.handle; ip = q.ip; table = u })
              rs there (ground (arith, other a q d e)),
        );
    apart = s.apart;
  }

pub Synced-move :
    (P : Rule → ℕ → Type 0) (D : Text → Type 0) {rs rs' : List KernelRule} {m m' : Map Text Rule}
    → rs' ≡ rs
    → m' ≡ m
    → Synced P D rs m
    → Synced P D rs' m'
Synced-move P D {rs' = rs'} {m = m} e f s =
    subst (Synced P D rs') (sym f) (subst (λ r. Synced P D r m) (sym e) s)
