-- ===== src/Api/Hosts.antt =====
-- internal/api/dns.go: `hostAliases` and `CertsHostsContent`, the names that the internal resolver knows.
use ovcp.Base.{
  ℕ, ◌≡◌, refl, sym, subst, ◌≢◌, ap, ◌∙◌, ◌↔◌, ◌⊎◌, inl, inr, Bool, true, false, not, ◌&&◌, ◌||◌,
  Option, none, some, List, [], ◌∷◌, ◌++◌, map, arith, ltb, ◌==◌, if◌then◌else◌, Bool-cases, keep,
  any, In, In-keep, keep-In, Text, codes, text_discrete, text_eq, is_empty, cut,
}
use ovcp.Store.Certs.{Cert, is_revoked}
use ovcp.Controller.Status.{VpnClient}
use ovcp.Ovpnconf.Server.{Net}
use ovcp.Ovpnconf.Render.{domain, write_lines}

abbrev aliases_of : Text → Text → Text × Text × Bool → Text
aliases_of cn dom (short, rest, found) =
    if found
    then cn ++ (32 ∷ short)
    else if not (is_empty dom)
    then cn ++ (b'.' ∷ (dom ++ (32 ∷ cn)))
    else cn

-- `hostAliases`
unfoldable pub host_aliases : Text → Text → Text
unfolding cut
host_aliases cn dom = aliases_of cn dom (cut b'.' cn)

-- `included[cn]`
unfoldable pub is_included : List Cert → Text → Bool
unfolding any text_discrete
is_included certs cn = any (λ c. not (is_revoked c) && c.include_dns && text_eq c.cn cn) certs

unfoldable pub has_line : List Cert → Text → VpnClient → Bool
unfolding is_included text_discrete
has_line certs server_cn v =
    not (text_eq v.cn server_cn || is_empty v.virtual_address || not (is_included certs v.cn))

abbrev pub client_line : Text → VpnClient → Text
client_line dom v = v.virtual_address ++ (32 ∷ host_aliases v.cn dom)

-- The order of strings, byte by byte.
unfoldable pub text_le : Text → Text → Bool
text_le [] t = true
text_le (c ∷ cs) [] = false
text_le (c ∷ cs) (d ∷ ds) = let rest = text_le cs ds in ltb c d || c == d && rest

unfoldable pub insert_text : Text → List Text → List Text
unfolding text_le
insert_text t [] = t ∷ []
insert_text t (x ∷ xs) =
    let later = insert_text t xs in if text_le t x then t ∷ x ∷ xs else x ∷ later

-- sort.Strings
unfoldable pub sort_texts : List Text → List Text
unfolding insert_text
sort_texts [] = []
sort_texts (t ∷ ts) = insert_text t (sort_texts ts)

-- The lines of the clients.
unfoldable pub client_lines : List Cert → List VpnClient → Text → Text → List Text
unfolding has_line keep host_aliases sort_texts
client_lines certs live server_cn dom =
    sort_texts (map (client_line dom) (keep (has_line certs server_cn) live))

-- The server's own line; `server_ip` as it prints.
abbrev pub server_line : Net → Text → Option Text → Text → List Text
server_line net server_cn none dom = []
server_line net server_cn (some ip) dom =
    if is_empty server_cn || net.is_ip server_cn
    then []
    else (ip ++ (32 ∷ host_aliases server_cn dom)) ∷ []

abbrev pub hosts_head : Text
hosts_head =
    codes "# generated by ovcp "
    ++ (226 ∷ 128 ∷ 148 ∷ codes " do not edit; regenerated on every cert change and stats tick")

-- `CertsHostsContent`; a line of a client has no line end.
unfoldable pub certs_hosts_content : Net → List Cert → List VpnClient → Text → Option Text → Text
unfolding client_lines host_aliases domain write_lines
certs_hosts_content net certs live server_cn server_ip =
    let dom = domain net server_cn in
    write_lines (
      hosts_head
      ∷ (server_line net server_cn server_ip dom ++ client_lines certs live server_cn dom))

insert-In : (t l : Text) (ts : List Text) → In l (insert_text t ts) ↔ ((t ≡ l) ⊎ In l ts)
unfolding insert_text
insert-In t l [] = (λ i. i, λ i. i)
insert-In t l (x ∷ xs) = elim (Bool-cases (text_le t x)) [
  | inl b ↦ rw b (λ i. i, λ i. i)
  | inr b ↦ let q = insert-In t l xs in rw b (λ i. ground (arith, q), λ i. ground (arith, q))
]

sort-In : (l : Text) (ts : List Text) → In l (sort_texts ts) ↔ In l ts
unfolding sort_texts
sort-In l [] = (λ i. i, λ i. i)
sort-In l (t ∷ ts) =
    let q = insert-In t l (sort_texts ts) in
    let r = sort-In l ts in (λ i. ground (arith, q, r), λ i. ground (arith, q, r))

In-map :
    (f : VpnClient → Text) (l : Text) (vs : List VpnClient)
    → In l (map f vs)
    → (v : VpnClient) × In v vs × (f v ≡ l)
In-map f l [] i = absurd i
In-map f l (x ∷ xs) (inl e) = (x, inl refl, e)
In-map f l (x ∷ xs) (inr i) = let (v, j, e) = In-map f l xs i in (v, inr j, e)

map-In :
    (f : VpnClient → Text) (l : Text) (vs : List VpnClient) (v : VpnClient)
    → In v vs
    → f v ≡ l
    → In l (map f vs)
map-In f l [] v i e = absurd i
map-In f l (x ∷ xs) v (inl q) e = inl (ap f q ∙ e)
map-In f l (x ∷ xs) v (inr i) e = inr (map-In f l xs v i e)

-- A client that the file names: it has an address, it is not the server, and a certificate of its name is
-- not revoked and is to be named.
abbrev pub IsNamed : List Cert → Text → VpnClient → Type 0
IsNamed certs server_cn v =
    (v.cn ≢ server_cn)
    × (v.virtual_address ≢ [])
    × (c : Cert) × In c certs
    × (c.revoked_at ≡ none)
    × (c.include_dns ≡ true)
    × (c.cn ≡ v.cn)

any-In :
    (p : Cert → Bool) (certs : List Cert)
    → any p certs ≡ true
    → (c : Cert) × In c certs × (p c ≡ true)
unfolding any
any-In p [] h = absurd (ground arith)
any-In p (c ∷ cs) h = elim (Bool-cases (p c)) [
  | inl e ↦ (c, inl refl, e)
  | inr e ↦ let (d, i, k) = any-In p cs (ground arith) in (d, inr i, k)
]

In-any :
    (p : Cert → Bool) (certs : List Cert) (c : Cert) → In c certs → p c ≡ true → any p certs ≡ true
unfolding any
In-any p [] c i h = absurd i
In-any p (x ∷ cs) c (inl e) h =
    let q : p x ≡ true = subst (λ k. p k ≡ true) (sym e) h in ground arith
In-any p (x ∷ cs) c (inr i) h = let q = In-any p cs c i h in ground arith

active-none : (o : Option ℕ) → not (elim o [ none ↦ false | some t ↦ true ]) ≡ true → o ≡ none
active-none none h = refl
active-none (some t) h = absurd (ground arith)

none-active : (o : Option ℕ) → o ≡ none → not (elim o [ none ↦ false | some t ↦ true ]) ≡ true
none-active none h = refl
none-active (some t) h = absurd (ground arith)

empty_text : (t : Text) → (is_empty t ≡ false) ↔ (t ≢ [])
empty_text [] = (λ h. absurd (ground arith), λ n. absurd (n refl))
empty_text (c ∷ t) = (λ h e. absurd (ground arith), λ n. refl)

has_line-IsNamed :
    (certs : List Cert) (server_cn : Text) (v : VpnClient)
    → (has_line certs server_cn v ≡ true) ↔ IsNamed certs server_cn v
unfolding has_line is_included
has_line-IsNamed certs server_cn v =
    let p : Cert → Bool = λ c. not (is_revoked c) && c.include_dns && text_eq c.cn v.cn in
    let e = empty_text v.virtual_address in
    (
      λ h.
          let (c, i, k) = any-In p certs (ground arith) in
          (
            λ q. ground arith,
            e.0 (ground arith),
            c,
            i,
            active-none c.revoked_at (ground arith),
            ground arith,
            ground arith,
          ),
      λ (n, a, c, i, r, d, k).
          let alive = none-active c.revoked_at r in
          let has = In-any p certs c i (ground arith) in
          let full = e.1 a in
          let other : text_eq v.cn server_cn ≡ false = ground arith in ground arith,
    )

-- The names of clients in the hosts file are those of the live clients with an address, other than the
-- server, that have a certificate which is not revoked and is to be named: each of them has its line, and
-- no line is of anybody else.
pub client_lines-IsNamed :
    (certs : List Cert) (live : List VpnClient) (server_cn dom l : Text)
    → In l (client_lines certs live server_cn dom)
      ↔ ((v : VpnClient) × In v live × IsNamed certs server_cn v × (client_line dom v ≡ l))
unfolding client_lines
client_lines-IsNamed certs live server_cn dom l =
    let p = has_line certs server_cn in
    let q = sort-In l (map (client_line dom) (keep p live)) in
    (
      λ i.
          let (v, j, e) = In-map (client_line dom) l (keep p live) (q.0 i) in
          let (k, t) = keep-In p v live j in (v, k, (has_line-IsNamed certs server_cn v).0 t, e),
      λ (v, k, t, e).
          let h = (has_line-IsNamed certs server_cn v).1 t in
          q.1 (map-In (client_line dom) l (keep p live) v (In-keep p v live k h) e),
    )
