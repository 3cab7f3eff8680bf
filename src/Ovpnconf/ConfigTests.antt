-- ===== src/Ovpnconf/ConfigTests.antt =====
-- A configuration with a directive of its own.
use ovcp.Base.{
  ◌≡◌, refl, sym, subst, ◌⊎◌, Bool, true, false, none, some, List, ◌&&◌, ◌++◌, arith, Text, codes,
  text_discrete, text_eq, ok, err, lacks, split,
}
use ovcp.Ovpnconf.Server.{Network, validate}
use ovcp.Ovpnconf.Render.{own_lines, render, Files, WriteError, write_atomic}
use ovcp.Ovpnconf.Directives.{LinesAllowed}
use ovcp.Ovpnconf.Unbroken.{IsLine, IsNet}
use ovcp.Ovpnconf.Rendered.{render-LinesAllowed, write_atomic-validate}
use ovcp.Ovpnconf.Sample.{private, parsed, net, config, config-valid}

private-lines : (n : Network) → private ≡ n → IsLine n.address × IsLine n.mask
unfolding lacks
private-lines n e = subst (λ k. IsLine k.address × IsLine k.mask) e (refl, refl)

some-inj : (a b : Network) → some a ≡ some b → a ≡ b
some-inj a b h = cc

parsed-lines : (b : Bool) (n : Network) → parsed b ≡ some n → IsLine n.address × IsLine n.mask
parsed-lines true n h = private-lines n (some-inj private n h)
parsed-lines false n h = absurd (ground arith)

ip-IsLine : (t : Text) → net.is_ip t ≡ true → IsLine t
unfolding lacks
ip-IsLine t h = elim (text_discrete t (codes "192.0.2.53")) [
  | yes e ↦ subst IsLine (sym e) refl
  | no n ↦ absurd (ground arith)
]

net-IsNet : IsNet net
unfolding lacks
net-IsNet =
    (λ t n h. parsed-lines (text_eq t (codes "10.8.0.0/24")) n h, ip-IsLine, λ ip. refl, λ k. refl)

render-LinesAllowed_example :
    (more : List Text) × (split 10 (render net config) ≡ own_lines net config ++ more)
    × LinesAllowed more
unfolding lacks
render-LinesAllowed_example =
    render-LinesAllowed net config net-IsNet (refl, refl, refl, refl, refl, refl, refl, refl)
      config-valid

abbrev full_disk : Files
full_disk = record { writes = false; renames = true }

write_atomic-validate_case :
    ((validate net config ≡ ok tt)
      × (full_disk.writes && full_disk.renames ≡ true)
      × (write_atomic net full_disk config none ≡ (ok tt, some (render net config))))
    ⊎ ((e : WriteError) × (write_atomic net full_disk config none ≡ (err e, none)))
write_atomic-validate_case = write_atomic-validate net full_disk config none
