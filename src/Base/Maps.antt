-- ===== src/Base/Maps.antt =====
-- Go maps as association lists over keys with decidable equality, and their laws.
use mathlib.Core.Path.{◌≡◌, refl}
use mathlib.Core.Logic.{◌≢◌, ite}
use mathlib.Core.Bool.{Bool}
use mathlib.Core.Option.{Option, none, some}
use mathlib.Core.List.{[], List, ◌∷◌}
use native.Mathlib.Omega.{arith}
use ovcp.Base.Lists.{keep}
use ovcp.Base.Tests.{if◌then◌else◌}

abbrev pub Map {ℓ} : Type ℓ → Type ℓ → Type ℓ
Map K V = List (K × V)

module _ {ℓ} {K V : Type ℓ} (d : Discrete K) where
  -- `v, ok := m[k]`
  unfoldable pub lookup : K → Map K V → Option V
  lookup k [] = none
  lookup k ((j, v) ∷ m) = ite (d j k) (some v) (lookup k m)

  -- `delete(m, k)`
  unfoldable pub erase : K → Map K V → Map K V
  erase k [] = []
  erase k ((j, v) ∷ m) = ite (d j k) (erase k m) ((j, v) ∷ erase k m)

  -- `m[k] = v`
  unfoldable pub insert : K → V → Map K V → Map K V
  insert k v m = (k, v) ∷ erase k m

  pub lookup-erase_self : (k : K) (m : Map K V) → lookup k (erase k m) ≡ none
  unfolding lookup erase
  lookup-erase_self k [] = refl
  lookup-erase_self k ((j, v) ∷ m) = ground (arith, lookup-erase_self k m)

  pub lookup-erase_ne : (k j : K) (m : Map K V) → k ≢ j → lookup j (erase k m) ≡ lookup j m
  unfolding lookup erase
  lookup-erase_ne k j [] h = refl
  lookup-erase_ne k j ((i, v) ∷ m) h = ground (arith, lookup-erase_ne k j m h)

  pub lookup-insert_self : (k : K) (v : V) (m : Map K V) → lookup k (insert k v m) ≡ some v
  unfolding lookup insert
  lookup-insert_self k v m = ground arith

  pub lookup-insert_ne :
      (k j : K) (v : V) (m : Map K V) → k ≢ j → lookup j (insert k v m) ≡ lookup j m
  unfolding lookup insert
  lookup-insert_ne k j v m h = ground (arith, lookup-erase_ne k j m h)

  -- Each key stands once.
  abbrev pub IsMap : Map K V → Type ℓ
  IsMap [] = Unit
  IsMap ((k, v) ∷ m) = (lookup k m ≡ none) × IsMap m

  -- The entries of a map that pass a test, as a lookup sees them.
  abbrev pub pass : (K × V → Bool) → K → Option V → Option V
  pass p k none = none
  pass p k (some v) = if p (k, v) then some v else none

  pub lookup-keep :
      (p : K × V → Bool) (k : K) (m : Map K V)
      → IsMap m
      → lookup k (keep p m) ≡ pass p k (lookup k m)
  unfolding lookup keep
  lookup-keep p k [] h = refl
  lookup-keep p k ((j, v) ∷ m) h = ground (arith, lookup-keep p k m h.1)

  pub IsMap-keep : (p : K × V → Bool) (m : Map K V) → IsMap m → IsMap (keep p m)
  unfolding keep
  IsMap-keep p [] h = tt
  IsMap-keep p ((j, v) ∷ m) h = ground (arith, IsMap-keep p m h.1, lookup-keep p j m h.1)

  pub IsMap-erase : (k : K) (m : Map K V) → IsMap m → IsMap (erase k m)
  unfolding erase
  IsMap-erase k [] h = tt
  IsMap-erase k ((j, v) ∷ m) h = ground (arith, IsMap-erase k m h.1, lookup-erase_ne k j m)

  pub IsMap-insert : (k : K) (v : V) (m : Map K V) → IsMap m → IsMap (insert k v m)
  unfolding insert
  IsMap-insert k v m h = (lookup-erase_self k m, IsMap-erase k m h)
