-- ===== src/Prelude/Maps.antt =====
-- A Go map: an association list in which the first entry of a key counts.
use mathlib.Core.Path.{◌≡◌, refl}
use mathlib.Core.Bool.{Bool}
use mathlib.Core.List.{List, [], ◌∷◌}
use mathlib.Core.Option.{Option, none, some}
use native.Mathlib.Omega.{arith}
use matrix_meshtastic.Prelude.Tests.{if◌then◌else◌, Comparable, ◌==◌}

abbrev pub kept {κ} : {V : Type κ} → (V → Bool) → Option V → Option V
kept drop none = none
kept drop (some v) = if drop v then none else some v

module _ {ℓ κ} {K : Type ℓ} {V : Type κ} ⦃e : Comparable K⦄ where
  abbrev pub lookup : K → List (K × V) → Option V
  lookup k [] = none
  lookup k ((j, v) ∷ m) = if j == k then some v else lookup k m

  -- `m[k] = v`
  pub insert : K → V → List (K × V) → List (K × V)
  insert k v m = (k, v) ∷ m

  -- `delete(m, k)`
  pub delete : K → List (K × V) → List (K × V)
  delete k [] = []
  delete k ((j, v) ∷ m) = let rest = delete k m in if j == k then rest else (j, v) ∷ rest

  -- `for k, v := range m { if drop(v) { delete(m, k) } }`
  pub delete_if : (V → Bool) → List (K × V) → List (K × V)
  delete_if drop [] = []
  delete_if drop ((j, v) ∷ m) =
      let rest = delete_if drop m in if drop v then delete j rest else (j, v) ∷ rest

  pub lookup-insert :
      (k j : K) (v : V) (m : List (K × V))
      → lookup j (insert k v m) ≡ (if k == j then some v else lookup j m)
  unfolding insert
  lookup-insert k j v m = refl

  pub lookup-delete :
      (k j : K) (m : List (K × V)) → lookup j (delete k m) ≡ (if k == j then none else lookup j m)
  unfolding delete
  lookup-delete k j [] = ground arith
  lookup-delete k j ((i, w) ∷ m) =
      ground (arith, e.equals_iff k j, e.equals_iff i k, e.equals_iff i j, lookup-delete k j m)

  pub lookup-delete_if :
      (drop : V → Bool) (k : K) (m : List (K × V))
      → lookup k (delete_if drop m) ≡ kept drop (lookup k m)
  unfolding delete_if
  lookup-delete_if drop k [] = refl
  lookup-delete_if drop k ((i, w) ∷ m) =
      ground
        (arith, e.equals_iff i k, lookup-delete_if drop k m, lookup-delete i k (delete_if drop m))
