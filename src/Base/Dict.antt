-- ===== src/Base/Dict.antt =====
-- A Python dict with texts for keys, in insertion order.
use Prim.Native.String.{String}
use mathlib.Core.Option.{Option, none, some}
use mathlib.Core.List.{List, [], ◌∷◌}
use mathlib.Core.Bool.{false}
use mathlib.Core.Logic.{inl, inr}
use mathlib.Core.Path.{◌≡◌, refl}
use native.Mathlib.Omega.{arith}
use streaming_fpuna_proyecto.Base.Tests.{Bool-cases, ◌==◌, if◌then◌else◌}

abbrev pub Dict {ℓ} : Type ℓ → Type ℓ
Dict V = List (String × V)

module _ {ℓ} {V : Type ℓ} where
  -- `d.get(k)`
  unfoldable pub lookup : String → Dict V → Option V
  lookup k [] = none
  lookup k ((j, v) ∷ d) = if j == k then some v else lookup k d

  -- `d[k] = v`
  unfoldable pub insert : String → V → Dict V → Dict V
  insert k v [] = (k, v) ∷ []
  insert k v ((j, w) ∷ d) = if j == k then (j, v) ∷ d else (j, w) ∷ insert k v d

  pub lookup-nil : (k : String) → lookup k [] ≡ none
  unfolding lookup
  lookup-nil k = refl

  pub lookup-insert :
      (j k : String) (v : V) (d : Dict V)
      → lookup j (insert k v d) ≡ (if k == j then some v else lookup j d)
  unfolding lookup insert
  lookup-insert j k v [] = refl
  lookup-insert j k v ((i, w) ∷ d) = ground (arith, lookup-insert j k v d)

  -- no key stands twice
  abbrev pub IsDict : Dict V → Type ℓ
  IsDict [] = Unit
  IsDict ((k, v) ∷ d) = (lookup k d ≡ none) × IsDict d

  pub insert-IsDict : (k : String) (v : V) (d : Dict V) → IsDict d → IsDict (insert k v d)
  unfolding insert
  insert-IsDict k v [] h = (lookup-nil k, tt)
  insert-IsDict k v ((j, w) ∷ d) (fresh, h) = elim (Bool-cases (j == k)) [
    | inl e ↦ rw e (fresh, h)
    | inr e ↦
        let other : (k == j) ≡ false = ground (arith, e) in
        rw e ((rw (lookup-insert j k v d, other) fresh), insert-IsDict k v d h)
  ]

-- the values that stand under a key, in pairs that may repeat it
abbrev pub values_of {ℓ} : {V : Type ℓ} → String → List (String × V) → List V
values_of k [] = []
values_of k ((j, v) ∷ pairs) =
    let others = values_of k pairs in if j == k then v ∷ others else others
