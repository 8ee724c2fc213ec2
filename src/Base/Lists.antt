-- ===== src/Base/Lists.antt =====
-- Lists measured by native numbers, membership tests and predicates by recursion.
use Prim.Native.Nat.{ℕ, zero, suc, ◌+◌, ◌≤◌}
use Prim.Native.String.{String}
use mathlib.Core.Path.{◌≡◌, refl}
use mathlib.Core.Bool.{Bool, true, false, ◌||◌, Bool-set}
use mathlib.Core.List.{
  List, [], ◌∷◌, ◌++◌, Mem, not-mem-nil, mem-cons, mem-cons_self, mem-cons_of_mem,
}
use mathlib.Core.Logic.{◌↔◌}
use mathlib.Core.Logic.Or
use native.Mathlib.Omega.{arith}
use streaming_fpuna_proyecto.Base.Tests.{String-discrete, ◌==◌}

module _ {ℓ} {A : Type ℓ} where
  abbrev pub length : List A → ℕ
  length [] = 0
  length (x ∷ xs) = suc (length xs)

  pub length-append : (xs ys : List A) → length (xs ++ ys) ≡ length xs + length ys
  length-append [] ys = omega arith
  length-append (x ∷ xs) ys = omega (arith, length-append xs ys)

  abbrev pub take : ℕ → List A → List A
  take n [] = []
  take zero (x ∷ xs) = []
  take (suc n) (x ∷ xs) = x ∷ take n xs

  abbrev pub drop : ℕ → List A → List A
  drop n [] = []
  drop zero (x ∷ xs) = x ∷ xs
  drop (suc n) (x ∷ xs) = drop n xs

  -- `xs[i] = x`, for an index in range
  abbrev pub set : List A → ℕ → A → List A
  set [] i v = []
  set (x ∷ xs) zero v = v ∷ xs
  set (x ∷ xs) (suc i) v = x ∷ set xs i v

  pub take-append-drop : (n : ℕ) (xs : List A) → take n xs ++ drop n xs ≡ xs
  take-append-drop n [] = refl
  take-append-drop zero (x ∷ xs) = refl
  take-append-drop (suc n) (x ∷ xs) = rw (take-append-drop n xs) refl

  pub length-drop-le : (n : ℕ) (xs : List A) → length (drop n xs) ≤ length xs
  length-drop-le n [] = omega arith
  length-drop-le zero (x ∷ xs) = omega arith
  length-drop-le (suc n) (x ∷ xs) = omega (arith, length-drop-le n xs)

  abbrev pub All {κ} : (A → Type κ) → List A → Type κ
  All P [] = Unit
  All P (x ∷ xs) = P x × All P xs

-- `s in xs`, over texts
unfoldable pub contains : List String → String → Bool
contains [] s = false
contains (x ∷ xs) s = s == x || contains xs s

contains→Mem : (xs : List String) (s : String) → contains xs s ≡ true → Mem s xs
unfolding contains
contains→Mem [] s h = cc
contains→Mem (x ∷ xs) s h = elim (String-discrete s x) [
  | yes p ↦ rw p mem-cons_self
  | no p ↦ mem-cons_of_mem x (contains→Mem xs s (ground arith))
]

Mem→contains : (xs : List String) (s : String) → Mem s xs → contains xs s ≡ true
unfolding contains
Mem→contains [] s h = absurd (not-mem-nil h)
Mem→contains (x ∷ xs) s h =
    Or.elim (Bool-set _ _) (mem-cons.0 h) (λ p. ground arith)
      (λ m. ground (arith, Mem→contains xs s m))

pub contains_iff : (xs : List String) (s : String) → (contains xs s ≡ true) ↔ Mem s xs
contains_iff xs s = (contains→Mem xs s, Mem→contains xs s)

pub append-eq-nil {ℓ} : {A : Type ℓ} (xs ys : List A) → xs ++ ys ≡ [] → (xs ≡ []) × (ys ≡ [])
append-eq-nil [] ys h = (refl, h)
append-eq-nil (x ∷ xs) ys h = cc
