-- ===== src/Aggregation/Merge.antt =====
-- The combiner of src/pipeline/aggregation.py under every way in which a runner may split its work.
use mathlib.Core.List.{Perm, Permᴰ}
use mathlib.Core.Logic.{∥∥₁_elim}
use native.Mathlib.Nat.{ℕ_set}
use streaming_fpuna_proyecto.Base.{
  ℕ, ◌+◌, List, [], ◌∷◌, ◌++◌, ◌≡◌, refl, sym, ap, ◌∙◌, length, length-append, arith,
}
use streaming_fpuna_proyecto.Aggregation.{
  Accumulator, create_accumulator, add_input, merge_from, merge_accumulators, extract_output,
}

-- the inputs that one worker adds one after the other
pub add_inputs : Accumulator → List ℕ → Accumulator
add_inputs a [] = a
add_inputs a (amount ∷ amounts) = add_inputs (add_input a amount) amounts

-- a plan of a runner: bundles of amounts that are added up, and merges of what other plans make
mutual
  pub data Plan : Type 0 where
    bundle : List ℕ → Plan
    merge : Plans → Plan

  pub data Plans : Type 0 where
    nil : Plans
    cons : Plan → Plans → Plans

unfoldable mutual
  pub carry_out : Plan → Accumulator
  carry_out (bundle amounts) = add_inputs create_accumulator amounts
  carry_out (merge plans) = merge_accumulators (carry_out_all plans)

  pub carry_out_all : Plans → List Accumulator
  carry_out_all nil = []
  carry_out_all (cons plan plans) = carry_out plan ∷ carry_out_all plans

-- the amounts that a plan takes in
unfoldable mutual
  pub amounts_of : Plan → List ℕ
  amounts_of (bundle amounts) = amounts
  amounts_of (merge plans) = amounts_of_all plans

  pub amounts_of_all : Plans → List ℕ
  amounts_of_all nil = []
  amounts_of_all (cons plan plans) = amounts_of plan ++ amounts_of_all plans

pub sum : List ℕ → ℕ
sum [] = 0
sum (x ∷ xs) = x + sum xs

sum-append : (xs ys : List ℕ) → sum (xs ++ ys) ≡ sum xs + sum ys
unfolding sum
sum-append [] ys = omega arith
sum-append (x ∷ xs) ys = omega (arith, sum-append xs ys)

abbrev pub totals : List ℕ → Accumulator
totals amounts = (length amounts, sum amounts)

pub add_inputs-totals :
    (count total : ℕ) (amounts : List ℕ)
    → add_inputs (count, total) amounts ≡ (count + length amounts, total + sum amounts)
unfolding add_inputs add_input sum
add_inputs-totals count total [] = ground arith
add_inputs-totals count total (x ∷ xs) =
    ground (arith, add_inputs-totals (count + 1) (total + x) xs)

merge_from-cons :
    (count total : ℕ) (xs : List ℕ) (rest : List Accumulator) (ys : List ℕ)
    → ((c t : ℕ) → merge_from c t rest ≡ (c + length ys, t + sum ys))
    → merge_from count total (totals xs ∷ rest)
      ≡ (count + length (xs ++ ys), total + sum (xs ++ ys))
unfolding merge_from
merge_from-cons count total xs rest ys h =
    ground (arith, h (count + length xs) (total + sum xs), length-append xs ys, sum-append xs ys)

mutual
  unfolding carry_out amounts_of create_accumulator merge_accumulators merge_from sum

  carry_out-eq : (plan : Plan) → carry_out plan ≡ totals (amounts_of plan)
  carry_out-eq (bundle amounts) = ground (arith, add_inputs-totals 0 0 amounts)
  carry_out-eq (merge plans) = ground (arith, merge_from-eq plans 0 0)

  merge_from-eq :
      (plans : Plans) (count total : ℕ)
      → merge_from count total (carry_out_all plans)
        ≡ (count + length (amounts_of_all plans), total + sum (amounts_of_all plans))
  merge_from-eq nil count total = ground arith
  merge_from-eq (cons plan plans) count total = rw (carry_out-eq plan) (
      merge_from-cons count total (amounts_of plan) (carry_out_all plans) (amounts_of_all plans)
        (merge_from-eq plans))

-- However a runner bundles the amounts, and however it merges the partial results, the accumulator in
-- the end holds their number and their sum.
pub carry_out-totals : (plan : Plan) → carry_out plan ≡ totals (amounts_of plan)
carry_out-totals = carry_out-eq

totals-permᴰ : {xs ys : List ℕ} → Permᴰ xs ys → (sum xs ≡ sum ys) × (length xs ≡ length ys)
unfolding sum
totals-permᴰ Permᴰ.nil = (refl, refl)
totals-permᴰ (Permᴰ.cons e p) = let (s, l) = totals-permᴰ p in (omega arith, omega arith)
totals-permᴰ (Permᴰ.swap e f) = (omega arith, omega arith)
totals-permᴰ (Permᴰ.trans p q) =
    let (s, l) = totals-permᴰ p in let (s', l') = totals-permᴰ q in (omega arith, omega arith)

pub totals-perm : {xs ys : List ℕ} → Perm xs ys → totals xs ≡ totals ys
totals-perm p = ∥∥₁_elim p (hlevel ℕ_set) (λ d. let (s, l) = totals-permᴰ d in ground arith)

-- Two plans over the same amounts, in any order and in any bundles, put out the same count and total.
pub carry_out_perm :
    (p q : Plan)
    → Perm (amounts_of p) (amounts_of q)
    → extract_output (carry_out p) ≡ extract_output (carry_out q)
carry_out_perm p q same =
    ap extract_output (carry_out-totals p ∙ (totals-perm same ∙ sym (carry_out-totals q)))
