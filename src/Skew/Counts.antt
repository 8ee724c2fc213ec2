-- ===== src/Skew/Counts.antt =====
-- The counts of src/producer/skew_analysis.py: their sum, and the busiest of the partitions.
use mathlib.Core.List.{Mem, Mem-prop, mem-cons, mem-cons_self, mem-cons_of_mem}
use mathlib.Core.Logic.Or
use streaming_fpuna_proyecto.Base.{
  ℕ, zero, suc, ◌+◌, ◌*◌, ◌≤◌, ◌<◌, ◌≡◌, refl, sym, ap, ◌∙◌, subst, ◌||◌, ◌&&◌, List, [], ◌∷◌,
  length, All, arith, ltb, leb, if◌then◌else◌, Bool-cases, inl, inr, ◌⊎◌,
}
use streaming_fpuna_proyecto.Skew.{
  SkewRecord, PartitionSummary, same, count_of, partition_summaries, busier, busiest,
}

-- the events of all the partitions together
unfoldable pub sum_of : List PartitionSummary → ℕ
sum_of [] = 0
sum_of (q ∷ qs) = q.event_count + sum_of qs

-- no partition has more events, and none with as many has a lower number
abbrev pub Beats : PartitionSummary → PartitionSummary → Type 0
Beats top q =
    (q.event_count ≤ top.event_count)
    × (q.event_count ≡ top.event_count → top.partition ≤ q.partition)

-- the assignments to the partitions from `a` to `a + n`
unfoldable pub inside : ℕ → ℕ → List ℕ → ℕ
inside a n [] = 0
inside a n (x ∷ xs) =
    let rest = inside a n xs in if leb a x && ltb x (a + n) then suc rest else rest

inside-zero : (a : ℕ) (xs : List ℕ) → inside a 0 xs ≡ 0
unfolding inside
inside-zero a [] = refl
inside-zero a (x ∷ xs) = ground (arith, inside-zero a xs)

inside-suc : (a n : ℕ) (xs : List ℕ) → inside a (suc n) xs ≡ count_of a xs + inside (suc a) n xs
unfolding inside count_of
inside-suc a n [] = refl
inside-suc a n (x ∷ xs) = ground (arith, inside-suc a n xs)

pub inside-All : (n : ℕ) (xs : List ℕ) → All (λ x. x < n) xs → inside 0 n xs ≡ length xs
unfolding inside
inside-All n [] h = refl
inside-All n (x ∷ xs) (here, h) = ground (arith, inside-All n xs h)

pub sum-inside :
    (records : List SkewRecord) (xs : List ℕ) (a n : ℕ)
    → sum_of (partition_summaries records xs a n) ≡ inside a n xs
unfolding sum_of partition_summaries
sum-inside records xs a zero = sym (inside-zero a xs)
sum-inside records xs a (suc n) =
    ap (λ m. count_of a xs + m) (sum-inside records xs (suc a) n) ∙ sym (inside-suc a n xs)

Beats-trans : (s t q : PartitionSummary) → Beats s t → Beats t q → Beats s q
Beats-trans s t q (le, tie) (le', tie') =
    (omega arith, λ e. omega (arith, tie (omega arith), tie' (omega arith)))

Beats-busier :
    (best item : PartitionSummary) → Beats (busier best item) best × Beats (busier best item) item
Beats-busier best item = ground arith

pub Beats-busiest :
    (best : PartitionSummary) (items : List PartitionSummary)
    → Beats (busiest best items) best × All (Beats (busiest best items)) items
unfolding busiest
Beats-busiest best [] = ((omega arith, λ e. omega arith), tt)
Beats-busiest best (item ∷ items) =
    let (old, new) = Beats-busier best item in
    let (first, rest) = Beats-busiest (busier best item) items in
    (
      Beats-trans (busiest (busier best item) items) (busier best item) best first old,
      (Beats-trans (busiest (busier best item) items) (busier best item) item first new, rest),
    )

busier-cases :
    (best item : PartitionSummary) → (busier best item ≡ item) ⊎ (busier best item ≡ best)
busier-cases best item =
    elim (Bool-cases (
      ltb best.event_count item.event_count
      || same item.event_count best.event_count && ltb item.partition best.partition)) [
        | inl e ↦ inl (rw e refl)
        | inr e ↦ inr (rw e refl)
      ]

Mem-skip :
    (q best item : PartitionSummary) (items : List PartitionSummary)
    → Mem q (best ∷ items)
    → Mem q (best ∷ item ∷ items)
Mem-skip q best item items m =
    Or.elim Mem-prop (mem-cons.0 m)
      (λ e. subst (λ r. Mem r (best ∷ item ∷ items)) (sym e) mem-cons_self)
      (λ k. mem-cons_of_mem best (mem-cons_of_mem item k))

pub Mem-busiest :
    (best : PartitionSummary) (items : List PartitionSummary)
    → Mem (busiest best items) (best ∷ items)
unfolding busiest
Mem-busiest best [] = mem-cons_self
Mem-busiest best (item ∷ items) = elim (busier-cases best item) [
  | inl e ↦
      subst (λ b. Mem (busiest b items) (best ∷ item ∷ items)) (sym e)
        (mem-cons_of_mem best (Mem-busiest item items))
  | inr e ↦
      subst (λ b. Mem (busiest b items) (best ∷ item ∷ items)) (sym e)
        (Mem-skip _ best item items (Mem-busiest best items))
]

pub sum-bound :
    (c : ℕ) (qs : List PartitionSummary)
    → All (λ q. q.event_count ≤ c) qs
    → sum_of qs ≤ c * length qs
unfolding sum_of
sum-bound c [] h = omega arith
sum-bound c (q ∷ qs) (le, h) = grind (arith, sum-bound c qs h)

pub counts-at_most :
    (top : PartitionSummary) (qs : List PartitionSummary)
    → All (Beats top) qs
    → All (λ q. q.event_count ≤ top.event_count) qs
counts-at_most top [] h = tt
counts-at_most top (q ∷ qs) (here, h) = (here.0, counts-at_most top qs h)

pub length-partition_summaries :
    (records : List SkewRecord) (xs : List ℕ) (a n : ℕ)
    → length (partition_summaries records xs a n) ≡ n
unfolding partition_summaries
length-partition_summaries records xs a zero = refl
length-partition_summaries records xs a (suc n) =
    ap suc (length-partition_summaries records xs (suc a) n)
