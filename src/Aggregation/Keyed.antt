-- ===== src/Aggregation/Keyed.antt =====
-- `AggregateVelocity` of src/pipeline/aggregation.py: the count and total of each customer in a window.
use mathlib.Core.List.{Perm}
use streaming_fpuna_proyecto.Base.{
  ℕ, String, ◌≡◌, refl, ap, ◌∙◌, Bool-cases, inl, inr, Option, none, some, List, [], ◌∷◌, ◌==◌,
}
use streaming_fpuna_proyecto.Base.Dict
use streaming_fpuna_proyecto.Base.Dict.{Dict, IsDict, values_of}
use streaming_fpuna_proyecto.Python.{Result, ok, ◌>>=◌}
use streaming_fpuna_proyecto.Python.Value.{Fields}
use streaming_fpuna_proyecto.Aggregation.{Accumulator, amount_by_customer, extract_output}
use streaming_fpuna_proyecto.Aggregation.Merge.{
  Plan, carry_out, amounts_of, totals, carry_out-totals, totals-perm,
}

-- a plan for a key that has amounts, and none for a key that has not
abbrev pub IsPlanFor : Option Plan → List ℕ → Type 0
IsPlanFor none amounts = amounts ≡ []
IsPlanFor (some plan) [] = ⊥
IsPlanFor (some plan) (amount ∷ amounts) = Perm (amounts_of plan) (amount ∷ amounts)

-- What `beam.CombinePerKey` does before it combines: it groups by key, and has the amounts of each key
-- added and merged under one plan of the runner.
pub record Grouping : Type 0 where
  pub plans : List (String × ℕ) → Dict Plan
  pub once : (pairs : List (String × ℕ)) → IsDict (plans pairs)
  pub groups :
      (pairs : List (String × ℕ)) (key : String)
      → IsPlanFor (Dict.lookup key (plans pairs)) (values_of key pairs)

-- `beam.Map(_amount_by_customer)`
unfoldable pub amounts_by_customer : List (String × Fields) → Result (List (String × ℕ))
amounts_by_customer [] = ok []
amounts_by_customer (keyed ∷ rest) = do
  amount ← amount_by_customer keyed
  amounts ← amounts_by_customer rest
  ok (amount ∷ amounts)

-- the output of the combiner for each key
pub combine : Dict Plan → Dict Fields
combine [] = []
combine ((key, plan) ∷ plans) = (key, extract_output (carry_out plan)) ∷ combine plans

-- `expand`
unfoldable pub aggregate_velocity : Grouping → List (String × Fields) → Result (Dict Fields)
aggregate_velocity grouping keyed_events = do
  pairs ← amounts_by_customer keyed_events
  ok (combine (grouping.plans pairs))

-- a customer's count and total, and the aggregates of some
abbrev pub Entry : Type 0
Entry = String × Accumulator

abbrev pub aggregates_of : List Entry → Dict Fields
aggregates_of [] = []
aggregates_of ((key, totals) ∷ entries) = (key, extract_output totals) ∷ aggregates_of entries

abbrev pub entries_of : Dict Plan → List Entry
entries_of [] = []
entries_of ((key, plan) ∷ plans) = (key, carry_out plan) ∷ entries_of plans

-- the count and total of the amounts, if there are any
abbrev pub totals_of : List ℕ → Option Accumulator
totals_of [] = none
totals_of (amount ∷ amounts) = some (totals (amount ∷ amounts))

pub combine-aggregates_of : (plans : Dict Plan) → combine plans ≡ aggregates_of (entries_of plans)
unfolding combine
combine-aggregates_of [] = refl
combine-aggregates_of ((key, plan) ∷ plans) =
    ap (◌∷◌ (key, extract_output (carry_out plan))) (combine-aggregates_of plans)

abbrev carried_out : Option Plan → Option Accumulator
carried_out none = none
carried_out (some plan) = some (carry_out plan)

lookup-entries_of :
    (key : String) (plans : Dict Plan)
    → Dict.lookup key (entries_of plans) ≡ carried_out (Dict.lookup key plans)
unfolding Dict.lookup
lookup-entries_of key [] = refl
lookup-entries_of key ((k, plan) ∷ plans) = elim (Bool-cases (k == key)) [
  | inl e ↦ rw e refl
  | inr e ↦ rw e (lookup-entries_of key plans)
]

carried_out-plan :
    (found : Option Plan) (amounts : List ℕ)
    → IsPlanFor found amounts
    → carried_out found ≡ totals_of amounts
carried_out-plan none amounts none_left = rw none_left refl
carried_out-plan (some plan) [] h = absurd h
carried_out-plan (some plan) (amount ∷ amounts) same =
    ap some (carry_out-totals plan ∙ totals-perm same)

pub lookup-entries_plans :
    (grouping : Grouping) (pairs : List (String × ℕ)) (key : String)
    → Dict.lookup key (entries_of (grouping.plans pairs)) ≡ totals_of (values_of key pairs)
lookup-entries_plans grouping pairs key =
    lookup-entries_of key (grouping.plans pairs) ∙ carried_out-plan _ _ (grouping.groups pairs key)

entries_of-IsDict : (plans : Dict Plan) → IsDict plans → IsDict (entries_of plans)
entries_of-IsDict [] h = tt
entries_of-IsDict ((key, plan) ∷ plans) (fresh, h) =
    (lookup-entries_of key plans ∙ ap carried_out fresh, entries_of-IsDict plans h)

-- every customer has one entry at most
pub entries_plans-IsDict :
    (grouping : Grouping) (pairs : List (String × ℕ)) → IsDict (entries_of (grouping.plans pairs))
entries_plans-IsDict grouping pairs = entries_of-IsDict (grouping.plans pairs) (grouping.once pairs)
