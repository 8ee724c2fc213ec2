-- ===== src/Dedup/Customers.antt =====
-- The customers of src/pipeline/deduplication.py do not meet: each has the run of its own events.
use streaming_fpuna_proyecto.Base.{
  ℕ, String, ◌≡◌, refl, sym, ap, ◌∙◌, inl, inr, true, false, Option, none, some, List, [], ◌∷◌, map,
  if◌then◌else◌, ◌==◌, eq_of_==, subst, ◌⊎◌, Bool-cases, All, contains,
}
use streaming_fpuna_proyecto.Base.Dict
use streaming_fpuna_proyecto.Base.Dict.{Dict, lookup-insert, values_of}
use streaming_fpuna_proyecto.Python.{ok}
use streaming_fpuna_proyecto.Python.Value.{text, Fields, get_item}
use streaming_fpuna_proyecto.Dedup.{Window, State, prepend, key_by_customer_id, accept, run}
use streaming_fpuna_proyecto.Dedup.Fresh.{Identified, events}
use streaming_fpuna_proyecto.Dedup.Run.{process-accept}
use streaming_fpuna_proyecto.Dedup.Keyed.{
  or_fresh, state_of, yielded, process_keyed, deduplicate_event, deduplicate,
}

-- an event that has texts for its `customer_id` and its `event_id`
pub record Arrival : Type 0 where
  pub customer_id : String
  pub identified : Identified
  pub has_customer : get_item identified.event "customer_id" ≡ ok (text customer_id)

abbrev pub arrived : List Arrival → List Fields
arrived = map (λ a. a.identified.event)

-- the events of one customer
abbrev pub arrived_of : String → List Arrival → List Identified
arrived_of c [] = []
arrived_of c (a ∷ rest) =
    let others = arrived_of c rest in if a.customer_id == c then a.identified ∷ others else others

state_of-insert :
    (c k : String) (s : State) (cells : Dict State)
    → state_of c (Dict.insert k s cells) ≡ (if k == c then s else state_of c cells)
unfolding state_of
state_of-insert c k s cells =
    ap or_fresh (lookup-insert c k s cells)
    ∙ elim (Bool-cases (k == c)) [ inl e ↦ rw e refl | inr e ↦ rw e refl ]

abbrev add {ℓ} : {A : Type ℓ} → Option A → List A → List A
add none out = out
add (some event) out = event ∷ out

abbrev tagged : String → Option Fields → Option (String × Fields)
tagged k none = none
tagged k (some event) = some (k, event)

yielded-tagged : (k : String) (o : Option Fields) → yielded k (ok o) ≡ ok (tagged k o)
yielded-tagged k none = refl
yielded-tagged k (some event) = refl

prepend-add : {A : Type 0} (o : Option A) (out : List A) → prepend o (ok out) ≡ ok (add o out)
prepend-add none out = refl
prepend-add (some event) out = refl

values_of-here :
    (c k : String) (o : Option Fields) (out : List (String × Fields))
    → (k == c) ≡ true
    → values_of c (add (tagged k o) out) ≡ add o (values_of c out)
values_of-here c k none out here = refl
values_of-here c k (some event) out here = rw here refl

values_of-other :
    (c k : String) (o : Option Fields) (out : List (String × Fields))
    → (k == c) ≡ false
    → values_of c (add (tagged k o) out) ≡ values_of c out
values_of-other c k none out other = refl
values_of-other c k (some event) out other = rw other refl

module _ (lateness : ℕ) (window : Window) where
  -- what the step answers for an arrival, and the state it leaves
  abbrev answer : Arrival → Dict State → Option Fields
  answer a cells =
      (accept lateness window a.identified.id a.identified.event (state_of a.customer_id cells)).0

  abbrev left : Arrival → Dict State → State
  left a cells =
      (accept lateness window a.identified.id a.identified.event (state_of a.customer_id cells)).1

  keyed-arrival :
      (a : Arrival) → key_by_customer_id a.identified.event ≡ ok (a.customer_id, a.identified.event)
  unfolding key_by_customer_id
  keyed-arrival a = rw a.has_customer refl

  deduplicate_event-arrival :
      (a : Arrival) (cells : Dict State)
      → deduplicate_event lateness window a.identified.event cells ≡ (
        ok (tagged a.customer_id (answer a cells)),
        Dict.insert a.customer_id (left a cells) cells,
      )
  unfolding deduplicate_event process_keyed
  deduplicate_event-arrival a cells =
      rw (keyed-arrival a, deduplicate_event)
        (rw (process-accept lateness window a.identified (state_of a.customer_id cells)) (
          ap (λ out. (out, Dict.insert a.customer_id (left a cells) cells))
            (yielded-tagged a.customer_id (answer a cells))))

  run-cons :
      (x : Identified) (xs : List Identified) (s : State) (out : List Fields) (s' : State)
      → run lateness window (events xs) (accept lateness window x.id x.event s).1 ≡ (ok out, s')
      → run lateness window (events (x ∷ xs)) s
        ≡ (ok (add (accept lateness window x.id x.event s).0 out), s')
  unfolding run
  run-cons x xs s out s' rest =
      rw (process-accept lateness window x s)
        (rw rest (ap (λ yields. (yields, s')) (prepend-add _ out)))

  -- one step and the steps after it, for the customer of the step and for every other
  step_apart :
      (a : Arrival) (arrivals : List Arrival) (cells : Dict State) (out : List (String × Fields))
      (c : String) (s : State)
      → run lateness window
          (events (arrived_of c arrivals))
          (state_of c (Dict.insert a.customer_id (left a cells) cells))
        ≡ (ok (values_of c out), s)
      → run lateness window (events (arrived_of c (a ∷ arrivals))) (state_of c cells)
        ≡ (ok (values_of c (add (tagged a.customer_id (answer a cells)) out)), s)
  step_apart a arrivals cells out c s rest = elim (Bool-cases (a.customer_id == c)) [
    | inl here ↦
        let same : a.customer_id ≡ c = eq_of_== a.customer_id c here in
        let before : state_of c cells ≡ state_of a.customer_id cells = rw same refl in
        let after : state_of c (Dict.insert a.customer_id (left a cells) cells) ≡ left a cells =
          state_of-insert c a.customer_id (left a cells) cells ∙ rw here refl in
        rw (values_of-here c a.customer_id (answer a cells) out here, here, before)
          (run-cons a.identified (arrived_of c arrivals) (state_of a.customer_id cells)
            (values_of c out) s (rw (sym after) rest))
    | inr other ↦
        let after : state_of c (Dict.insert a.customer_id (left a cells) cells) ≡ state_of c cells =
          state_of-insert c a.customer_id (left a cells) cells ∙ rw other refl in
        rw (values_of-other c a.customer_id (answer a cells) out other, other, sym after) rest
  ]

  -- what is yielded, apart from the exceptions
  pub outcome : List Arrival → Dict State → List (String × Fields)
  outcome [] cells = []
  outcome (a ∷ arrivals) cells =
      add (tagged a.customer_id (answer a cells))
        (outcome arrivals (Dict.insert a.customer_id (left a cells) cells))

  pub deduplicate-outcome :
      (arrivals : List Arrival) (cells : Dict State)
      → (deduplicate lateness window (arrived arrivals) cells).0 ≡ ok (outcome arrivals cells)
  unfolding deduplicate outcome
  deduplicate-outcome [] cells = refl
  deduplicate-outcome (a ∷ arrivals) cells = rw (deduplicate_event-arrival a cells) (
      rw (deduplicate-outcome arrivals (Dict.insert a.customer_id (left a cells) cells))
        (prepend-add _ _))

  pub run-outcome :
      (c : String) (arrivals : List Arrival) (cells : Dict State)
      → run lateness window (events (arrived_of c arrivals)) (state_of c cells) ≡ (
        ok (values_of c (outcome arrivals cells)),
        state_of c (deduplicate lateness window (arrived arrivals) cells).1,
      )
  unfolding deduplicate run outcome
  run-outcome c [] cells = refl
  run-outcome c (a ∷ arrivals) cells = rw (deduplicate_event-arrival a cells) (
      step_apart a arrivals cells _ c _
        (run-outcome c arrivals (Dict.insert a.customer_id (left a cells) cells)))

  answer-cases :
      (event_id : String) (event : Fields) (s : State)
      → ((accept lateness window event_id event s).0 ≡ none)
        ⊎ ((accept lateness window event_id event s).0 ≡ some event)
  unfolding accept
  answer-cases event_id event s = elim (Bool-cases (contains s.seen_ids event_id)) [
    | inl old ↦ inl (rw old refl)
    | inr new ↦ inr (rw new refl)
  ]

  -- nothing is yielded but what arrived
  pub outcome-All :
      (P : String × Fields → Type 0) (arrivals : List Arrival) (cells : Dict State)
      → All (λ a. P (a.customer_id, a.identified.event)) arrivals
      → All P (outcome arrivals cells)
  unfolding outcome
  outcome-All P [] cells h = tt
  outcome-All P (a ∷ arrivals) cells (here, later) =
      let cells' = Dict.insert a.customer_id (left a cells) cells in
      let rest_out = outcome arrivals cells' in
      let rest = outcome-All P arrivals cells' later in
      elim (answer-cases a.identified.id a.identified.event (state_of a.customer_id cells)) [
        | inl old ↦ subst (λ o. All P (add (tagged a.customer_id o) rest_out)) (sym old) rest
        | inr new ↦
            subst (λ o. All P (add (tagged a.customer_id o) rest_out)) (sym new) (here, rest)
      ]

  -- The customers of a window do not meet. Events that carry texts for `customer_id` and `event_id` are
  -- deduplicated without an exception, and for every customer what is yielded, and the state that is
  -- kept, are those of the step alone on the events of that customer, in their order.
  pub customers_apart :
      (arrivals : List Arrival) (cells : Dict State)
      → (out : List (String × Fields)) × ((deduplicate lateness window (arrived arrivals) cells).0
          ≡ ok out)
        × ((c : String)
            → run lateness window (events (arrived_of c arrivals)) (state_of c cells) ≡ (
              ok (values_of c out),
              state_of c (deduplicate lateness window (arrived arrivals) cells).1,
            ))
  customers_apart arrivals cells = (
    outcome arrivals cells,
    deduplicate-outcome arrivals cells,
    λ c. run-outcome c arrivals cells,
  )
