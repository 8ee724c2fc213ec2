-- ===== src/Pipeline/Transactions.antt =====
-- src/pipeline/ for all customers of a window: from the transactions that passed validation to the
-- aggregates that the rule reads.
use mathlib.Core.List.{Mem, Nodup, Sublist, not-mem-nil}
use streaming_fpuna_proyecto.Base.{
  ℕ, String, ◌≡◌, refl, sym, ap, ◌∙◌, ◌↔◌, List, [], ◌∷◌, map, All, ◌==◌, Bool-cases, inl, inr,
}
use streaming_fpuna_proyecto.Base.Dict
use streaming_fpuna_proyecto.Base.Dict.{Dict, IsDict, values_of, lookup-nil}
use streaming_fpuna_proyecto.Base.Text.{is_blank}
use streaming_fpuna_proyecto.Python.{
  type_error, raise_if, Result, ok, ◌>>=◌, >>-eq-ok, >>=-eq-ok, ok-injective,
}
use streaming_fpuna_proyecto.Python.Value.{Fields, get}
use streaming_fpuna_proyecto.Python.Codec.{Iso8601}
use streaming_fpuna_proyecto.Contract.Spec.{IsTransaction}
use streaming_fpuna_proyecto.Dedup.{Window, State}
use streaming_fpuna_proyecto.Dedup.Fresh.{Identified, ids, events}
use streaming_fpuna_proyecto.Dedup.Run.{run-yields}
use streaming_fpuna_proyecto.Dedup.Keyed.{state_of, deduplicate}
use streaming_fpuna_proyecto.Dedup.Customers.{
  Arrival, arrived, arrived_of, outcome, deduplicate-outcome, run-outcome, outcome-All,
}
use streaming_fpuna_proyecto.Aggregation.{amount_by_customer, payload_amount}
use streaming_fpuna_proyecto.Aggregation.Amount.{get_item-text, transaction_reads}
use streaming_fpuna_proyecto.Aggregation.Keyed.{
  Grouping, amounts_by_customer, aggregate_velocity, Entry, aggregates_of, entries_of, totals_of,
  combine-aggregates_of, lookup-entries_plans, entries_plans-IsDict,
}
use streaming_fpuna_proyecto.Pipeline.OneWindow.{amount_of}

-- what `build_kafka_pipeline` puts between the window and the rule
module _ (grouping : Grouping) (lateness : ℕ) (window : Window) where
  unfoldable pub window_aggregates : List Fields → Dict State → Result (Dict Fields)
  window_aggregates events cells = do
    keyed_events ← (deduplicate lateness window events cells).0
    aggregate_velocity grouping keyed_events

-- a pair that the aggregation reads
abbrev IsRead : String × Fields → Type 0
IsRead (c, event) = amount_by_customer (c, event) ≡ ok (c, amount_of event)

read-amount :
    (c : String) (event : Fields) (amount : ℕ)
    → payload_amount (get event "payload") ≡ ok amount
    → ◌>>=◌ {B = String × ℕ} (payload_amount (get event "payload")) (λ n. ok (c, n))
      ≡ ok (c, amount_of event)
read-amount c event amount is_amount = rw is_amount refl

IsRead-of_ok :
    (c : String) (event : Fields) {pair : String × ℕ}
    → amount_by_customer (c, event) ≡ ok pair
    → IsRead (c, event)
unfolding amount_by_customer
IsRead-of_ok c event h =
    let (filled, h₁) =
      >>-eq-ok (raise_if (is_blank c) type_error "validated customer_id must be a non-empty string")
        h in
    let (amount, is_amount, h₂) = >>=-eq-ok (payload_amount (get event "payload")) h₁ in
    rw filled (read-amount c event amount is_amount)

amounts-ok :
    (keyed : List (String × Fields))
    → All IsRead keyed
    → amounts_by_customer keyed ≡ ok (map (λ (c, event). (c, amount_of event)) keyed)
unfolding amounts_by_customer
amounts-ok [] h = refl
amounts-ok ((c, event) ∷ keyed) (here, later) = rw (here, amounts-ok keyed later) refl

values_of-map :
    (c : String) (keyed : List (String × Fields))
    → values_of c (map (λ (k, event). (k, amount_of event)) keyed)
      ≡ map amount_of (values_of c keyed)
values_of-map c [] = refl
values_of-map c ((k, event) ∷ keyed) = elim (Bool-cases (k == c)) [
  | inl e ↦ rw e (ap (◌∷◌ (amount_of event)) (values_of-map c keyed))
  | inr e ↦ rw e (values_of-map c keyed)
]

module _ (iso : Iso8601) where
  -- an event that validation accepted
  pub record Transaction : Type 0 where
    pub event : Fields
    pub valid : IsTransaction iso event

  abbrev pub events_of : List Transaction → List Fields
  events_of = map (λ t. t.event)

  abbrev pub arrival_of : Transaction → Arrival
  arrival_of t = record {
    customer_id = t.valid.customer_id.content;
    identified = record {
      id = t.valid.event_id.content;
      event = t.event;
      has_id = get_item-text t.event "event_id" _ t.valid.event_id.is_content;
    };
    has_customer = get_item-text t.event "customer_id" _ t.valid.customer_id.is_content;
  }

  abbrev pub arrivals_of : List Transaction → List Arrival
  arrivals_of = map arrival_of

  -- the transactions of one customer
  abbrev pub transactions_of : String → List Transaction → List Identified
  transactions_of c ts = arrived_of c (arrivals_of ts)

  arrived-arrivals_of : (ts : List Transaction) → arrived (arrivals_of ts) ≡ events_of ts
  arrived-arrivals_of [] = refl
  arrived-arrivals_of (t ∷ ts) = ap (◌∷◌ t.event) (arrived-arrivals_of ts)

  arrivals_of-All :
      (ts : List Transaction)
      → All (λ a. IsRead (a.customer_id, a.identified.event)) (arrivals_of ts)
  arrivals_of-All [] = tt
  arrivals_of-All (t ∷ ts) =
      (IsRead-of_ok _ _ (transaction_reads iso t.event t.valid).2, arrivals_of-All ts)

  -- No customer has two entries. The entry of a customer is the number and the sum of the amounts of some
  -- of the customer's transactions, in their order, which have each of their identifiers exactly once, and
  -- there is none for a customer without transactions.
  abbrev pub Tallied : List Transaction → List Entry → Type 0
  Tallied ts entries =
      IsDict entries
      × ((c : String)
          → (out : List Identified) × Sublist out (transactions_of c ts)
            × Nodup (ids out)
            × ((i : String) → Mem i (ids out) ↔ Mem i (ids (transactions_of c ts)))
            × (Dict.lookup c entries ≡ totals_of (map amount_of (events out))))

  module _ (grouping : Grouping) (lateness : ℕ) (window : Window) where
    -- what deduplication yields for the transactions, from the empty state
    abbrev yields : List Transaction → List (String × Fields)
    yields ts = outcome lateness window (arrivals_of ts) []

    abbrev result : List Transaction → List Entry
    result ts = entries_of (grouping.plans (map (λ (c, event). (c, amount_of event)) (yields ts)))

    window_aggregates-eq :
        (ts : List Transaction)
        → window_aggregates grouping lateness window (events_of ts) []
          ≡ ok (aggregates_of (result ts))
    unfolding window_aggregates aggregate_velocity
    window_aggregates-eq ts =
        rw
          (
            ap (λ events. (deduplicate lateness window events []).0) (sym (arrived-arrivals_of ts))
                ∙ deduplicate-outcome lateness window (arrivals_of ts) [],
            amounts-ok (yields ts)
                (outcome-All lateness window IsRead (arrivals_of ts) [] (arrivals_of-All ts)),
          )
          (ap ok (combine-aggregates_of _))

    first_of_each :
        (ts : List Transaction) (c : String)
        → (out : List Identified) × (values_of c (yields ts) ≡ events out)
          × Sublist out (transactions_of c ts)
          × Nodup (ids out)
          × ((i : String) → Mem i (ids out) ↔ Mem i (ids (transactions_of c ts)))
    unfolding state_of Dict.lookup
    first_of_each ts c =
        let (out, is_out, sub, once, all) =
          run-yields lateness window (transactions_of c ts) (state_of c []) in
        (
          out,
          ok-injective
              (sym (ap (λ r. r.0) (run-outcome lateness window c (arrivals_of ts) [])) ∙ is_out),
          sub,
          once,
          λ i. (λ m. ((all i).0 m).0, λ m. (all i).1 (m, not-mem-nil)),
        )

    -- For transactions of the contract, of any customers and in any order, deduplication and aggregation
    -- return. The entry of a customer is the number and the sum of the amounts of some of that
    -- customer's transactions, in their order, which have each of their identifiers exactly once. A
    -- customer without transactions has no entry, and none has two.
    pub window_aggregates-each :
        (ts : List Transaction)
        → (entries : List Entry) × (window_aggregates grouping lateness window (events_of ts) []
            ≡ ok (aggregates_of entries))
          × Tallied ts entries
    window_aggregates-each ts = (
      result ts,
      window_aggregates-eq ts,
      (
        entries_plans-IsDict grouping _,
        λ c.
            let (out, same, sub, once, all) = first_of_each ts c in
            (
              out,
              sub,
              once,
              all,
              lookup-entries_plans grouping _ c
                  ∙ ap totals_of (values_of-map c (yields ts) ∙ ap (map amount_of) same),
            ),
      ),
    )
