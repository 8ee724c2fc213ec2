-- ===== src/Tests/Customers.antt =====
-- The events of two customers in one window, some of them delivered again.
use mathlib.Core.List.Perm
use streaming_fpuna_proyecto.Base.{
  ℕ, String, ◌≡◌, refl, ap, ◌∙◌, Option, none, some, List, [], ◌∷◌, ◌==◌, Bool-cases, inl, inr,
  eq_of_==, contains, String-discrete,
}
use streaming_fpuna_proyecto.Base.Int.{pos}
use streaming_fpuna_proyecto.Base.Text.{is_blank, ends_with_z, drop_last}
use streaming_fpuna_proyecto.Base.Dict
use streaming_fpuna_proyecto.Base.Dict.{
  Dict, IsDict, insert-IsDict, values_of, lookup-insert, lookup-nil,
}
use streaming_fpuna_proyecto.Python.{ok}
use streaming_fpuna_proyecto.Python.Value.{object, Fields, get, get_item}
use streaming_fpuna_proyecto.Contract.{
  parse_event_time, parse_event_text, aware_to_utc, astimezone_utc, event_time_errors,
  is_filled_text, id_errors, amount_errors, membership_errors, payload_errors, section_errors,
  event_errors, validate_transaction_event,
}
use streaming_fpuna_proyecto.Contract.Spec.{validate-ok_iff}
use streaming_fpuna_proyecto.Dedup.{Window, key_by_customer_id, event_id_of, accept, process, run}
use streaming_fpuna_proyecto.Dedup.Fresh.{events}
use streaming_fpuna_proyecto.Dedup.Keyed.{state_of, process_keyed, deduplicate_event, deduplicate}
use streaming_fpuna_proyecto.Dedup.Customers.{arrived, arrived_of, customers_apart}
use streaming_fpuna_proyecto.Aggregation.Keyed.{Grouping, IsPlanFor}
use streaming_fpuna_proyecto.Aggregation.Merge.{Plan, bundle, merge, amounts_of}
use streaming_fpuna_proyecto.Pipeline.Transactions.{arrivals_of, Transaction, events_of}
use streaming_fpuna_proyecto.Tests.Samples.{iso, event, event_elsewhere}
use streaming_fpuna_proyecto.Tests.Contract.{event-IsTransaction}

abbrev pub window : Window
window = record { start = pos 0; finish = pos 60000000 }

elsewhere_validates : validate_transaction_event iso (object event_elsewhere) ≡ ok []
unfolding validate_transaction_event event_errors get is_blank contains String-discrete
    parse_event_time parse_event_text aware_to_utc astimezone_utc event_time_errors is_filled_text
    id_errors amount_errors membership_errors payload_errors section_errors ends_with_z drop_last
elsewhere_validates = refl

abbrev transactions : List (Transaction iso)
transactions =
    record { event = event; valid = event-IsTransaction }
    ∷ record {
      event = event_elsewhere;
      valid = (validate-ok_iff iso event_elsewhere).0 elsewhere_validates;
    }
    ∷ record { event = event; valid = event-IsTransaction }
    ∷ []

-- a runner that adds up the amounts of a key in one bundle
abbrev pub amounts_in : Option Plan → List ℕ
amounts_in none = []
amounts_in (some (bundle amounts)) = amounts
amounts_in (some (merge plans)) = []

pub plans : List (String × ℕ) → Dict Plan
plans [] = []
plans ((key, amount) ∷ pairs) =
    let others = plans pairs in
    Dict.insert key (bundle (amount ∷ amounts_in (Dict.lookup key others))) others

abbrev pub plan_for : List ℕ → Option Plan
plan_for [] = none
plan_for (amount ∷ amounts) = some (bundle (amount ∷ amounts))

amounts_in-plan_for : (amounts : List ℕ) → amounts_in (plan_for amounts) ≡ amounts
amounts_in-plan_for [] = refl
amounts_in-plan_for (amount ∷ amounts) = refl

pub lookup-plans :
    (key : String) (pairs : List (String × ℕ))
    → Dict.lookup key (plans pairs) ≡ plan_for (values_of key pairs)
unfolding plans
lookup-plans key [] = lookup-nil key
lookup-plans key ((k, amount) ∷ pairs) =
    lookup-insert key k _ (plans pairs) ∙ elim (Bool-cases (k == key)) [
      | inl e ↦
          rw (e, eq_of_== k key e)
            (ap (λ amounts. some (bundle (amount ∷ amounts)))
              (ap amounts_in (lookup-plans key pairs) ∙ amounts_in-plan_for (values_of key pairs)))
      | inr e ↦ rw e (lookup-plans key pairs)
    ]

pub plan_for-IsPlanFor : (amounts : List ℕ) → IsPlanFor (plan_for amounts) amounts
unfolding amounts_of
plan_for-IsPlanFor [] = refl
plan_for-IsPlanFor (amount ∷ amounts) = Perm.refl _

pub plans-IsDict : (pairs : List (String × ℕ)) → IsDict (plans pairs)
unfolding plans
plans-IsDict [] = tt
plans-IsDict ((key, amount) ∷ pairs) = insert-IsDict key _ (plans pairs) (plans-IsDict pairs)

abbrev pub grouping : Grouping
grouping = record {
  plans = plans;
  once = plans-IsDict;
  groups = λ pairs key. rw (lookup-plans key pairs) (plan_for-IsPlanFor (values_of key pairs));
}

customers_apart_example :
    (out : List (String × Fields)) × ((deduplicate 30 window
        (arrived (arrivals_of iso transactions))
        []).0
      ≡ ok out)
    × ((c : String)
        → run 30 window (events (arrived_of c (arrivals_of iso transactions))) (state_of c []) ≡ (
          ok (values_of c out),
          state_of c (deduplicate 30 window (arrived (arrivals_of iso transactions)) []).1,
        ))
customers_apart_example = customers_apart 30 window (arrivals_of iso transactions) []

-- the second delivery of the first customer's event is dropped, and the other customer is not touched
deduplicate_sample :
    (deduplicate 30 window (events_of iso transactions) []).0
    ≡ ok (("C-1", event) ∷ ("C-2", event_elsewhere) ∷ [])
unfolding deduplicate deduplicate_event process_keyed state_of process accept event_id_of get_item
    key_by_customer_id contains String-discrete Dict.lookup Dict.insert
deduplicate_sample = refl
