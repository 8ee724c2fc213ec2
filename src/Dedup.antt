-- ===== src/Dedup.antt =====
-- src/pipeline/deduplication.py: the first event of each `event_id`, for one customer and one window.
pub mod Fresh
pub mod Run
pub mod Keyed
pub mod Customers
use streaming_fpuna_proyecto.Base.{
  ℕ, ◌+◌, ◌*◌, String, Bool, true, false, Option, none, some, List, [], ◌∷◌, contains,
  if◌then◌else◌,
}
use streaming_fpuna_proyecto.Base.Int.{ℤ, pos, pos_part, neg_part, sub_ℕ, ltb_ℤ}
use streaming_fpuna_proyecto.Python.{
  type_error, value_error, Result, ok, raise, throw, raise_if, ◌>>=◌, ◌>>◌,
}
use streaming_fpuna_proyecto.Python.Value.{Value, text, Fields, get_item}

-- a Beam window, its bounds in microseconds since the epoch
pub record Window : Type 0 where
  pub start : ℤ
  pub finish : ℤ

unfoldable pub key_by_customer_id : Fields → Result (String × Fields)
key_by_customer_id event = do
  customer_id ← get_item event "customer_id"
  elim customer_id [
    | text s ↦ ok (s, event)
    | _ ↦ throw type_error "validated customer_id must be a string"
  ]

-- `DeduplicateByEventId(n)` and `DeduplicateEvents(n)`
unfoldable pub init : ℤ → Result ℤ
init allowed_lateness_seconds = do
  raise_if (ltb_ℤ allowed_lateness_seconds (pos 0)) value_error
      "allowed_lateness_seconds must not be negative"
  ok allowed_lateness_seconds

-- the state that Beam keeps for a customer and a window, the timer included, beside the two counters
pub record State : Type 0 where
  pub seen_ids : List String
  pub state_expiry : Option ℤ
  pub unique_events : ℕ
  pub duplicate_events : ℕ

abbrev pub fresh_state : State
fresh_state = record { seen_ids = []; state_expiry = none; unique_events = 0; duplicate_events = 0 }

-- `event["event_id"]`, and the test that it is a text
unfoldable pub event_id_of : Fields → Result String
event_id_of event = do
  event_id ← get_item event "event_id"
  elim event_id [ text s ↦ ok s | _ ↦ throw type_error "validated event_id must be a string" ]

-- `window.end + Duration(seconds=lateness)`, for a lateness that `init` accepts
abbrev pub expiry : ℕ → Window → ℤ
expiry lateness w = sub_ℕ (pos_part w.finish + lateness * 1_000_000) (neg_part w.finish)

abbrev pub prepend : {A : Type 0} → Option A → Result (List A) → Result (List A)
prepend none rest = rest
prepend (some out) rest = do outs ← rest; ok (out ∷ outs)

-- an exception ends the run
abbrev pub continue :
    {A S : Type 0} → Result (Option A) × S → (S → Result (List A) × S) → Result (List A) × S
continue (raise e, s) rest = (raise e, s)
continue (ok out, s) rest = let (outs, s') = rest s in (prepend out outs, s')

module _ (lateness : ℕ) (window : Window) where
  -- from `state_expiry.set(...)` on: the event that is yielded, if it is, and the new state
  unfoldable pub accept : String → Fields → State → Option Fields × State
  accept event_id event s =
      if contains s.seen_ids event_id
      then (
        none,
        record s {
          state_expiry = some (expiry lateness window);
          duplicate_events = s.duplicate_events + 1;
        },
      )
      else (
        some event,
        record s {
          seen_ids = event_id ∷ s.seen_ids;
          state_expiry = some (expiry lateness window);
          unique_events = s.unique_events + 1;
        },
      )

  unfoldable pub process : Fields → State → Result (Option Fields) × State
  process event s = elim (event_id_of event) [
    | ok event_id ↦ let (out, s') = accept event_id event s in (ok out, s')
    | raise e ↦ (raise e, s)
  ]

  -- the events that arrive one after the other, and what was yielded for them
  unfoldable pub run : List Fields → State → Result (List Fields) × State
  run [] s = (ok [], s)
  run (event ∷ events) s = continue (process event s) (run events)

-- the timer's callback
unfoldable pub clear_seen_ids : State → State
clear_seen_ids s = record s { seen_ids = [] }
