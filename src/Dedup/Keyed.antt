-- ===== src/Dedup/Keyed.antt =====
-- `DeduplicateEvents` of src/pipeline/deduplication.py: the step over the events of all customers of a
-- window. Beam keeps a state for each key and each window.
use streaming_fpuna_proyecto.Base.{ℕ, String, Option, none, some, List, [], ◌∷◌}
use streaming_fpuna_proyecto.Base.Dict
use streaming_fpuna_proyecto.Base.Dict.{Dict}
use streaming_fpuna_proyecto.Python.{Result, ok, raise}
use streaming_fpuna_proyecto.Python.Value.{Fields}
use streaming_fpuna_proyecto.Dedup.{
  Window, State, fresh_state, key_by_customer_id, process, continue,
}

abbrev pub or_fresh : Option State → State
or_fresh none = fresh_state
or_fresh (some s) = s

-- the state of a customer: a fresh one before the first event. The counters of the step are the sums of
-- those that stand here.
unfoldable pub state_of : String → Dict State → State
state_of customer_id cells = or_fresh (Dict.lookup customer_id cells)

-- `yield customer_id, dict(event)`
abbrev pub yielded : String → Result (Option Fields) → Result (Option (String × Fields))
yielded customer_id (ok none) = ok none
yielded customer_id (ok (some event)) = ok (some (customer_id, event))
yielded customer_id (raise e) = raise e

module _ (lateness : ℕ) (window : Window) where
  -- the step, on the state that Beam keeps for the key
  unfoldable pub process_keyed :
      String × Fields → Dict State → Result (Option (String × Fields)) × Dict State
  process_keyed (customer_id, event) cells =
      let (out, s) = process lateness window event (state_of customer_id cells) in
      (yielded customer_id out, Dict.insert customer_id s cells)

  -- `expand`, for an event: the key, then the step
  unfoldable pub deduplicate_event :
      Fields → Dict State → Result (Option (String × Fields)) × Dict State
  deduplicate_event event cells = elim (key_by_customer_id event) [
    | ok keyed ↦ process_keyed keyed cells
    | raise e ↦ (raise e, cells)
  ]

  -- the events of a window in the order of arrival
  unfoldable pub deduplicate :
      List Fields → Dict State → Result (List (String × Fields)) × Dict State
  deduplicate [] cells = (ok [], cells)
  deduplicate (event ∷ events) cells = continue (deduplicate_event event cells) (deduplicate events)
