-- ===== src/Tests/Windows.antt =====
-- Deduplication and aggregation of src/pipeline/ on the sample events.
use mathlib.Core.List.{Mem, Perm, Permᴰ, Sublist, Nodup}
use mathlib.Core.Logic.{◌∨₁◌}
use streaming_fpuna_proyecto.Base.{
  ◌+◌, String, ◌≡◌, refl, ◌↔◌, List, [], ◌∷◌, true, String-discrete,
}
use streaming_fpuna_proyecto.Base.Int.{pos}
use streaming_fpuna_proyecto.Python.{ok}
use streaming_fpuna_proyecto.Python.Value.{text, get_item}
use streaming_fpuna_proyecto.Dedup.{Window, run, fresh_state}
use streaming_fpuna_proyecto.Dedup.Fresh.{Identified, ids, events}
use streaming_fpuna_proyecto.Dedup.Run.{run-yields, run-remembers}
use streaming_fpuna_proyecto.Aggregation.{default_policy, window_velocity_events}
use streaming_fpuna_proyecto.Aggregation.Merge.{
  Plan, bundle, merge, nil, cons, carry_out, amounts_of, totals, carry_out-totals,
}
use streaming_fpuna_proyecto.Aggregation.Amount.{IsPolicy, windowing, IsPolicy-ok_iff}
use streaming_fpuna_proyecto.Tests.Samples.{event, other_event}

abbrev window : Window
window = record { start = pos 0; finish = pos 60000000 }

id_of_first : get_item event "event_id" ≡ ok (text "e-1")
unfolding get_item String-discrete
id_of_first = refl

id_of_second : get_item other_event "event_id" ≡ ok (text "e-2")
unfolding get_item String-discrete
id_of_second = refl

abbrev first : Identified
first = record { id = "e-1"; event = event; has_id = id_of_first }

abbrev second : Identified
second = record { id = "e-2"; event = other_event; has_id = id_of_second }

run-yields_example :
    (out : List Identified) × ((run 30 window (events (first ∷ second ∷ first ∷ [])) fresh_state).0
      ≡ ok (events out))
    × Sublist out (first ∷ second ∷ first ∷ [])
    × Nodup (ids out)
    × ((i : String)
        → Mem i (ids out)
          ↔ (Mem i (ids (first ∷ second ∷ first ∷ [])) × (¬ Mem i fresh_state.seen_ids)))
run-yields_example = run-yields 30 window (first ∷ second ∷ first ∷ []) fresh_state

run-remembers_example :
    ((i : String)
      → Mem i (run 30 window (events (first ∷ first ∷ [])) fresh_state).1.seen_ids
        ↔ (Mem i (ids (first ∷ first ∷ [])) ∨₁ Mem i fresh_state.seen_ids))
    × ((run 30 window (events (first ∷ first ∷ [])) fresh_state).1.unique_events
          + (run 30 window (events (first ∷ first ∷ [])) fresh_state).1.duplicate_events
        ≡ 0 + 0 + 2)
run-remembers_example = run-remembers 30 window (first ∷ first ∷ []) fresh_state

abbrev one_worker : Plan
one_worker = bundle (1 ∷ 2 ∷ 3 ∷ [])

abbrev two_workers : Plan
two_workers = merge (cons (bundle (1 ∷ 2 ∷ [])) (cons (bundle (3 ∷ [])) nil))

carry_out-totals_example : carry_out two_workers ≡ totals (amounts_of two_workers)
carry_out-totals_example = carry_out-totals two_workers

abbrev swapped_worker : Plan
swapped_worker = bundle (2 ∷ 1 ∷ 3 ∷ [])

swapped : Perm (amounts_of one_worker) (amounts_of swapped_worker)
unfolding amounts_of
swapped = ∣ Permᴰ.swap refl refl ∣₁

IsPolicy-ok_iff_example :
    (window_velocity_events default_policy ≡ ok (windowing default_policy true)) ↔ (
      (v : IsPolicy default_policy) × (windowing default_policy true
        ≡ windowing default_policy v.enabled))
IsPolicy-ok_iff_example = IsPolicy-ok_iff default_policy (windowing default_policy true)
