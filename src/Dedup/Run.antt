-- ===== src/Dedup/Run.antt =====
-- What a run of src/pipeline/deduplication.py yields and keeps.
use mathlib.Core.List.{Mem, Nodup, Sublist, append-nil}
use mathlib.Core.Logic.{◌∨₁◌}
use mathlib.Core.Logic.Or
use streaming_fpuna_proyecto.Base.{
  ℕ, ◌+◌, String, ◌≡◌, refl, ap, ◌∙◌, ◌↔◌, inl, inr, true, false, none, some, List, [], ◌∷◌, ◌++◌,
  length, contains, arith, Bool-cases,
}
use streaming_fpuna_proyecto.Python.{ok}
use streaming_fpuna_proyecto.Dedup.{Window, State, event_id_of, accept, process, run}
use streaming_fpuna_proyecto.Dedup.Fresh.{
  Identified, ids, events, fresh, seen_after, fresh-Mem→, fresh-Mem←, fresh-Nodup, fresh-Sublist,
  seen_after-Mem, fresh-append, fresh_of_seen,
}

module _ (lateness : ℕ) (window : Window) where
  pub process-accept :
      (x : Identified) (s : State)
      → process lateness window x.event s
        ≡ (ok (accept lateness window x.id x.event s).0, (accept lateness window x.id x.event s).1)
  unfolding process event_id_of
  process-accept x s = rw (x.has_id, process) refl

  accept_old :
      (x : Identified) (s : State)
      → contains s.seen_ids x.id ≡ true
      → ((accept lateness window x.id x.event s).0 ≡ none)
        × ((accept lateness window x.id x.event s).1.seen_ids ≡ s.seen_ids)
  unfolding accept
  accept_old x s old = rw old (refl, refl)

  accept_new :
      (x : Identified) (s : State)
      → contains s.seen_ids x.id ≡ false
      → ((accept lateness window x.id x.event s).0 ≡ some x.event)
        × ((accept lateness window x.id x.event s).1.seen_ids ≡ x.id ∷ s.seen_ids)
  unfolding accept
  accept_new x s new = rw new (refl, refl)

  -- the state after a run
  after : List Identified → State → State
  after [] s = s
  after (x ∷ xs) s = after xs (accept lateness window x.id x.event s).1

  run-fresh :
      (xs : List Identified) (s : State)
      → run lateness window (events xs) s ≡ (ok (events (fresh s.seen_ids xs)), after xs s)
  unfolding run fresh after
  run-fresh [] s = refl
  run-fresh (x ∷ xs) s = rw (process-accept x s) (
      rw (run-fresh xs (accept lateness window x.id x.event s).1)
        (elim (Bool-cases (contains s.seen_ids x.id)) [
          | inl old ↦ let (out, seen) = accept_old x s old in rw (out, seen, old) refl
          | inr new ↦ let (out, seen) = accept_new x s new in rw (out, seen, new) refl
        ]))

  after-seen_ids :
      (xs : List Identified) (s : State) → (after xs s).seen_ids ≡ seen_after s.seen_ids xs
  unfolding after seen_after
  after-seen_ids [] s = refl
  after-seen_ids (x ∷ xs) s =
      after-seen_ids xs (accept lateness window x.id x.event s).1
      ∙ ap (λ seen. seen_after seen xs)
          (elim (Bool-cases (contains s.seen_ids x.id)) [
            | inl old ↦ rw old (accept_old x s old).1
            | inr new ↦ rw new (accept_new x s new).1
          ])

  after-counters :
      (xs : List Identified) (s : State)
      → ((after xs s).unique_events ≡ s.unique_events + length (fresh s.seen_ids xs))
        × ((after xs s).unique_events + (after xs s).duplicate_events
            ≡ s.unique_events + s.duplicate_events + length xs)
  unfolding after fresh accept
  after-counters [] s = omega arith
  after-counters (x ∷ xs) s =
      ground (arith, after-counters xs (accept lateness window x.id x.event s).1)

  -- A run over events that carry a text as `event_id` raises nothing, whatever its state is. What it
  -- yields stands in the order of arrival, has no identifier twice, and has exactly the identifiers
  -- that arrived and that the state had not seen.
  pub run-yields :
      (xs : List Identified) (s : State)
      → (out : List Identified) × ((run lateness window (events xs) s).0 ≡ ok (events out))
        × Sublist out xs
        × Nodup (ids out)
        × ((i : String) → Mem i (ids out) ↔ (Mem i (ids xs) × (¬ Mem i s.seen_ids)))
  run-yields xs s = (
    fresh s.seen_ids xs,
    rw (run-fresh xs s),
    fresh-Sublist xs s.seen_ids,
    fresh-Nodup xs s.seen_ids,
    λ i. (fresh-Mem→ xs s.seen_ids i, λ (m, unseen). fresh-Mem← xs s.seen_ids i m unseen),
  )

  -- After a run the state has seen exactly the identifiers that it had seen and those that arrived,
  -- and the two counters have grown, together, by the number of arrivals.
  pub run-remembers :
      (xs : List Identified) (s : State)
      → ((i : String)
          → Mem i (run lateness window (events xs) s).1.seen_ids
            ↔ (Mem i (ids xs) ∨₁ Mem i s.seen_ids))
        × ((run lateness window (events xs) s).1.unique_events
              + (run lateness window (events xs) s).1.duplicate_events
            ≡ s.unique_events + s.duplicate_events + length xs)
  run-remembers xs s =
      rw (run-fresh xs s)
        (λ i. rw (after-seen_ids xs s) (seen_after-Mem xs s.seen_ids i), (after-counters xs s).1)

  -- A second delivery of events that arrived before changes nothing that is yielded.
  pub run-redelivered :
      (xs ys : List Identified) (s : State)
      → ((i : String) → Mem i (ids ys) → Mem i (ids xs))
      → (run lateness window (events (xs ++ ys)) s).0 ≡ (run lateness window (events xs) s).0
  run-redelivered xs ys s again =
      rw (run-fresh (xs ++ ys) s, run-fresh xs s)
        (ap (λ out. ok (events out))
          (fresh-append xs ys s.seen_ids
            ∙ (ap (λ rest. fresh s.seen_ids xs ++ rest)
                  (fresh_of_seen ys _
                    (λ i m. (seen_after-Mem xs s.seen_ids i).1 (Or.inl (again i m))))
                ∙ append-nil (fresh s.seen_ids xs))))
