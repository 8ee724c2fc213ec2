-- ===== src/Skew/Publishing.antt =====
-- src/producer/skew_analysis.py: the event of a record, and what the delivery reports come to.
use Prim.Native.String.{◌++◌ as ◌<>◌}
use streaming_fpuna_proyecto.Base.{
  sym, ◌<◌, inl, inr, Bool-cases, ℕ, ◌+◌, ◌*◌, String, ◌≡◌, refl, ap, ◌∙◌, ◌↔◌, Option, none, some,
  List, [], ◌∷◌, ◌++◌, map, ltb, leb, if◌then◌else◌, append-eq-nil, arith,
}
use streaming_fpuna_proyecto.Base.Int.{ℤ, pos}
use streaming_fpuna_proyecto.Base.Decimal.{
  decimal, read, read-decimal, read-one_zero, read-two_zeros, read-three_zeros,
}
use streaming_fpuna_proyecto.Python.{
  overflow_error, runtime_error, Result, ok, throw, ◌>>=◌, ◌>>◌, >>=-eq-ok, >>-eq-ok, ok-injective,
}
use streaming_fpuna_proyecto.Python.Value.{Fields}
use streaming_fpuna_proyecto.Python.Codec.{DateTime, Iso8601}
use streaming_fpuna_proyecto.Contract.{datetime_range}
use streaming_fpuna_proyecto.Contract.Spec.{IsTransaction}
use streaming_fpuna_proyecto.Contract.Made.{utc, written, transaction_fields, build_utc-ok_iff}
use streaming_fpuna_proyecto.Contract.Events.{Draft, join, build_transaction_event}
use streaming_fpuna_proyecto.Skew.{SkewRecord}

-- `f"{n:04d}"`
unfoldable pub four_digits : ℕ → String
four_digits n =
    if ltb n 10
    then "000" <> decimal n
    else if ltb n 100
    then "00" <> decimal n
    else if ltb n 1000
    then "0" <> decimal n
    else decimal n

-- `base_time + timedelta(milliseconds=sequence)`, for a base time in UTC
unfoldable pub event_time_of : ℕ → ℕ → Result DateTime
event_time_of base sequence =
    let instant = base + sequence * 1000 in
    if leb datetime_range instant
    then throw overflow_error "date value out of range"
    else ok (record { local = instant; utcoffset = some (pos 0) })

abbrev pub record_draft : String → SkewRecord → DateTime → Draft
record_draft scenario_name r event_time = record {
  event_id = "evt-skew-" <> (scenario_name <> ("-" <> four_digits r.sequence));
  customer_id = r.customer_id;
  event_time = event_time;
  amount = pos 100_000;
  transaction_type = "transfer";
  channel = "api";
  currency = "PYG";
}

unfoldable pub event_for_record : Iso8601 → String → SkewRecord → ℕ → Result Fields
event_for_record iso scenario_name r base = do
  event_time ← event_time_of base r.sequence
  build_transaction_event iso (record_draft scenario_name r event_time)

-- `[int(partition) for partition in assignments]`, if none of them is `None`
unfoldable pub all_reported : String → List (Option ℤ) → Result (List ℤ)
all_reported name [] = ok []
all_reported name (none ∷ rest) =
    throw runtime_error ("missing delivery report for scenario " <> name)
all_reported name (some p ∷ rest) = do ps ← all_reported name rest; ok (p ∷ ps)

-- the last loop, over the partitions that the callbacks wrote down for each scenario
unfoldable pub completed_from : List (String × List (Option ℤ)) → Result (List (String × List ℤ))
completed_from [] = ok []
completed_from ((name, assignments) ∷ observed) = do
  partitions ← all_reported name assignments
  rest ← completed_from observed
  ok ((name, partitions) ∷ rest)

abbrev pub raise_reported : List String → Result (Unit {0})
raise_reported [] = ok tt
raise_reported (e ∷ es) = throw runtime_error (join (e ∷ es))

-- from `remaining = producer.flush(30.0)` on
unfoldable pub complete :
    List String → ℕ → List (String × List (Option ℤ)) → Result (List (String × List ℤ))
complete delivery_errors remaining observed = do
  raise_reported (
      delivery_errors
      ++ (if leb remaining 0
          then []
          else (decimal remaining <> " message(s) were not delivered before timeout") ∷ []))
  completed_from observed

-- every partition was reported
abbrev pub reported : String × List ℤ → String × List (Option ℤ)
reported (name, partitions) = (name, map (λ p. some p) partitions)

all_reported-eq :
    (name : String) (os : List (Option ℤ)) (ps : List ℤ)
    → all_reported name os ≡ ok ps
    → os ≡ map (λ p. some p) ps
unfolding all_reported
all_reported-eq name [] ps h = ap (map (λ p. some p)) (ok-injective h)
all_reported-eq name (none ∷ rest) ps h = cc
all_reported-eq name (some p ∷ rest) ps h =
    let (qs, all, h₁) = >>=-eq-ok (all_reported name rest) h in
    ap (λ os. some p ∷ os) (all_reported-eq name rest qs all)
    ∙ ap (map (λ q. some q)) (ok-injective h₁)

all_reported-map : (name : String) (ps : List ℤ) → all_reported name (map (λ p. some p) ps) ≡ ok ps
unfolding all_reported
all_reported-map name [] = refl
all_reported-map name (p ∷ ps) = rw (all_reported-map name ps) refl

completed_from-eq :
    (observed : List (String × List (Option ℤ))) (result : List (String × List ℤ))
    → completed_from observed ≡ ok result
    → observed ≡ map reported result
unfolding completed_from
completed_from-eq [] result h = ap (map reported) (ok-injective h)
completed_from-eq ((name, os) ∷ observed) result h =
    let (ps, all, h₁) = >>=-eq-ok (all_reported name os) h in
    let (rest, completed, h₂) = >>=-eq-ok (completed_from observed) h₁ in
    ap (λ l. (name, l) ∷ observed) (all_reported-eq name os ps all)
    ∙ ap (λ l. (name, map (λ p. some p) ps) ∷ l) (completed_from-eq observed rest completed)
    ∙ ap (map reported) (ok-injective h₂)

completed_from-map :
    (result : List (String × List ℤ)) → completed_from (map reported result) ≡ ok result
unfolding completed_from
completed_from-map [] = refl
completed_from-map ((name, ps) ∷ result) =
    rw (all_reported-map name ps) (rw (completed_from-map result) refl)

raise_reported-ok : (es : List String) → raise_reported es ≡ ok tt → es ≡ []
raise_reported-ok [] h = refl
raise_reported-ok (e ∷ es) h = cc

-- Publishing returns exactly when no delivery reported an error, none was left after the flush, and every
-- record has a partition. What it returns is, for each scenario, the partitions that were reported.
pub complete-ok_iff :
    (delivery_errors : List String) (remaining : ℕ) (observed : List (String × List (Option ℤ)))
    (result : List (String × List ℤ))
    → (complete delivery_errors remaining observed ≡ ok result)
      ↔ ((delivery_errors ≡ []) × (remaining ≡ 0) × (observed ≡ map reported result))
unfolding complete
complete-ok_iff delivery_errors remaining observed result = (
  λ h.
      let (quiet, h₁) = >>-eq-ok _ h in
      let (no_errors, none_left) = append-eq-nil _ _ (raise_reported-ok _ quiet) in
      (no_errors, ground (arith, none_left), completed_from-eq observed result h₁),
  λ (no_errors, none_left, all). rw (no_errors, none_left, all) (completed_from-map result),
)

read-four_digits : (n : ℕ) → read (four_digits n) 0 ≡ n
unfolding four_digits
read-four_digits n = elim (Bool-cases (ltb n 10)) [
  | inl e ↦ rw e (read-three_zeros (decimal n) ∙ read-decimal n)
  | inr e ↦ elim (Bool-cases (ltb n 100)) [
    | inl f ↦ rw (e, f) (read-two_zeros (decimal n) ∙ read-decimal n)
    | inr f ↦ elim (Bool-cases (ltb n 1000)) [
      | inl g ↦ rw (e, f, g) (read-one_zero (decimal n) ∙ read-decimal n)
      | inr g ↦ rw (e, f, g) (read-decimal n)
    ]
  ]
]

event_time_of-ok :
    (base sequence : ℕ)
    → base + sequence * 1000 < datetime_range
    → event_time_of base sequence ≡ ok (utc (base + sequence * 1000))
unfolding event_time_of
event_time_of-ok base sequence below = ground arith

event_time_of-eq :
    (base sequence : ℕ) (time : DateTime)
    → event_time_of base sequence ≡ ok time
    → time ≡ utc (base + sequence * 1000)
unfolding event_time_of
event_time_of-eq base sequence time h = ground arith

-- the event of a record at an instant
abbrev pub skew_fields : Iso8601 → String → SkewRecord → ℕ → Fields
skew_fields iso scenario_name r instant =
    transaction_fields ("evt-skew-" <> (scenario_name <> ("-" <> four_digits r.sequence)))
      r.customer_id (written iso instant) 100_000 "transfer" "api"

-- An event is built for a record exactly when the instant of its sequence number, that many milliseconds
-- after the base time, is one that a datetime holds, and the event is a transaction of the contract. It is
-- the transfer of 100,000 by the API at that instant, for the customer of the record, and its identifier
-- is made of the name of the scenario and of digits that stand for the sequence number.
pub event_for_record-ok_iff :
    (iso : Iso8601) (scenario_name : String) (r : SkewRecord) (base : ℕ) (event : Fields)
    → (event_for_record iso scenario_name r base ≡ ok event) ↔ (
        (base + r.sequence * 1000 < datetime_range)
        × (event ≡ skew_fields iso scenario_name r (base + r.sequence * 1000))
        × (read (four_digits r.sequence) 0 ≡ r.sequence)
        × IsTransaction iso event)
unfolding event_for_record
event_for_record-ok_iff iso scenario_name r base event =
    let instant = base + r.sequence * 1000 in
    let (to, from) =
      build_utc-ok_iff iso ("evt-skew-" <> (scenario_name <> ("-" <> four_digits r.sequence)))
        r.customer_id instant 100_000 "transfer" "api" event in
    (
      λ h.
          let (time, is_time, built) = >>=-eq-ok (event_time_of base r.sequence) h in
          let same = event_time_of-eq base r.sequence time is_time in
          let (below, is_event, transaction) = to (
            ap (λ t. build_transaction_event iso (record_draft scenario_name r t)) (sym same)
            ∙ built) in
          (below, is_event, read-four_digits r.sequence, transaction),
      λ (below, is_event, _, transaction).
          rw (event_time_of-ok base r.sequence below) (from (below, is_event, transaction)),
    )
