-- ===== src/Producer/Scenario.antt =====
-- The demo scenario of src/producer/synthetic_producer.py.
use Prim.Native.String.{◌++◌ as ◌<>◌}
use streaming_fpuna_proyecto.Base.{
  ℕ, ◌+◌, ◌-◌, ◌*◌, ◌%◌, ◌<◌, String, ◌≡◌, refl, sym, ap, ◌∙◌, subst, Option-cases, inl, inr, some,
  List, [], ◌∷◌, arith,
}
use streaming_fpuna_proyecto.Base.Int.{ℤ, pos_part, neg_part}
use streaming_fpuna_proyecto.Python.{ok, >>=-eq-ok, ok-injective}
use streaming_fpuna_proyecto.Python.Value.{Fields}
use streaming_fpuna_proyecto.Python.Codec.{DateTime, Iso8601}
use streaming_fpuna_proyecto.Contract.{datetime_range, astimezone_utc}
use streaming_fpuna_proyecto.Contract.Spec.{IsTransaction}
use streaming_fpuna_proyecto.Contract.Made.{utc, written, transaction_fields, build_utc-ok_iff}
use streaming_fpuna_proyecto.Contract.Events.{build_transaction_event}
use streaming_fpuna_proyecto.Producer.{
  ScenarioEvent, EventPlan, plan_draft, later, make_event, demo_events, base_instant,
  build_demo_scenario,
}

-- a row of the demo: the label, the name and customer, the seconds after the base time, and the payment
pub record Row : Type 0 where
  pub label : String
  pub name : String
  pub customer_id : String
  pub seconds : ℕ
  pub amount : ℕ
  pub transaction_type : String
  pub channel : String

abbrev pub velocity_row : String → String → ℕ → ℕ → String → Row
velocity_row label name seconds amount channel = record {
  label = label;
  name = name;
  customer_id = "cust-velocity-001";
  seconds = seconds;
  amount = amount;
  transaction_type = "transfer";
  channel = channel;
}

-- the eight events in the order of publication
abbrev pub demo_rows : List Row
demo_rows =
    record {
      label = "normal";
      name = "normal-001";
      customer_id = "cust-normal-001";
      seconds = 5;
      amount = 350_000;
      transaction_type = "card_purchase";
      channel = "web";
    }
    ∷ velocity_row "velocity-1" "velocity-001" 0 2_500_000 "mobile"
    ∷ velocity_row "velocity-2" "velocity-002" 20 2_500_000 "mobile"
    ∷ velocity_row "out-of-order-newer-first" "velocity-004" 50 2_500_000 "api"
    ∷ velocity_row "out-of-order-older-after" "velocity-003" 40 2_500_000 "atm"
    ∷ velocity_row "intentional-duplicate" "velocity-002" 20 2_500_000 "mobile"
    ∷ velocity_row "advance-event-time" "velocity-005" 120 100_000 "branch"
    ∷ velocity_row "late-candidate" "velocity-late-001" 10 500_000 "api"
    ∷ []

-- the whole second of an aware time, in microseconds
pub record IsBase (base_time : DateTime) (base : ℕ) : Type 0 where
  pub offset : ℤ
  pub is_aware : base_time.utcoffset ≡ some offset
  pub instant : ℕ
  pub in_utc : instant + pos_part offset ≡ base_time.local + neg_part offset
  pub in_range : instant < datetime_range
  pub is_base : base ≡ instant - instant % 1_000_000

module _ (iso : Iso8601) where
  -- an event under its label that follows a row
  pub record IsMade (base : ℕ) (run_token : String) (row : Row) (item : ScenarioEvent)
      : Type 0 where
    pub is_label : item.label ≡ row.label
    pub in_range : base + row.seconds * 1_000_000 < datetime_range
    pub is_event :
        item.event
        ≡ transaction_fields
            ("evt-" <> (row.name <> ("-" <> run_token)))
            row.customer_id
            (written iso (base + row.seconds * 1_000_000))
            row.amount
            row.transaction_type
            row.channel
    pub transaction : IsTransaction iso item.event

  -- the rows and the events, one by one
  abbrev pub AreMade : ℕ → String → List Row → List ScenarioEvent → Type 0
  AreMade base run_token [] [] = Unit
  AreMade base run_token (row ∷ rows) (item ∷ items) =
      IsMade base run_token row item × AreMade base run_token rows items
  AreMade base run_token _ _ = ⊥

  later-eq :
      (base seconds : ℕ) (time : DateTime)
      → later base seconds ≡ ok time
      → (time ≡ utc (base + seconds * 1_000_000)) × (base + seconds * 1_000_000 < datetime_range)
  unfolding later
  later-eq base seconds time h = ground arith

  abbrev row_of : EventPlan → String → Row
  row_of p label = record {
    label = label;
    name = p.name;
    customer_id = p.customer_id;
    seconds = p.seconds;
    amount = p.amount;
    transaction_type = p.transaction_type;
    channel = p.channel;
  }

  make_event-IsMade :
      (base : ℕ) (run_token label : String) (p : EventPlan) (event : Fields)
      → make_event iso base run_token p ≡ ok event
      → IsMade base run_token (row_of p label) (record { label = label; event = event })
  unfolding make_event
  make_event-IsMade base run_token label p event h =
      let (time, is_time, built) = >>=-eq-ok (later base p.seconds) h in
      let (same, below) = later-eq base p.seconds time is_time in
      let (_, is_event, transaction) =
        (build_utc-ok_iff iso ("evt-" <> (p.name <> ("-" <> run_token))) p.customer_id
            (base + p.seconds * 1_000_000) p.amount p.transaction_type p.channel event).0
          (ap (λ t. build_transaction_event iso (plan_draft p run_token t)) (sym same) ∙ built) in
      record { is_label = refl; in_range = below; is_event = is_event; transaction = transaction }

  demo_events-AreMade :
      (base : ℕ) (run_token : String) (scenario : List ScenarioEvent)
      → demo_events iso base run_token ≡ ok scenario
      → AreMade base run_token demo_rows scenario
  unfolding demo_events
  demo_events-AreMade base run_token scenario h =
      let made =
        λ (label : String) (p : EventPlan) (e : Fields)
            (m : make_event iso base run_token p ≡ ok e).
          make_event-IsMade base run_token label p e m in
      let (v2, m2, h₁) = >>=-eq-ok (make_event iso base run_token _) h in
      let (n, mn, h₂) = >>=-eq-ok (make_event iso base run_token _) h₁ in
      let (v1, m1, h₃) = >>=-eq-ok (make_event iso base run_token _) h₂ in
      let (v4, m4, h₄) = >>=-eq-ok (make_event iso base run_token _) h₃ in
      let (v3, m3, h₅) = >>=-eq-ok (make_event iso base run_token _) h₄ in
      let (v5, m5, h₆) = >>=-eq-ok (make_event iso base run_token _) h₅ in
      let (late, ml, h₇) = >>=-eq-ok (make_event iso base run_token _) h₆ in
      subst (AreMade base run_token demo_rows) (ok-injective h₇) (
        made "normal" _ n mn,
        (
          made "velocity-1" _ v1 m1,
          (
            made "velocity-2" _ v2 m2,
            (
              made "out-of-order-newer-first" _ v4 m4,
              (
                made "out-of-order-older-after" _ v3 m3,
                (
                  made "intentional-duplicate" _ v2 m2,
                  (made "advance-event-time" _ v5 m5, (made "late-candidate" _ late ml, tt)),
                ),
              ),
            ),
          ),
        ),
      )

  base_instant-IsBase :
      (base_time : DateTime) (base : ℕ) → base_instant base_time ≡ ok base → IsBase base_time base
  unfolding base_instant astimezone_utc
  base_instant-IsBase base_time base h = elim (Option-cases base_time.utcoffset) [
    | inl e ↦ absurd (ground (arith, e, h))
    | inr (offset, e) ↦
        let (instant, is_instant, last) =
          >>=-eq-ok (astimezone_utc base_time.local offset) (rw (e, base_instant) at h) in
        record {
          offset = offset;
          is_aware = e;
          instant = instant;
          in_utc = ground (arith, is_instant);
          in_range = ground (arith, is_instant);
          is_base = sym (ok-injective last);
        }
  ]

  -- A demo scenario that is built has the eight events of the demo, in their order and under their labels:
  -- each is a transaction of the contract with the customer, the amount, the type and the channel of its
  -- row, at the row's number of seconds after the whole second of the base time, and its identifier is
  -- made of the row's name and one token for all, so that the sixth event repeats the third.
  pub build_demo_scenario-AreMade :
      (strftime : ℕ → String) (base_time : DateTime) (scenario : List ScenarioEvent)
      → build_demo_scenario iso strftime base_time ≡ ok scenario
      → (base : ℕ) × IsBase base_time base × AreMade base (strftime base) demo_rows scenario
  unfolding build_demo_scenario
  build_demo_scenario-AreMade strftime base_time scenario h =
      let (base, is_base, made) = >>=-eq-ok (base_instant base_time) h in
      (
        base,
        base_instant-IsBase base_time base is_base,
        demo_events-AreMade base (strftime base) scenario made,
      )
