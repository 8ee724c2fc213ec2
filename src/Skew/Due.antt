-- ===== src/Skew/Due.antt =====
-- What publish_scenarios of src/producer/skew_analysis.py is due to send, told field by field.
use streaming_fpuna_proyecto.Base.{
  ℕ, suc, ◌+◌, ◌*◌, ◌<◌, String, ◌≡◌, refl, sym, ap, ◌∙◌, subst, Option, none, some, List, [], ◌∷◌,
  ◌++◌, String-discrete, arith,
}
use streaming_fpuna_proyecto.Base.Int.{ℤ, pos_part, neg_part, sub_ℕ}
use streaming_fpuna_proyecto.Python.{ok, >>=-eq-ok, ok-injective}
use streaming_fpuna_proyecto.Python.Value.{Value, object, get_item}
use streaming_fpuna_proyecto.Python.Codec.{DateTime, Utf8, Json, Iso8601}
use streaming_fpuna_proyecto.Contract.{datetime_range}
use streaming_fpuna_proyecto.Contract.Spec.{IsTransaction}
use streaming_fpuna_proyecto.Contract.Made.{written}
use streaming_fpuna_proyecto.Contract.Events.{encode_transaction_event, encode-ok_iff}
use streaming_fpuna_proyecto.Ingestion.{epoch}
use streaming_fpuna_proyecto.Producer.{Sent}
use streaming_fpuna_proyecto.Producer.Millis.{IsMillis, milliseconds-IsMillis}
use streaming_fpuna_proyecto.Skew.{SkewRecord, SkewScenario}
use streaming_fpuna_proyecto.Skew.Publishing.{
  event_for_record, skew_fields, event_for_record-ok_iff,
}
use streaming_fpuna_proyecto.Skew.Client.{replace_z, written_time, posix_time, sent_for}

module _ (zone : ℕ → ℤ) where
  abbrev pub offset_of : ℕ → Option ℤ → ℤ
  offset_of local none = zone local
  offset_of local (some offset) = offset

  -- the microseconds from the epoch to a time, a naive one in the zone of the host
  pub record IsPosix (time : DateTime) (t : ℤ) : Type 0 where
    pub offset : ℤ
    pub is_offset : offset_of time.local time.utcoffset ≡ offset
    pub since_epoch :
        pos_part t + epoch + pos_part offset ≡ neg_part t + time.local + neg_part offset

  sub_ℕ-parts : (a b : ℕ) → pos_part (sub_ℕ a b) + b ≡ neg_part (sub_ℕ a b) + a
  sub_ℕ-parts a b = ground arith

  posix_time-IsPosix : (time : DateTime) → IsPosix time (posix_time zone time)
  posix_time-IsPosix time = told time.utcoffset refl
    where
      told : (o : Option ℤ) → time.utcoffset ≡ o → IsPosix time (posix_time zone time)
      told o e =
          let offset = offset_of time.local o in
          record {
            offset = offset;
            is_offset = ap (offset_of time.local) e;
            since_epoch = parts o e;
          }
        where
          parts :
              (o : Option ℤ)
              → time.utcoffset ≡ o
              → pos_part (posix_time zone time) + epoch + pos_part (offset_of time.local o)
                ≡ neg_part (posix_time zone time) + time.local + neg_part (offset_of time.local o)
          parts none e = rw e (
              ground (
                arith,
                sub_ℕ-parts (time.local + neg_part (zone time.local))
                    (epoch + pos_part (zone time.local)),
              ))
          parts (some x) e =
              rw e (ground (arith, sub_ℕ-parts (time.local + neg_part x) (epoch + pos_part x)))

module _ (utf8 : Utf8) (json : Json) (iso : Iso8601) (zone : ℕ → ℤ) where
  -- what is sent for a record of a scenario that starts at `base`
  pub record IsSent (scenario_name : String) (base : ℕ) (r : SkewRecord) (sent : Sent utf8)
      : Type 0 where
    pub in_range : base + r.sequence * 1000 < datetime_range
    pub transaction : IsTransaction iso (skew_fields iso scenario_name r (base + r.sequence * 1000))
    pub is_key : sent.key ≡ utf8.encode r.customer_id
    pub is_value :
        sent.value
        ≡ utf8.encode
            (json.dumps (object (skew_fields iso scenario_name r (base + r.sequence * 1000))))
    pub time : DateTime
    pub is_time : iso.fromisoformat (replace_z (written iso (base + r.sequence * 1000))) ≡ ok time
    pub micros : ℤ
    pub is_posix : IsPosix zone time micros
    pub is_timestamp : IsMillis micros sent.timestamp_ms

  -- the records of a scenario and what is sent for them, one by one
  abbrev pub AreSent : String → ℕ → List SkewRecord → List (Sent utf8) → Type 0
  AreSent scenario_name base [] [] = Unit
  AreSent scenario_name base (r ∷ records) (sent ∷ all) =
      IsSent scenario_name base r sent × AreSent scenario_name base records all
  AreSent scenario_name base _ _ = ⊥

  -- the scenarios, one hour after another
  abbrev pub AllSent : ℕ → ℕ → List SkewScenario → List (Sent utf8) → Type 0
  AllSent base scenario_number [] all = all ≡ []
  AllSent base scenario_number (scenario ∷ scenarios) all =
      (base + scenario_number * 3_600_000_000 < datetime_range)
      × (mine : List (Sent utf8)) × (rest : List (Sent utf8)) × (all ≡ mine ++ rest)
      × AreSent scenario.name (base + scenario_number * 3_600_000_000) scenario.records mine
      × AllSent base (suc scenario_number) scenarios rest

  time_of_fields :
      (scenario_name : String) (r : SkewRecord) (instant : ℕ) (event_time : Value) (w : String)
      → get_item (skew_fields iso scenario_name r instant) "event_time" ≡ ok event_time
      → written_time event_time ≡ ok w
      → w ≡ written iso instant
  unfolding get_item String-discrete
  time_of_fields scenario_name r instant event_time w found is_written =
      ok-injective (sym is_written ∙ ap written_time (sym (ok-injective found)))

  pub sent_for-IsSent :
      (scenario_name : String) (base : ℕ) (r : SkewRecord) (sent : Sent utf8)
      → sent_for utf8 json iso zone scenario_name base r ≡ ok sent
      → IsSent scenario_name base r sent
  unfolding sent_for
  sent_for-IsSent scenario_name base r sent h =
      let fields = skew_fields iso scenario_name r (base + r.sequence * 1000) in
      let (event, built, h₁) = >>=-eq-ok (event_for_record iso scenario_name r base) h in
      let (below, is_event, _, _) =
        (event_for_record-ok_iff iso scenario_name r base event).0 built in
      let (value, encoded, h₂) = >>=-eq-ok (encode_transaction_event iso utf8 json event) h₁ in
      let (transaction, is_value) = (encode-ok_iff iso utf8 json event value).0 encoded in
      let (event_time, found, h₃) = >>=-eq-ok (get_item event "event_time") h₂ in
      let (w, is_written, h₄) = >>=-eq-ok (written_time event_time) h₃ in
      let (time, is_time, last) = >>=-eq-ok (iso.fromisoformat (replace_z w)) h₄ in
      let same_time : w ≡ written iso (base + r.sequence * 1000) =
        time_of_fields scenario_name r (base + r.sequence * 1000) event_time w
          (ap (λ e. get_item e "event_time") (sym is_event) ∙ found) is_written in
      let same = ok-injective last in
      record {
        in_range = below;
        transaction = subst (IsTransaction iso) is_event transaction;
        is_key = sym (ap (λ s. s.key) same);
        is_value =
            sym (ap (λ s. s.value) same)
            ∙ sym is_value
            ∙ ap (λ e. utf8.encode (json.dumps (object e))) is_event;
        time = time;
        is_time = ap (λ x. iso.fromisoformat (replace_z x)) (sym same_time) ∙ is_time;
        micros = posix_time zone time;
        is_posix = posix_time-IsPosix zone time;
        is_timestamp =
            subst (IsMillis (posix_time zone time)) (ap (λ s. s.timestamp_ms) same)
              (milliseconds-IsMillis (posix_time zone time));
      }
