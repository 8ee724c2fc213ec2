-- ===== src/Ingestion/Published.antt =====
-- An event on its way from src/common/event_contract.py, which encodes and keys it, through Kafka to
-- src/pipeline/validation.py.
use streaming_fpuna_proyecto.Base.{String, ◌≡◌, refl, sym, ap, ◌∙◌, some, List}
use streaming_fpuna_proyecto.Base.Int.{ℤ}
use streaming_fpuna_proyecto.Python.{ok}
use streaming_fpuna_proyecto.Python.Value.{text, integer, object, Fields, get}
use streaming_fpuna_proyecto.Python.Codec.{Utf8, Json, Iso8601, parsed}
use streaming_fpuna_proyecto.Contract.Spec.{IsTransaction, IsPayload, IsFilled, IsOneOf}
use streaming_fpuna_proyecto.Contract.Events.{
  encode_transaction_event, transaction_kafka_key, encode-ok_iff, key_of_transaction,
}
use streaming_fpuna_proyecto.Ingestion.{bytes, pair, timestamped, timestamp, process_record}
use streaming_fpuna_proyecto.Ingestion.Accept.{Carries, accepted_iff}

-- What `json.loads` gives back of an object that `json.dumps` wrote with sorted keys: the texts, the
-- integers and the objects of each field, in another order.
pub record SameScalars (before after : Fields) : Type 0 where
  pub texts : (name s : String) → get before name ≡ text s → get after name ≡ text s
  pub integers : (name : String) (n : ℤ) → get before name ≡ integer n → get after name ≡ integer n

pub record SameFields (before after : Fields) : Type 0 where
  pub scalars : SameScalars before after
  pub objects :
      (name : String) (inner : Fields)
      → get before name ≡ object inner
      → (inner' : Fields) × (get after name ≡ object inner') × SameScalars inner inner'

IsOneOf-after :
    (names : List String) (before after : Fields) (name : String)
    → SameScalars before after
    → IsOneOf names (get before name)
    → IsOneOf names (get after name)
IsOneOf-after names before after name same o = record {
  name = o.name;
  is_name = same.texts name o.name o.is_name;
  listed = o.listed;
}

IsFilled-after :
    (before after : Fields) (name : String)
    → SameScalars before after
    → IsFilled (get before name)
    → IsFilled (get after name)
IsFilled-after before after name same f = record {
  content = f.content;
  is_content = same.texts name _ f.is_content;
  filled = f.filled;
}

IsPayload-after :
    (before after : Fields) → SameScalars before after → IsPayload before → IsPayload after
IsPayload-after before after same p = record {
  amount = record {
    below = p.amount.below;
    is_amount = same.integers "amount" _ p.amount.is_amount;
  };
  currency = same.texts "currency" _ p.currency;
  transaction_type = IsOneOf-after _ before after "transaction_type" same p.transaction_type;
  channel = IsOneOf-after _ before after "channel" same p.channel;
}

module _ (iso : Iso8601) where
  IsTransaction-after :
      (event event' : Fields)
      → SameFields event event'
      → (t : IsTransaction iso event)
      → (t' : IsTransaction iso event') × (t'.instant ≡ t.instant)
        × (t'.customer_id.content ≡ t.customer_id.content)
  IsTransaction-after event event' same t =
      let (payload, is_payload, same_payload) = same.objects "payload" t.payload t.is_payload in
      (
        record {
          version = same.scalars.texts "schema_version" _ t.version;
          event_id = IsFilled-after event event' "event_id" same.scalars t.event_id;
          customer_id = record {
            content = t.customer_id.content;
            is_content = same.scalars.texts "customer_id" _ t.customer_id.is_content;
            filled = t.customer_id.filled;
          };
          instant = t.instant;
          event_time =
              let time = t.event_time in
              record {
                content = time.content;
                is_content = same.scalars.texts "event_time" _ time.is_content;
                filled = time.filled;
                time = time.time;
                is_time = time.is_time;
                is_aware = time.is_aware;
              };
          payload = payload;
          is_payload = is_payload;
          payload_valid = IsPayload-after t.payload payload same_payload t.payload_valid;
        },
        refl,
        refl,
      )

  module _ (utf8 : Utf8) (json : Json) where
    -- An event that is encoded is accepted by ingestion, if UTF-8 decodes what it encodes and the JSON
    -- text of the event is read back with the same texts, integers and objects: the record of its Kafka
    -- key and its bytes comes out as what was read back, at the instant of its event time.
    pub published-accepted :
        (event event' : Fields) (value : utf8.Bytes)
        → ((s : String) → utf8.decode (utf8.encode s) ≡ some s)
        → json.loads (json.dumps (object event)) ≡ parsed (object event')
        → SameFields event event'
        → encode_transaction_event iso utf8 json event ≡ ok value
        → (key : utf8.Bytes) × (t : IsTransaction iso event) × (transaction_kafka_key utf8 event
            ≡ ok key)
          × (process_record utf8 json iso (pair (bytes key) (bytes value))
              ≡ ok (timestamped event' (timestamp t.instant)))
    published-accepted event event' value decodes loads same encoded =
        let (t, is_value) = (encode-ok_iff iso utf8 json event value).0 encoded in
        let (t', same_instant, same_customer) = IsTransaction-after event event' same t in
        let key = utf8.encode t.customer_id.content in
        let carries : Carries utf8 json iso (bytes key) (bytes value) event' = record {
          key = t.customer_id.content;
          value = json.dumps (object event);
          key_decodes = record { content = key; is_bytes = refl; decoded = decodes _ };
          value_decodes = record {
            content = value;
            is_bytes = refl;
            decoded = ap utf8.decode (sym is_value) ∙ decodes _;
          };
          loads = loads;
          transaction = t';
          same_customer = same_customer;
        } in
        (
          key,
          t,
          key_of_transaction iso utf8 json event t,
          (accepted_iff utf8 json iso (bytes key) (bytes value) event' (timestamp t.instant)).1
              (carries, ap timestamp (sym same_instant)),
        )
