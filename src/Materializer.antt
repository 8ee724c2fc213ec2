-- ===== src/Materializer.antt =====
-- src/materializer/alert_consumer.py: the highest revision of each alert, in memory and in SQLite.
pub mod View
pub mod Best
pub mod Stored
pub mod Snapshot
pub mod Consumer
use Prim.Native.String.{compare}
use Prim.Native.Nat.{Ordering}
use streaming_fpuna_proyecto.Base.{
  ℕ, ◌+◌, ◌^◌, String, Bool, true, false, not, Option, none, some, List, [], ◌∷◌, if◌then◌else◌,
  ltb, leb,
}
use streaming_fpuna_proyecto.Base.Dict
use streaming_fpuna_proyecto.Base.Dict.{Dict}
use streaming_fpuna_proyecto.Base.Int.{pos}
use streaming_fpuna_proyecto.Base.Text.{is_blank}
use streaming_fpuna_proyecto.Python.{
  type_error, value_error, overflow_error, unicode_decode_error, json_decode_error, Result, ok,
  raise, throw, raise_if, ◌>>=◌, ◌>>◌,
}
use streaming_fpuna_proyecto.Python.Value.{Value, integer, object, Fields, get, is_text}
use streaming_fpuna_proyecto.Python.Codec.{Utf8, Json, parsed, malformed, failed}

abbrev revision_of : Value → Result ℕ
revision_of (integer (pos n)) = ok n
revision_of _ = throw value_error "alert revision must be a non-negative integer"

unfoldable pub validated_revision : Fields → Result ℕ
validated_revision alert = revision_of (get alert "revision")

abbrev mapping : Value → Result Fields
mapping (object fields) = ok fields
mapping _ = throw type_error "alert must be a mapping"

unfoldable pub validated_candidate : String → Value → Result (Fields × ℕ)
validated_candidate key alert = do
  raise_if (is_blank key) value_error "Kafka alert key must be a non-empty string"
  candidate ← mapping alert
  raise_if (not (is_text (get candidate "idempotency_key") key)) value_error
      "Kafka alert key must match idempotency_key"
  revision ← validated_revision candidate
  ok (candidate, revision)

-- `current is None or candidate_revision > _validated_revision(current)`
unfoldable pub replaces : Option Fields → ℕ → Result Bool
replaces none candidate_revision = ok true
replaces (some current) candidate_revision = do
  current_revision ← validated_revision current
  ok (ltb current_revision candidate_revision)

-- one round of the loop of `materialize_latest_alerts`
unfoldable pub keep_latest : Dict Fields → String → Value → Result (Dict Fields)
keep_latest latest key alert = do
  (candidate, candidate_revision) ← validated_candidate key alert
  newer ← replaces (Dict.lookup key latest) candidate_revision
  ok (if newer then Dict.insert key candidate latest else latest)

unfoldable pub materialize_from : Dict Fields → List (String × Value) → Result (Dict Fields)
materialize_from latest [] = ok latest
materialize_from latest ((key, alert) ∷ records) = do
  latest' ← keep_latest latest key alert
  materialize_from latest' records

unfoldable pub materialize_latest_alerts : List (String × Value) → Result (Dict Fields)
unfolding materialize_from
materialize_latest_alerts = materialize_from []

-- a row of `velocity_alerts`, but for its primary key
pub record Row : Type 0 where
  pub revision : ℕ
  pub alert_json : String

-- the table by its primary key; SQLite holds integers below 2^63
abbrev pub Table : Type 0
Table = Dict Row

abbrev pub sqlite_limit : ℕ
sqlite_limit = 2 ^ 63

-- `INSERT ... ON CONFLICT(idempotency_key) DO UPDATE ... WHERE excluded.revision >
-- velocity_alerts.revision`: the table, and whether a row changed
unfoldable pub insert_or_update : String → Row → Table → Table × Bool
insert_or_update key excluded table = elim (Dict.lookup key table) [
  | none ↦ (Dict.insert key excluded table, true)
  | some row ↦
      if ltb row.revision excluded.revision
      then (Dict.insert key excluded table, true)
      else (table, false)
]

module _ (json : Json) where
  -- `SQLiteAlertStore.upsert`; what raises leaves the table as it is
  unfoldable pub upsert : String → Value → Table → Result Bool × Table
  upsert key alert table = elim (validated_candidate key alert) [
    | raise e ↦ (raise e, table)
    | ok (candidate, revision) ↦
        if leb sqlite_limit revision
        then (throw overflow_error "Python int too large to convert to SQLite INTEGER", table)
        else let row : Row = record {
          revision = revision;
          alert_json = json.dumps (object candidate);
        } in
          let (table', changed) = insert_or_update key row table in (ok changed, table')
  ]

  abbrev load : String → Result Value
  load s = elim (json.loads s) [
    | parsed v ↦ ok v
    | malformed msg lineno colno ↦ throw json_decode_error msg
    | failed e ↦ raise e
  ]

  -- the rows in order, and the dictionary of what they hold
  unfoldable pub load_rows : List (String × Row) → Result (List (String × Value))
  load_rows [] = ok []
  load_rows ((key, row) ∷ rows) = do
    alert ← load row.alert_json
    rest ← load_rows rows
    ok ((key, alert) ∷ rest)

-- `ORDER BY idempotency_key`
unfoldable pub insert_row : String × Row → List (String × Row) → List (String × Row)
insert_row r [] = r ∷ []
insert_row (key, row) ((key', row') ∷ rows) = elim (compare key key') [
  | Ordering.gt ↦ (key', row') ∷ insert_row (key, row) rows
  | _ ↦ (key, row) ∷ (key', row') ∷ rows
]

unfoldable pub order_by_key : List (String × Row) → List (String × Row)
order_by_key [] = []
order_by_key (r ∷ rows) = insert_row r (order_by_key rows)

unfoldable pub snapshot : Json → Table → Result (List (String × Value))
snapshot json table = load_rows json (order_by_key table)
