-- ===== src/Materializer/Consumer.antt =====
-- src/materializer/alert_consumer.py: the loop of `main` that polls, stores and commits.
pub mod Delivery
pub mod Runs
pub mod CatchUp
pub mod Rule
pub mod Counts
pub mod Shown
use streaming_fpuna_proyecto.Base.{
  ℕ, suc, length, ◌+◌, String, Bool, true, false, Option, none, some, List, [], ◌∷◌, ◌++◌,
  if◌then◌else◌, ltb,
}
use streaming_fpuna_proyecto.Base.Int.{ℤ, pos}
use streaming_fpuna_proyecto.Base.Dict.{Dict}
use streaming_fpuna_proyecto.Python.{
  exit_status, Exception, runtime_error, value_error, unicode_decode_error, Result, ok, raise,
  throw, raise_if, ◌>>=◌, ◌>>◌,
}
use streaming_fpuna_proyecto.Python.Value.{Value, object, Fields}
use streaming_fpuna_proyecto.Python.Codec.{Utf8, Json}
use streaming_fpuna_proyecto.Materializer.{Table, upsert, load, snapshot}

-- what the code reads of a Kafka message; a null key or value is `none`
pub record Message (utf8 : Utf8) : Type 0 where
  pub offset : ℕ
  pub key : Option utf8.Bytes
  pub value : Option utf8.Bytes

-- what `consumer.poll` returns: `None`, a message with an error, or a record
pub data Poll (utf8 : Utf8) : Type 0 where
  no_message : Poll utf8
  partition_eof : Poll utf8
  broken : String → Poll utf8
  record_of : Message utf8 → Poll utf8

-- the broker's and the database's state, and the counters of the process
pub record Session (utf8 : Utf8) : Type 0 where
  pub committed : List (Message utf8)
  pub table : Table
  pub messages_read : ℕ
  pub materialized_updates : ℕ

-- whether the loop goes on
pub data Next (utf8 : Utf8) : Type 0 where
  stop : Result (Unit {0}) → Session utf8 → Next utf8
  go_on : Session utf8 → Next utf8

module _ (utf8 : Utf8) where
  abbrev pub next_of : Result (Unit {0}) → Session utf8 → Next utf8
  next_of (raise e) s = stop (raise e) s
  next_of (ok _) s = go_on s

  abbrev pub go_on_with :
      (Session utf8 → Result (Unit {0}) × Session utf8)
      → Next utf8
      → Result (Unit {0}) × Session utf8
  go_on_with f (stop answer s) = (answer, s)
  go_on_with f (go_on s) = f s

  abbrev pub decode : utf8.Bytes → Result String
  decode b = elim (utf8.decode b) [
    | none ↦ throw unicode_decode_error "invalid UTF-8"
    | some s ↦ ok s
  ]

  abbrev json_object : Value → Result Fields
  json_object (object alert) = ok alert
  json_object _ = throw value_error "alert value must be a JSON object"

  unfoldable pub decode_bytes :
      Json → Option utf8.Bytes → Option utf8.Bytes → Result (String × Fields)
  decode_bytes json (some raw_key) (some raw_value) = do
    key ← decode raw_key
    serialized ← decode raw_value
    value ← load json serialized
    alert ← json_object value
    ok (key, alert)
  decode_bytes json _ _ = throw value_error "alert record must contain a non-null key and value"

  unfoldable pub decode_message : Json → Message utf8 → Result (String × Fields)
  decode_message json message = decode_bytes json message.key message.value

  -- `args.max_messages is None or messages_read < args.max_messages`
  abbrev pub wants_more : Option ℕ → Session utf8 → Bool
  wants_more none s = true
  wants_more (some max_messages) s = ltb s.messages_read max_messages

  abbrev pub count_update : Bool → ℕ → ℕ
  count_update applied n = if applied then n + 1 else n

  -- what follows `consumer.commit`: the counters, unless it raised
  abbrev pub after_commit :
      Message utf8 → Bool → Session utf8 → Result (Unit {0}) → Result (Unit {0}) × Session utf8
  after_commit message applied s (raise e) = (raise e, s)
  after_commit message applied s (ok _) = (
    ok tt,
    record {
      committed = s.committed ++ (message ∷ []);
      table = s.table;
      messages_read = s.messages_read + 1;
      materialized_updates = count_update applied s.materialized_updates;
    },
  )

module _ (utf8 : Utf8) (json : Json) (commit : Message utf8 → Result (Unit {0})) where
  abbrev pub commit_message : Message utf8 → Bool → Session utf8 → Result (Unit {0}) × Session utf8
  commit_message message applied s = after_commit utf8 message applied s (commit message)

  -- from `_decode_message` on: the upsert comes before the commit
  unfoldable pub handle : Message utf8 → Session utf8 → Result (Unit {0}) × Session utf8
  handle message s = elim (decode_message utf8 json message) [
    | raise e ↦ (raise e, s)
    | ok (key, alert) ↦
        let (stored, table) = upsert json key (object alert) s.table in
        elim stored [
          | raise e ↦ (raise e, record s { table = table })
          | ok applied ↦ commit_message message applied (record s { table = table })
        ]
  ]

  -- the body of the loop
  unfoldable pub poll_once : Poll utf8 → Session utf8 → Next utf8
  poll_once no_message s = stop (ok tt) s
  poll_once partition_eof s = go_on s
  poll_once (broken error) s = stop (throw runtime_error error) s
  poll_once (record_of message) s = let (answer, s') = handle message s in next_of utf8 answer s'

  -- the `while` loop, over what the polls return; they end where the process is killed
  unfoldable pub consume :
      Option ℕ → List (Poll utf8) → Session utf8 → Result (Unit {0}) × Session utf8
  consume max_messages [] s = (ok tt, s)
  consume max_messages (poll ∷ polls) s = elim (wants_more utf8 max_messages s) [
    | false ↦ (ok tt, s)
    | true ↦ go_on_with utf8 (consume max_messages polls) (poll_once poll s)
  ]

-- what `parse_args` reads of the command line; a timeout of `nan` is no number and not refused
pub record Options : Type 0 where
  pub max_messages : Option ℤ
  pub timeout_not_positive : Bool

abbrev pub limit_of : Option ℤ → Result (Option ℕ)
limit_of none = ok none
limit_of (some (pos (suc n))) = ok (some (suc n))
limit_of (some _) = throw (exit_status (pos 2)) "--max-messages must be positive"

-- the checks at the end of `parse_args`; `parser.error` leaves by `SystemExit(2)`
unfoldable pub check_args : Options → Result (Option ℕ)
check_args args = do
  limit ← limit_of args.max_messages
  raise_if args.timeout_not_positive (exit_status (pos 2)) "--timeout-seconds must be positive"
  ok limit

-- what `main` prints last
pub record Report : Type 0 where
  pub snapshot : Dict Value
  pub materialized_keys : ℕ
  pub messages_read : ℕ
  pub materialized_updates : ℕ

module _ (utf8 : Utf8) (json : Json) (commit : Message utf8 → Result (Unit {0})) where
  abbrev pub report_of : Session utf8 → Result Report
  report_of s = snapshot json s.table >>= λ shown. ok (record {
    snapshot = shown;
    materialized_keys = length shown;
    messages_read = s.messages_read;
    materialized_updates = s.materialized_updates;
  })

  -- from the end of the loop on
  abbrev pub finish : Result (Unit {0}) × Session utf8 → Result Report × Session utf8
  finish (raise e, s) = (raise e, s)
  finish (ok done, s) = (report_of s, s)

  -- `main`, if the polls bring what the list says and the next one times out
  unfoldable pub main : Options → List (Poll utf8) → Session utf8 → Result Report × Session utf8
  main args polls s = elim (check_args args) [
    | raise e ↦ (raise e, s)
    | ok limit ↦ finish (consume utf8 json commit limit (polls ++ (no_message ∷ [])) s)
  ]
