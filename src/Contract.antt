-- ===== src/Contract.antt =====
-- src/common/event_contract.py: the versioned contract of a transaction event.
pub mod Instant
pub mod Spec
pub mod Crash
pub mod Events
pub mod Made
use Prim.Native.String.{◌++◌ as ◌<>◌}
use streaming_fpuna_proyecto.Base.{
  ℕ, ◌+◌, ◌-◌, ◌*◌, String, Bool, true, false, not, ◌||◌, Option, none, some, List, [], ◌∷◌, ◌++◌,
  ltb, leb, if◌then◌else◌, contains, String-discrete, ◌==◌,
}
use streaming_fpuna_proyecto.Base.Int.{ℤ, pos, pos_part, neg_part}
use streaming_fpuna_proyecto.Base.Text.{is_blank, ends_with_z, drop_last, replace_utc}
use streaming_fpuna_proyecto.Python.{
  ExceptionClass, type_error, value_error, overflow_error, Exception, is_type_or_value_error,
  Result, ok, raise, throw, raise_if, error_if, ◌>>=◌, ◌>>◌,
}
use streaming_fpuna_proyecto.Python.Value.{
  Value, text, integer, object, Fields, end, field, get, is_text, is_hashable, is_member,
  positive_int,
}
use streaming_fpuna_proyecto.Python.Codec.{DateTime, Utf8, Json, Iso8601}

abbrev pub schema_version : String
schema_version = "1.0"

abbrev pub allowed_transaction_types : List String
allowed_transaction_types = "card_purchase" ∷ "cash_deposit" ∷ "cash_withdrawal" ∷ "transfer" ∷ []

abbrev pub allowed_channels : List String
allowed_channels = "api" ∷ "atm" ∷ "branch" ∷ "mobile" ∷ "web" ∷ []

-- `datetime.max` ends before this many microseconds: 3652059 days
abbrev pub datetime_range : ℕ
datetime_range = 3652059 * 86400000000

-- `value.astimezone(UTC)` of an aware value: the instant, if a `datetime` can hold it
unfoldable pub astimezone_utc : ℕ → ℤ → Result ℕ
astimezone_utc local offset =
    let shifted = local + neg_part offset in
    if ltb shifted (pos_part offset) || leb datetime_range (shifted - pos_part offset)
    then throw overflow_error "date value out of range"
    else ok (shifted - pos_part offset)

-- the test on `tzinfo`, and the conversion that follows it
unfoldable pub aware_to_utc : DateTime → Result ℕ
unfolding astimezone_utc
aware_to_utc d = elim d.utcoffset [
  | none ↦ throw value_error "event_time must include timezone information"
  | some offset ↦ astimezone_utc d.local offset
]

module _ (iso : Iso8601) where
  unfoldable pub format_event_time : DateTime → Result String
  unfolding aware_to_utc replace_utc
  format_event_time value = do
    instant ← aware_to_utc value
    ok (replace_utc (iso.isoformat instant))

  -- the branch of `parse_event_time` for a text
  unfoldable pub parse_event_text : String → Result ℕ
  unfolding aware_to_utc is_blank ends_with_z drop_last
  parse_event_text s =
      if is_blank s then throw value_error "event_time must be a non-empty ISO 8601 string" else do
        let normalized = if ends_with_z s then drop_last s <> "+00:00" else s
        parsed ← iso.fromisoformat normalized
        aware_to_utc parsed

  unfoldable pub parse_event_time : Value → Result ℕ
  unfolding parse_event_text
  parse_event_time (text s) = parse_event_text s
  parse_event_time _ = throw value_error "event_time must be a non-empty ISO 8601 string"

  -- the `try` block: `except (TypeError, ValueError) as exc: errors.append(str(exc))`
  unfoldable pub event_time_errors : Value → Result (List String)
  unfolding parse_event_time
  event_time_errors value = elim (parse_event_time value) [
    | ok instant ↦ ok []
    | raise e ↦ if is_type_or_value_error e.class then ok (e.message ∷ []) else raise e
  ]

-- `isinstance(value, str) and value.strip()`
unfoldable pub is_filled_text : Value → Bool
unfolding is_blank
is_filled_text (text s) = not (is_blank s)
is_filled_text _ = false

unfoldable pub id_errors : String → Value → List String
unfolding is_filled_text
id_errors name value = error_if (not (is_filled_text value)) (name <> " must be a non-empty string")

unfoldable pub amount_errors : Value → List String
amount_errors value = elim (positive_int value) [
  | none ↦ "payload.amount must be a positive integer" ∷ []
  | some amount ↦ []
]

-- `value not in names`, where `names` is a set: it hashes the value first
unfoldable pub membership_errors : List String → String → Value → Result (List String)
unfolding contains String-discrete
membership_errors names message value =
    if is_hashable value
    then ok (error_if (not (is_member names value)) message)
    else throw type_error "unhashable type"

-- from `amount = payload.get("amount")` on
unfoldable pub payload_errors : Fields → Result (List String)
unfolding amount_errors membership_errors get
payload_errors payload = do
  let amount = amount_errors (get payload "amount")
  let currency =
      error_if (not (is_text (get payload "currency") "PYG")) "payload.currency must be 'PYG'"
  transaction_type ←
      membership_errors allowed_transaction_types
        "payload.transaction_type must be one of ['card_purchase', 'cash_deposit', 'cash_withdrawal', 'transfer']"
        (get payload "transaction_type")
  channel ←
      membership_errors allowed_channels
        "payload.channel must be one of ['api', 'atm', 'branch', 'mobile', 'web']"
        (get payload "channel")
  ok (amount ++ (currency ++ (transaction_type ++ channel)))

-- from `payload = event.get("payload")` on
unfoldable pub section_errors : Value → Result (List String)
unfolding payload_errors
section_errors (object payload) = payload_errors payload
section_errors _ = ok ("payload must be a JSON object" ∷ [])

module _ (iso : Iso8601) where
  unfoldable pub event_errors : Fields → Result (List String)
  unfolding event_time_errors section_errors id_errors get
  event_errors event = do
    let version =
        error_if (not (is_text (get event "schema_version") schema_version))
          "schema_version must be '1.0'"
    let event_id = id_errors "event_id" (get event "event_id")
    let customer_id = id_errors "customer_id" (get event "customer_id")
    event_time ← event_time_errors iso (get event "event_time")
    payload ← section_errors (get event "payload")
    ok (version ++ (event_id ++ (customer_id ++ (event_time ++ payload))))

  unfoldable pub validate_transaction_event : Value → Result (List String)
  unfolding event_errors
  validate_transaction_event (object event) = event_errors event
  validate_transaction_event _ = ok ("event must be a JSON object" ∷ [])
