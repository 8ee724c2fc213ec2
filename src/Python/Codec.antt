-- ===== src/Python/Codec.antt =====
-- The standard library's codecs as parameters: UTF-8, JSON and ISO 8601 texts.
use streaming_fpuna_proyecto.Base.{ℕ, String, Option}
use streaming_fpuna_proyecto.Base.Int.{ℤ}
use streaming_fpuna_proyecto.Python.{Exception, Result}
use streaming_fpuna_proyecto.Python.Value.{Value}

-- A `datetime`: its wall clock in microseconds since 0001-01-01T00:00:00, and `utcoffset()` in
-- microseconds, which a naive one lacks.
pub record DateTime : Type 0 where
  pub local : ℕ
  pub utcoffset : Option ℤ

-- `str.encode("utf-8")`, `bytes.decode("utf-8")` (`none` is a `UnicodeDecodeError`) and
-- `bytes.decode("utf-8", errors="replace")`
pub record Utf8 : Type 1 where
  pub Bytes : Type 0
  pub encode : String → Bytes
  pub decode : Bytes → Option String
  pub decode_replace : Bytes → String

-- What `json.loads` does with a text: a value, a `JSONDecodeError` with its `msg`, `lineno` and
-- `colno`, or another exception (an integer with too many digits, a nesting that is too deep).
pub data Loaded : Type 0 where
  parsed : Value → Loaded
  malformed : String → ℕ → ℕ → Loaded
  failed : Exception → Loaded

-- `json.loads`, and `json.dumps` with `ensure_ascii=False`, `separators=(",", ":")`, `sort_keys=True`
pub record Json : Type 0 where
  pub loads : String → Loaded
  pub dumps : Value → String

-- `datetime.fromisoformat`, and `isoformat(timespec="milliseconds")` of an instant in UTC
pub record Iso8601 : Type 0 where
  pub fromisoformat : String → Result DateTime
  pub isoformat : ℕ → String
