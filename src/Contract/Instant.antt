-- ===== src/Contract/Instant.antt =====
-- Which event times src/common/event_contract.py accepts, and the instants that they stand for, apart from
-- its parse_event_time.
use Prim.Native.String.{◌++◌ as ◌<>◌}
use streaming_fpuna_proyecto.Base.{
  ℕ, ◌+◌, ◌<◌, String, ◌≡◌, refl, ◌↔◌, Option-cases, inl, inr, Bool-cases, false, some,
  if◌then◌else◌, arith,
}
use streaming_fpuna_proyecto.Base.Int.{ℤ, pos_part, neg_part}
use streaming_fpuna_proyecto.Base.Text.{is_blank, ends_with_z, drop_last}
use streaming_fpuna_proyecto.Python.{ok, >>=-eq-ok}
use streaming_fpuna_proyecto.Python.Value.{
  Value, null, boolean, integer, floating, text, array, object,
}
use streaming_fpuna_proyecto.Python.Codec.{DateTime, Iso8601}
use streaming_fpuna_proyecto.Contract.{
  datetime_range, astimezone_utc, aware_to_utc, parse_event_text, parse_event_time,
}

-- an aware time and its instant in UTC: the wall clock less the offset, within the range of a datetime
pub record IsAware (time : DateTime) (instant : ℕ) : Type 0 where
  pub offset : ℤ
  pub is_offset : time.utcoffset ≡ some offset
  pub in_utc : instant + pos_part offset ≡ time.local + neg_part offset
  pub in_range : instant < datetime_range

module _ (iso : Iso8601) where
  -- a text with more than white space, which reads as an aware time, a last "Z" as the offset of UTC
  pub record IsInstant (v : Value) (instant : ℕ) : Type 0 where
    pub content : String
    pub is_content : v ≡ text content
    pub filled : is_blank content ≡ false
    pub time : DateTime
    pub is_time :
        iso.fromisoformat (if ends_with_z content then drop_last content <> "+00:00" else content)
        ≡ ok time
    pub is_aware : IsAware time instant

  IsAware-of_ok :
      (time : DateTime) (instant : ℕ) → aware_to_utc time ≡ ok instant → IsAware time instant
  unfolding aware_to_utc astimezone_utc
  IsAware-of_ok time instant h = elim (Option-cases time.utcoffset) [
    | inl e ↦ absurd (ground (arith, e, h))
    | inr (offset, e) ↦
        let utc : astimezone_utc time.local offset ≡ ok instant = rw (e, aware_to_utc) at h in
        record {
          offset = offset;
          is_offset = e;
          in_utc = ground (arith, utc);
          in_range = ground (arith, utc);
        }
  ]

  ok_of_IsAware :
      (time : DateTime) (instant : ℕ) → IsAware time instant → aware_to_utc time ≡ ok instant
  unfolding aware_to_utc astimezone_utc
  ok_of_IsAware time instant a =
      let same = a.in_utc in
      let below = a.in_range in rw (a.is_offset, aware_to_utc) (ground (arith, same, below))

  IsInstant-of_text :
      (s : String) (instant : ℕ) → parse_event_text iso s ≡ ok instant → IsInstant (text s) instant
  unfolding parse_event_text
  IsInstant-of_text s instant h = elim (Bool-cases (is_blank s)) [
    | inl e ↦ absurd (ground (arith, e, h))
    | inr e ↦
        let (time, is_time, aware) =
          >>=-eq-ok (iso.fromisoformat (if ends_with_z s then drop_last s <> "+00:00" else s))
            (rw (e, parse_event_text) at h) in
        record {
          content = s;
          is_content = refl;
          filled = e;
          time = time;
          is_time = is_time;
          is_aware = IsAware-of_ok time instant aware;
        }
  ]

  -- An event time parses to an instant exactly when it is a text with more than white space that
  -- fromisoformat reads, a last "Z" as "+00:00", as a time with an offset, and the instant
  -- is its wall clock less the offset and one that a datetime holds.
  pub parse_event_time-ok_iff :
      (v : Value) (instant : ℕ) → (parse_event_time iso v ≡ ok instant) ↔ IsInstant v instant
  unfolding parse_event_time parse_event_text
  parse_event_time-ok_iff v instant = (to v, from)
    where
      to : (v : Value) → parse_event_time iso v ≡ ok instant → IsInstant v instant
      to (text s) h = IsInstant-of_text s instant h
      to null h = cc
      to (boolean _) h = cc
      to (integer _) h = cc
      to (floating _) h = cc
      to (array _) h = cc
      to (object _) h = cc

      from : IsInstant v instant → parse_event_time iso v ≡ ok instant
      from i =
          rw (i.is_content, i.filled) (rw (i.is_time) (ok_of_IsAware i.time instant i.is_aware))
