-- ===== src/Tests/Ingestion.antt =====
-- The step of src/pipeline/validation.py on the sample records.
use streaming_fpuna_proyecto.Base.{String, ◌≡◌, ◌↔◌}
use streaming_fpuna_proyecto.Base.Int.{ℤ, pos}
use streaming_fpuna_proyecto.Python.{Exception, ok, raise}
use streaming_fpuna_proyecto.Ingestion.{bytes, pair, timestamped, timestamp, process_record}
use streaming_fpuna_proyecto.Ingestion.Reading.{Decodes}
use streaming_fpuna_proyecto.Ingestion.Accept.{Carries, accepted_iff}
use streaming_fpuna_proyecto.Ingestion.Crash.{IsPoison, process-raise_iff}
use streaming_fpuna_proyecto.Tests.Samples.{utf8, iso, json, event}

abbrev new_year_timestamp : ℤ
new_year_timestamp = pos 1767225600000000

accepted_iff_example :
    (process_record utf8 json iso (pair (bytes "C-1") (bytes "event"))
      ≡ ok (timestamped event new_year_timestamp))
    ↔ ((c : Carries utf8 json iso (bytes "C-1") (bytes "event") event) × (new_year_timestamp
          ≡ timestamp c.transaction.instant))
accepted_iff_example =
    accepted_iff utf8 json iso (bytes "C-1") (bytes "event") event new_year_timestamp

process-raise_iff_example :
    ((e : Exception) × (process_record utf8 json iso (pair (bytes "C-1") (bytes "poison"))
        ≡ raise e))
    ↔ ((s : String) × Decodes utf8 (bytes "poison") s × IsPoison json iso s)
process-raise_iff_example = process-raise_iff json iso utf8 (bytes "C-1") (bytes "poison")
