-- ===== src/Tests/Materializer.antt =====
-- The consumer of src/materializer/alert_consumer.py on a log of two revisions of one alert.
use streaming_fpuna_proyecto.Base.{
  ℕ, String, ◌≡◌, refl, none, some, List, [], ◌∷◌, arith, String-discrete, true,
}
use streaming_fpuna_proyecto.Base.Dict
use streaming_fpuna_proyecto.Base.Dict.{Dict}
use streaming_fpuna_proyecto.Base.Text.{is_blank}
use streaming_fpuna_proyecto.Python.{Result, ok}
use streaming_fpuna_proyecto.Python.Value.{object, Fields, get}
use streaming_fpuna_proyecto.Materializer.{
  validated_candidate, validated_revision, materialize_latest_alerts, upsert,
}
use streaming_fpuna_proyecto.Materializer.View.{Candidate, observe, empty_view, records}
use streaming_fpuna_proyecto.Materializer.Best.{IsLatest, materialize-IsLatest}
use streaming_fpuna_proyecto.Materializer.Stored.{Stores, upsert-Stores}
use streaming_fpuna_proyecto.Materializer.Consumer.{
  Message, record_of, Session, decode_message, decode_bytes, consume,
}
use streaming_fpuna_proyecto.Materializer.Consumer.Delivery.{
  Published, candidates, messages, Delivers, remaining, restart, new_group, Reachable, started, ran,
}
use streaming_fpuna_proyecto.Materializer.Consumer.Runs.{
  IsMaterialized, IsLatestRow, Reachable-IsLatestRow,
}
use streaming_fpuna_proyecto.Materializer.Consumer.CatchUp.{polls_of, consume-IsLatestRow}
use streaming_fpuna_proyecto.Tests.Samples.{utf8, json, alert_of}

abbrev pub key : String
key = "velocity|C-1|0|60000"

pub alert_accepted :
    (revision : ℕ)
    → validated_candidate key (object (alert_of revision)) ≡ ok (alert_of revision, revision)
unfolding validated_candidate validated_revision get is_blank String-discrete
alert_accepted revision = refl

abbrev pub candidate : ℕ → Candidate
candidate revision = record {
  key = key;
  alert = alert_of revision;
  revision = revision;
  accepted = alert_accepted revision;
}

materialize-IsLatest_example :
    (latest : Dict Fields) × (materialize_latest_alerts (records (candidate 1 ∷ candidate 0 ∷ []))
      ≡ ok latest)
    × ((k : String) → IsLatest k (candidate 1 ∷ candidate 0 ∷ []) (Dict.lookup k latest))
materialize-IsLatest_example = materialize-IsLatest (candidate 1 ∷ candidate 0 ∷ [])

empty_stored : Stores json empty_view []
unfolding Dict.lookup
empty_stored k = refl

upsert-Stores_example :
    ((upsert json key (object (alert_of 1)) []).0 ≡ ok true)
    × Stores json (observe empty_view (candidate 1)) (upsert json key (object (alert_of 1)) []).1
upsert-Stores_example = upsert-Stores json empty_view [] (candidate 1) (omega arith) empty_stored

abbrev pub message : ℕ → String → Message utf8
message offset value = record { offset = offset; key = some key; value = some value }

decodes_first : decode_message utf8 json (message 0 "alert 0") ≡ ok (key, alert_of 0)
unfolding decode_message decode_bytes String-discrete
decodes_first = refl

decodes_second : decode_message utf8 json (message 1 "alert 1") ≡ ok (key, alert_of 1)
unfolding decode_message decode_bytes String-discrete
decodes_second = refl

abbrev first : Published utf8 json
first = record {
  message = message 0 "alert 0";
  candidate = candidate 0;
  decodes = decodes_first;
  fits = omega arith;
}

abbrev second : Published utf8 json
second = record {
  message = message 1 "alert 1";
  candidate = candidate 1;
  decodes = decodes_second;
  fits = omega arith;
}

abbrev log : List (Published utf8 json)
log = first ∷ second ∷ []

abbrev pub commit : Message utf8 → Result (Unit {0})
commit m = ok tt

abbrev after_one : Session utf8
after_one =
    (consume utf8 json commit (some 1) (record_of (message 0 "alert 0") ∷ [])
      (restart utf8 json (new_group utf8 json))).1

after_one-Reachable : Reachable utf8 json log after_one
unfolding Delivers remaining
after_one-Reachable =
    ran (new_group utf8 json) commit (some 1) (record_of (message 0 "alert 0") ∷ []) started
      (refl, tt)

Reachable-IsLatestRow_example : IsMaterialized utf8 json log after_one
Reachable-IsLatestRow_example = Reachable-IsLatestRow utf8 json log after_one after_one-Reachable

consume-IsLatestRow_example :
    (s' : Session utf8) × (consume utf8 json commit none
        (polls_of utf8 json (remaining utf8 json after_one.committed log))
        (restart utf8 json after_one)
      ≡ (ok tt, s'))
    × (s'.committed ≡ messages utf8 json log)
    × ((k : String) → IsLatestRow utf8 json k (candidates utf8 json log) (Dict.lookup k s'.table))
consume-IsLatestRow_example =
    consume-IsLatestRow utf8 json log after_one commit after_one-Reachable (λ m. refl)
