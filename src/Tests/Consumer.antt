-- ===== src/Tests/Consumer.antt =====
-- `main` of src/materializer/alert_consumer.py on a log of two revisions of one alert, to its report.
use streaming_fpuna_proyecto.Base.{
  zero, String, false, ◌≡◌, refl, none, some, List, [], ◌∷◌, length, All, arith, String-discrete,
}
use streaming_fpuna_proyecto.Base.Int.{pos}
use streaming_fpuna_proyecto.Base.Dict
use streaming_fpuna_proyecto.Python.{exit_status, ok, throw}
use streaming_fpuna_proyecto.Python.Value.{Value, integer, object, get}
use streaming_fpuna_proyecto.Python.Codec.{Json}
use streaming_fpuna_proyecto.Materializer.Snapshot.{IsAscending}
use streaming_fpuna_proyecto.Materializer.Consumer.{
  record_of, Session, decode_message, decode_bytes, consume, Options, check_args, Report, main,
}
use streaming_fpuna_proyecto.Materializer.Consumer.Delivery.{
  Published, candidates, remaining, restart, new_group, Reachable, started, ran, Delivers,
}
use streaming_fpuna_proyecto.Materializer.Consumer.CatchUp.{polls_of}
use streaming_fpuna_proyecto.Materializer.Consumer.Counts.{IsCounted, consume-IsCounted}
use streaming_fpuna_proyecto.Materializer.Consumer.Shown.{
  IsLatestShown, ReadsBack, main-IsLatestShown,
}
use streaming_fpuna_proyecto.Tests.Samples.{utf8, json, alert_of}
use streaming_fpuna_proyecto.Tests.Materializer.{key, candidate, message, commit}

abbrev alert_text : Value → String
alert_text (integer (pos zero)) = "alert 0"
alert_text _ = "alert 1"

abbrev dumps : Value → String
dumps (object alert) = alert_text (get alert "revision")
dumps _ = "{}"

-- a codec that writes the two alerts as it reads them
abbrev store_json : Json
store_json = record json { dumps = dumps }

decodes_first : decode_message utf8 store_json (message 0 "alert 0") ≡ ok (key, alert_of 0)
unfolding decode_message decode_bytes String-discrete
decodes_first = refl

decodes_second : decode_message utf8 store_json (message 1 "alert 1") ≡ ok (key, alert_of 1)
unfolding decode_message decode_bytes String-discrete
decodes_second = refl

abbrev log : List (Published utf8 store_json)
log =
    record {
      message = message 0 "alert 0";
      candidate = candidate 0;
      decodes = decodes_first;
      fits = omega arith;
    }
    ∷ record {
      message = message 1 "alert 1";
      candidate = candidate 1;
      decodes = decodes_second;
      fits = omega arith;
    }
    ∷ []

abbrev after_one : Session utf8
after_one =
    (consume utf8 store_json commit (some 1) (record_of (message 0 "alert 0") ∷ [])
      (restart utf8 store_json (new_group utf8 store_json))).1

after_one-Reachable : Reachable utf8 store_json log after_one
unfolding Delivers remaining
after_one-Reachable =
    ran (new_group utf8 store_json) commit (some 1) (record_of (message 0 "alert 0") ∷ []) started
      (refl, tt)

abbrev args : Options
args = record { max_messages = none; timeout_not_positive = false }

unlimited : check_args args ≡ ok none
unfolding check_args
unlimited = refl

no_messages_refused :
    check_args (record args { max_messages = some (pos 0) })
    ≡ throw (exit_status (pos 2)) "--max-messages must be positive"
unfolding check_args
no_messages_refused = refl

log-ReadsBack :
    All (ReadsBack utf8 store_json (λ alert. object alert)) (candidates utf8 store_json log)
unfolding get String-discrete
log-ReadsBack = (refl, (refl, tt))

main-IsLatestShown_example :
    (report : Report) × (s' : Session utf8) × (main utf8 store_json commit args
        (polls_of utf8 store_json (remaining utf8 store_json after_one.committed log))
        (restart utf8 store_json after_one)
      ≡ (ok report, s'))
    × IsAscending report.snapshot
    × ((k : String)
        → IsLatestShown utf8 store_json
            (λ alert. object alert)
            k
            (candidates utf8 store_json log)
            (Dict.lookup k report.snapshot))
    × (report.materialized_keys ≡ length report.snapshot)
main-IsLatestShown_example =
    main-IsLatestShown utf8 store_json (λ alert. object alert) log after_one commit args
      after_one-Reachable (λ m. refl) unlimited log-ReadsBack

consume-IsCounted_example :
    IsCounted utf8
      (some 1)
      1
      (consume utf8 store_json commit
        (some 1)
        (record_of (message 1 "alert 1") ∷ record_of (message 2 "alert 0") ∷ [])
        (restart utf8 store_json (record {
          committed = message 0 "alert 0" ∷ [];
          table = [];
          messages_read = 0;
          materialized_updates = 0;
        }))).1
consume-IsCounted_example =
    consume-IsCounted utf8 store_json commit (some 1)
      (record_of (message 1 "alert 1") ∷ record_of (message 2 "alert 0") ∷ [])
      (record {
        committed = message 0 "alert 0" ∷ [];
        table = [];
        messages_read = 0;
        materialized_updates = 0;
      })
