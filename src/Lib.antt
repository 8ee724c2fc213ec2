-- ===== src/Lib.antt =====
-- A verification library for the streaming bank-transaction pipeline of this repository.
--
-- The program reads transaction events from Kafka, validates them, drops repeated ones, counts them
-- and adds their amounts for each customer and sliding window, and writes a velocity alert for every
-- pane in which a threshold is reached. A consumer keeps the highest revision of every alert in a
-- SQLite table.
--
-- Its parts, and the files that model them:
--   src/common/event_contract.py: Contract (parse_event_time, format_event_time,
--     validate_transaction_event, with the blocks of the validator as functions of their own) and
--     Contract/Events (build_transaction_event, encode_transaction_event, transaction_kafka_key).
--     Contract/Spec says what a transaction is apart from that code, Contract/Instant which event times
--     are accepted, Contract/Crash what the validator lets out, Contract/Made which event the producers
--     have built, field by field.
--   src/pipeline/validation.py: Ingestion, the process method of ParseAndValidateKafkaRecord with its two
--     counters. Ingestion/Reading, Ingestion/Accept and Ingestion/Crash are
--     about its outcomes, Ingestion/Published about an event that Contract encodes.
--   src/pipeline/deduplication.py: Dedup, the process method of DeduplicateByEventId on the state that
--     Beam keeps for one customer and one window, its timer's callback, and _key_by_customer_id, and
--     Dedup/Keyed, DeduplicateEvents over all customers of a window. Dedup/Fresh and Dedup/Run are about
--     sequences of events, Dedup/Customers about the customers of a window.
--   src/pipeline/aggregation.py: Aggregation, with _amount_by_customer, VelocityCombineFn and the checks
--     and choices of WindowVelocityEvents, and Aggregation/Keyed, AggregateVelocity over all customers of
--     a window. Aggregation/Merge is about the plans by which a runner may call the combiner,
--     Aggregation/Amount about what the steps read of a valid event.
--   src/pipeline/alerts.py: Alerts, with velocity_alert_key, build_velocity_alert and the process method
--     of BuildVelocityAlert, and Alerts/Revisions, CreateVelocityAlerts over the aggregates of a window.
--     Alerts/Key and Alerts/Build are about keys and outcomes.
--   src/materializer/alert_consumer.py: Materializer, with materialize_latest_alerts and
--     SQLiteAlertStore (upsert, snapshot), and Materializer/Consumer, the checks of the options, the loop
--     of main and its report. View, Best, Stored and Snapshot are about the view that both forms
--     implement and how it is read, Consumer/Delivery, Consumer/Runs and Consumer/CatchUp about runs that
--     crash, and what redelivery leaves, Consumer/Rule, Consumer/Counts and Consumer/Shown about what a
--     run keeps, counts and prints. A new consumer group starts at the beginning of the log, as it does
--     with --from-beginning.
--   src/pipeline/streaming_pipeline.py: Pipeline (PipelineConfig, alert_to_kafka_record,
--     invalid_to_kafka_record) and Pipeline/Kafka (the parameters of the graph that build_kafka_pipeline
--     attaches, the options of the command line, main). Pipeline/Config is about the configuration,
--     Pipeline/Parsed about the options and their defaults, Pipeline/Main about what main builds and
--     returns, Pipeline/Handover about an alert on its way from
--     Alerts to Materializer, Pipeline/OneWindow about Dedup, Aggregation and Alerts together, for one
--     customer and one window, Pipeline/Transactions about Dedup and Aggregation chained, for all
--     customers of a window, Pipeline/Records about the same from the records of the input topic on, and
--     Pipeline/Emitted about the alerts that Alerts emits for the aggregates of a window. Pipeline/Alerted
--     chains all of it, from the records of the input topic to the alerts of a window.
--   src/producer/synthetic_producer.py: Producer (build_demo_scenario, publish_scenario) and
--     Producer/Cycles (the checks of the options, the loop of main). Producer/Scenario and
--     Producer/Publish are about the first two, Producer/Millis about milliseconds, Producer/Handed about
--     what is handed over of a demo scenario, which in a dry run is nothing.
--   src/producer/skew_analysis.py: Skew (build_reference_scenarios, partition_for_key,
--     summarize_scenario), Skew/Publishing (_event_for_record and the end of publish_scenarios, from the
--     flush on), Skew/Client (publish_scenarios), Skew/Report (render_report, the types of two options)
--     and Skew/Main (main). Skew/Counts and Skew/Figures are about the figures, Skew/Volume and
--     Skew/HotKey about the two scenarios, Skew/Retries about the loop that tries again, Skew/Due about what
--     is due to be sent, Skew/Waiting about the loops around both, Skew/Simulated about main without a
--     broker.
--   scripts/verify_project.py: Verify, with every check of main. Verify/Digest is about the hash of a file
--     read in blocks, Verify/Checksums about the manifest of the evidence, Verify/Confined about the
--     files that it reads, Verify/Main about what a run that returns 0 has found.
--
-- How the parts meet: Producer builds and encodes events by Contract's functions, Ingestion calls
-- Contract's validator and parser, Dedup and Aggregation read the events that Ingestion lets through,
-- Alerts reads the counts that Aggregation puts out, and Materializer reads what Alerts emits, over
-- Kafka.
--
-- Base holds the types and lemmas that all parts share, over the native numbers and strings: tests,
-- integers (pos n and negsuc n, for n and for -(n + 1)), decimal numerals, white space as str.strip
-- reads it, and dictionaries as association lists. Python holds exceptions and raising calls as values
-- of Result, the values of JSON, and the records of the standard library's codecs.
--
-- Parameters. UTF-8, JSON and ISO 8601 are records of functions (Python/Codec), about which nothing
-- is assumed, but where a snapshot or a published event is read: there the texts read back.
-- json.loads may also fail by an exception that is no JSONDecodeError, and fromisoformat may raise
-- any exception. CRC-32, SHA-256, strftime and the formatting of fractions are functions, about
-- which nothing is assumed either, but that an object of hashlib takes bytes in parts as it takes
-- them together. The file system, subprocess.run and shutil.which are functions too. Beam and Kafka
-- enter by what they call: sequences of events, plans of bundles and merges, CombinePerKey by one plan
-- over its amounts for each key that has some, and no key twice, lists of poll results, a commit that
-- may raise, a producer that may refuse a record or have no room for it, and what its callbacks report.
-- A Beam job answers to its wait and its cancel. SQLite's upsert is written out with the limit of its
-- integers.
--
-- Faithfulness. Python's integers have no bound, so numbers are natural numbers and integers. A
-- datetime is its microseconds since year 1 with its offset; timestamp() and the millisecond texts are
-- taken to be exact, where the code goes through a float; so are the quotients of a skew summary,
-- which are kept as numerator and denominator. A share is what rounding its product gives. A float is
-- known by its text and by its integer value. A dictionary is its fields in order. Strings hold
-- Unicode scalar values, so a lone surrogate, which json.loads can make and UTF-8 cannot encode, does
-- not occur. Messages of exceptions that other libraries word are generic.
--
-- Bounds and fuel. Every function is structural on its data, but for four. The digits of a numeral n are
-- written on n + 1 rounds of fuel, more than it has digits. A file of n bytes is hashed on n + 1 rounds,
-- of which each but the last reads a byte at least. The retries of a record by Skew/Client need one round
-- more than the queue of the client is full in a row, and Producer/Cycles needs one round more than there
-- are cycles; with 0 cycles it runs until it is interrupted. What has not come to an end by then is `none`
-- (Python/Running). The loop of the consumer's main runs over the list of what its polls return, which
-- ends where the process ends, or before the poll that times out.
--
-- Not modelled: the parsing of argument lists by argparse, logging, pauses, what is printed on the way,
-- and the settings of the other Kafka clients, which are input and output or calls of libraries. Of Beam's
-- composition of transforms, the chain from the input topic to the alerts of a window is a function, with
-- the assignment of events to the window, the grouping by key and the pane of each key as parameters; when
-- a window fires, and with which pane, is Beam's.
pub mod Base
pub mod Python
pub mod Contract
pub mod Ingestion
pub mod Dedup
pub mod Aggregation
pub mod Alerts
pub mod Materializer
pub mod Pipeline
pub mod Skew
pub mod Producer
pub mod Verify
mod Tests
