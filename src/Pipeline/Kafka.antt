-- ===== src/Pipeline/Kafka.antt =====
-- The graph that src/pipeline/streaming_pipeline.py builds between Kafka's topics, its command line and
-- `main`.
use Prim.Native.String.{◌++◌ as ◌<>◌}
use streaming_fpuna_proyecto.Base.{
  ℕ, String, Bool, true, not, Option, none, some, List, [], ◌∷◌, contains, if◌then◌else◌,
}
use streaming_fpuna_proyecto.Base.Int.{ℤ, pos}
use streaming_fpuna_proyecto.Python.{
  is_interrupt, exit_status, Exception, Result, ok, raise, throw, raise_if, ◌>>=◌, ◌>>◌,
}
use streaming_fpuna_proyecto.Python.Value.{Value, null, boolean, integer, text, Fields, end, field}
use streaming_fpuna_proyecto.Dedup
use streaming_fpuna_proyecto.Aggregation.{Windowing, window_velocity_events}
use streaming_fpuna_proyecto.Alerts
use streaming_fpuna_proyecto.Alerts.{Rule, transaction_count_threshold, total_amount_threshold}
use streaming_fpuna_proyecto.Pipeline.{
  PipelineConfig, supported_kafka_environment_types, post_init, window_policy,
}

-- `ReadFromKafka(...)` and `WriteToKafka(...)`, without the expansion service
pub record Source : Type 0 where
  pub consumer_config : Fields
  pub topics : List Value
  pub max_num_records : Value
  pub commit_offset_in_finalize : Bool
  pub timestamp_policy : String

pub record Sink : Type 0 where
  pub producer_config : Fields
  pub topic : Value

-- what `build_kafka_pipeline` attaches to a pipeline: the parameters of its transforms
pub record Graph : Type 0 where
  pub append_args : List String
  pub transactions : Source
  pub windowing : Windowing
  pub allowed_lateness_seconds : ℤ
  pub rule : Rule
  pub alerts : Sink
  pub invalid : Sink

-- a field that is a text after `post_init`, in an f-string
abbrev shown : Value → String
shown (text s) = s
shown _ = ""

abbrev pub consumer_config : PipelineConfig → Fields
consumer_config c = field "bootstrap.servers" c.bootstrap_servers (
    field "group.id" c.consumer_group (
      field "auto.offset.reset" (text "earliest") (
        field "enable.auto.commit" (text "false")
          (field "allow.auto.create.topics" (text "false") end))))

abbrev pub producer_config : PipelineConfig → Fields
producer_config c = field "bootstrap.servers" c.bootstrap_servers (
    field "acks" (text "all") (
      field "enable.idempotence" (text "true")
        (field "max.in.flight.requests.per.connection" (text "5") end)))

-- the graph around the parameters that the transforms check
abbrev pub graph : PipelineConfig → Windowing → ℤ → Rule → Graph
graph c w lateness rule = record {
  append_args =
      ("--defaultEnvironmentType=" <> shown c.kafka_environment_type)
      ∷ ("--defaultEnvironmentConfig=" <> shown c.kafka_environment_config)
      ∷ [];
  transactions = record {
    consumer_config = consumer_config c;
    topics = c.input_topic ∷ [];
    max_num_records = c.max_num_records;
    commit_offset_in_finalize = true;
    timestamp_policy = "ProcessingTime";
  };
  windowing = w;
  allowed_lateness_seconds = lateness;
  rule = rule;
  alerts = record { producer_config = producer_config c; topic = c.alert_topic };
  invalid = record { producer_config = producer_config c; topic = c.invalid_topic };
}

-- The constructors of the three transforms check their arguments.
unfoldable pub build_kafka_pipeline : PipelineConfig → Result Graph
build_kafka_pipeline c = do
  w ← window_velocity_events (window_policy c)
  lateness ← Dedup.init (pos 30)
  rule ← Alerts.init transaction_count_threshold total_amount_threshold
  ok (graph c w lateness rule)

-- the command line: the options that are given, and what is left for Beam's runner
pub record CommandLine : Type 0 where
  pub bootstrap_servers : Option String
  pub input_topic : Option String
  pub alert_topic : Option String
  pub invalid_topic : Option String
  pub consumer_group : Option String
  -- `none` within, where `int` does not read the text
  pub max_num_records : Option (Option ℤ)
  pub kafka_environment_type : Option String
  pub kafka_environment_config : Option String
  pub directrunner_smoke_mode : Bool
  pub beam_args : List String

-- an option with its default
abbrev pub or_default : Option String → String → Value
or_default none d = text d
or_default (some given) d = text given

-- `type=int`
unfoldable pub int_option : Option (Option ℤ) → Result Value
int_option none = ok null
int_option (some none) = throw (exit_status (pos 2)) "invalid int value"
int_option (some (some n)) = ok (integer n)

-- `choices=...`, which `argparse` does not look up for the default
unfoldable pub choice_option : Option String → Result Value
choice_option none = ok (text "PROCESS")
choice_option (some given) = do
  raise_if (not (contains supported_kafka_environment_types given)) (exit_status (pos 2))
      "invalid choice"
  ok (text given)

-- `parse_args`, and the fields that `main` passes on to `PipelineConfig`
unfoldable pub parse_args : CommandLine → Result PipelineConfig
parse_args argv = do
  max_num_records ← int_option argv.max_num_records
  kafka_environment_type ← choice_option argv.kafka_environment_type
  ok (record {
    bootstrap_servers = or_default argv.bootstrap_servers "localhost:9092";
    input_topic = or_default argv.input_topic "bank.transactions.raw";
    alert_topic = or_default argv.alert_topic "risk.alerts.velocity";
    invalid_topic = or_default argv.invalid_topic "bank.transactions.invalid";
    consumer_group = or_default argv.consumer_group "velocity-beam-v1";
    max_num_records = max_num_records;
    kafka_environment_type = kafka_environment_type;
    kafka_environment_config =
        or_default argv.kafka_environment_config "{\"command\":\"/opt/apache/beam/boot\"}";
    directrunner_smoke_mode = boolean argv.directrunner_smoke_mode;
  })

-- the options of the pipeline that `main` sets
pub record Options : Type 0 where
  pub beam_args : List String
  pub streaming : Bool
  pub save_main_session : Bool

-- Beam: the pipeline for some options, the job that its run starts, and the two calls on the job
pub record Beam : Type 1 where
  pub Job : Type 0
  pub pipeline : Options → Result (Unit {0})
  pub run : Options → Graph → Result Job
  pub wait_until_finish : Job → Result (Unit {0})
  pub cancel : Job → Result (Unit {0})

module _ (beam : Beam) where
  -- `except KeyboardInterrupt`
  unfoldable pub interrupted : beam.Job → Exception → Result ℕ
  interrupted job e = if is_interrupt e.class then (do beam.cancel job; ok 130) else raise e

  -- from the `try` on
  unfoldable pub finish : beam.Job → Result ℕ
  finish job = elim (beam.wait_until_finish job) [ ok done ↦ ok 0 | raise e ↦ interrupted job e ]

  abbrev pub options_of : CommandLine → Options
  options_of argv = record {
    beam_args = argv.beam_args;
    streaming = true;
    save_main_session = true;
  }

  unfoldable pub main : CommandLine → Result ℕ
  main argv = do
    config ← parse_args argv
    post_init config
    beam.pipeline (options_of argv)
    built ← build_kafka_pipeline config
    job ← beam.run (options_of argv) built
    finish job
