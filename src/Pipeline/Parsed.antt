-- ===== src/Pipeline/Parsed.antt =====
-- What the options of src/pipeline/streaming_pipeline.py come to, apart from the code that reads them.
use mathlib.Core.List.{Mem}
use streaming_fpuna_proyecto.Base.{
  String, ◌≡◌, refl, sym, ap, ◌∙◌, ◌↔◌, ◌⊎◌, inl, inr, not, Option, none, some, [], ◌∷◌, contains,
  contains_iff, true_of_not-false,
}
use streaming_fpuna_proyecto.Base.Int.{ℤ, pos}
use streaming_fpuna_proyecto.Python.{
  exit_status, ok, raise_if, raise_if-ok, >>=-eq-ok, >>-eq-ok, ok-injective,
}
use streaming_fpuna_proyecto.Python.Value.{Value, null, boolean, integer, text}
use streaming_fpuna_proyecto.Pipeline.{PipelineConfig, supported_kafka_environment_types}
use streaming_fpuna_proyecto.Pipeline.Kafka.{
  CommandLine, int_option, choice_option, or_default, parse_args,
}

-- the text that is given, or else the default
abbrev pub given_or : String → Option String → Value
given_or default none = text default
given_or default (some given) = text given

abbrev pub IsLimit : Option (Option ℤ) → Value → Type 0
IsLimit given limit =
    ((given ≡ none) × (limit ≡ null)) ⊎ ((n : ℤ) × (given ≡ some (some n)) × (limit ≡ integer n))

abbrev pub IsEnvironment : Option String → String → Type 0
IsEnvironment given environment =
    ((given ≡ none) × (environment ≡ "PROCESS"))
    ⊎ ((given ≡ some environment) × Mem environment ("DOCKER" ∷ "EXTERNAL" ∷ "PROCESS" ∷ []))

-- the configuration that a command line asks for
pub record IsParsed (argv : CommandLine) (config : PipelineConfig) : Type 0 where
  pub limit : Value
  pub is_limit : IsLimit argv.max_num_records limit
  pub environment : String
  pub is_environment : IsEnvironment argv.kafka_environment_type environment
  pub is_config : config ≡ record {
    bootstrap_servers = given_or "localhost:9092" argv.bootstrap_servers;
    input_topic = given_or "bank.transactions.raw" argv.input_topic;
    alert_topic = given_or "risk.alerts.velocity" argv.alert_topic;
    invalid_topic = given_or "bank.transactions.invalid" argv.invalid_topic;
    consumer_group = given_or "velocity-beam-v1" argv.consumer_group;
    max_num_records = limit;
    kafka_environment_type = text environment;
    kafka_environment_config =
        given_or "{\"command\":\"/opt/apache/beam/boot\"}" argv.kafka_environment_config;
    directrunner_smoke_mode = boolean argv.directrunner_smoke_mode;
  }

IsLimit-of_ok : (given : Option (Option ℤ)) (v : Value) → int_option given ≡ ok v → IsLimit given v
unfolding int_option
IsLimit-of_ok none v h = inl (refl, sym (ok-injective h))
IsLimit-of_ok (some none) v h = cc
IsLimit-of_ok (some (some n)) v h = inr (n, refl, sym (ok-injective h))

ok_of_IsLimit : (given : Option (Option ℤ)) (v : Value) → IsLimit given v → int_option given ≡ ok v
unfolding int_option
ok_of_IsLimit given v (inl (e, is_null)) = rw (e, is_null) refl
ok_of_IsLimit given v (inr (n, e, is_n)) = rw (e, is_n) refl

IsEnvironment-of_ok :
    (given : Option String) (v : Value)
    → choice_option given ≡ ok v
    → (environment : String) × IsEnvironment given environment × (v ≡ text environment)
unfolding choice_option
IsEnvironment-of_ok none v h = ("PROCESS", inl (refl, refl), sym (ok-injective h))
IsEnvironment-of_ok (some s) v h =
    let (allowed, last) =
      >>-eq-ok
        (raise_if (not (contains supported_kafka_environment_types s)) (exit_status (pos 2))
          "invalid choice")
        h in
    let listed = true_of_not-false _ (raise_if-ok _ _ _ allowed) in
    (
      s,
      inr (refl, (contains_iff supported_kafka_environment_types s).0 listed),
      sym (ok-injective last),
    )

ok_of_IsEnvironment :
    (given : Option String) (environment : String)
    → IsEnvironment given environment
    → choice_option given ≡ ok (text environment)
unfolding choice_option
ok_of_IsEnvironment given environment (inl (e, is_default)) = rw (e, is_default) refl
ok_of_IsEnvironment given environment (inr (e, listed)) =
    rw e (rw ((contains_iff supported_kafka_environment_types environment).1 listed) refl)

given_or-eq : (given : Option String) (d : String) → or_default given d ≡ given_or d given
given_or-eq none d = refl
given_or-eq (some s) d = refl

module _ (argv : CommandLine) where
  abbrev expected : Value → Value → PipelineConfig
  expected limit environment = record {
    bootstrap_servers = given_or "localhost:9092" argv.bootstrap_servers;
    input_topic = given_or "bank.transactions.raw" argv.input_topic;
    alert_topic = given_or "risk.alerts.velocity" argv.alert_topic;
    invalid_topic = given_or "bank.transactions.invalid" argv.invalid_topic;
    consumer_group = given_or "velocity-beam-v1" argv.consumer_group;
    max_num_records = limit;
    kafka_environment_type = environment;
    kafka_environment_config =
        given_or "{\"command\":\"/opt/apache/beam/boot\"}" argv.kafka_environment_config;
    directrunner_smoke_mode = boolean argv.directrunner_smoke_mode;
  }

  parse_args-eq :
      (limit environment : Value)
      → int_option argv.max_num_records ≡ ok limit
      → choice_option argv.kafka_environment_type ≡ ok environment
      → parse_args argv ≡ ok (expected limit environment)
  unfolding parse_args
  parse_args-eq limit environment l e =
      rw (l, e)
        (rw
          (
            given_or-eq argv.bootstrap_servers "localhost:9092",
            given_or-eq argv.input_topic "bank.transactions.raw",
            given_or-eq argv.alert_topic "risk.alerts.velocity",
            given_or-eq argv.invalid_topic "bank.transactions.invalid",
            given_or-eq argv.consumer_group "velocity-beam-v1",
            given_or-eq argv.kafka_environment_config "{\"command\":\"/opt/apache/beam/boot\"}",
          )
          refl)

  IsParsed-of_ok : (config : PipelineConfig) → parse_args argv ≡ ok config → IsParsed argv config
  unfolding parse_args
  IsParsed-of_ok config h =
      let (limit, l, h₁) = >>=-eq-ok (int_option argv.max_num_records) h in
      let (environment, e, h₂) = >>=-eq-ok (choice_option argv.kafka_environment_type) h₁ in
      let (name, is_environment, is_text) =
        IsEnvironment-of_ok argv.kafka_environment_type environment e in
      record {
        limit = limit;
        is_limit = IsLimit-of_ok argv.max_num_records limit l;
        environment = name;
        is_environment = is_environment;
        is_config =
            ok-injective (sym h ∙ parse_args-eq limit environment l e)
            ∙ ap (expected limit) is_text;
      }

  ok_of_IsParsed : (config : PipelineConfig) → IsParsed argv config → parse_args argv ≡ ok config
  ok_of_IsParsed config p =
      parse_args-eq p.limit (text p.environment)
        (ok_of_IsLimit argv.max_num_records p.limit p.is_limit)
        (ok_of_IsEnvironment argv.kafka_environment_type p.environment p.is_environment)
      ∙ ap ok (sym p.is_config)

pub parse_args-ok_iff :
    (argv : CommandLine) (config : PipelineConfig)
    → (parse_args argv ≡ ok config) ↔ IsParsed argv config
parse_args-ok_iff argv config = (IsParsed-of_ok argv config, ok_of_IsParsed argv config)
