-- ===== src/Pipeline/Main.antt =====
-- What `main` of src/pipeline/streaming_pipeline.py builds, runs and returns.
use Prim.Native.String.{◌++◌ as ◌<>◌}
use streaming_fpuna_proyecto.Base.{
  if◌then◌else◌, none, some, [], ◌∷◌, ℕ, ◌≡◌, refl, sym, ap, ◌∙◌, ◌↔◌, ◌⊎◌, inl, inr, true,
  Bool-cases,
}
use streaming_fpuna_proyecto.Base.Int.{pos}
use streaming_fpuna_proyecto.Python.{
  is_interrupt, ExceptionClass, keyboard_interrupt, Exception, ok, raise, >>=-eq-ok, >>-eq-ok,
  ok-injective, Result-cases,
}
use streaming_fpuna_proyecto.Dedup
use streaming_fpuna_proyecto.Aggregation.{after_watermark}
use streaming_fpuna_proyecto.Alerts
use streaming_fpuna_proyecto.Python.Value.{text, Fields, end, field}
use streaming_fpuna_proyecto.Pipeline.Parsed.{IsParsed, parse_args-ok_iff}
use streaming_fpuna_proyecto.Pipeline.{PipelineConfig, post_init}
use streaming_fpuna_proyecto.Pipeline.Config.{IsConfig, post_init-ok_iff, window_policy-ok}
use streaming_fpuna_proyecto.Pipeline.Kafka.{
  Graph, build_kafka_pipeline, CommandLine, Options, parse_args, Beam, options_of, interrupted,
  finish, main,
}

-- the settings of the producers of alerts and of invalid records
abbrev pub written_by : PipelineConfig → Fields
written_by c = field "bootstrap.servers" c.bootstrap_servers (
    field "acks" (text "all") (
      field "enable.idempotence" (text "true")
        (field "max.in.flight.requests.per.connection" (text "5") end)))

-- the graph of an accepted configuration: what it reads and writes, the window policy with early firings
-- but in the smoke mode, and the thresholds
abbrev pub graph_of : (c : PipelineConfig) → IsConfig c → Graph
graph_of c v = record {
  append_args =
      ("--defaultEnvironmentType=" <> v.environment.name)
      ∷ ("--defaultEnvironmentConfig=" <> v.kafka_environment_config.content)
      ∷ [];
  transactions = record {
    consumer_config = field "bootstrap.servers" c.bootstrap_servers (
        field "group.id" c.consumer_group (
          field "auto.offset.reset" (text "earliest") (
            field "enable.auto.commit" (text "false")
              (field "allow.auto.create.topics" (text "false") end))));
    topics = c.input_topic ∷ [];
    max_num_records = c.max_num_records;
    commit_offset_in_finalize = true;
    timestamp_policy = "ProcessingTime";
  };
  windowing = record {
    size = pos 60;
    period = pos 10;
    trigger = if v.smoke_mode then after_watermark none 1 else after_watermark (some (pos 10)) 1;
    allowed_lateness = pos 30;
  };
  allowed_lateness_seconds = pos 30;
  rule = record { count_threshold = pos 4; amount_threshold = pos 10_000_000 };
  alerts = record { producer_config = written_by c; topic = c.alert_topic };
  invalid = record { producer_config = written_by c; topic = c.invalid_topic };
}

build-ok : (c : PipelineConfig) (v : IsConfig c) → build_kafka_pipeline c ≡ ok (graph_of c v)
unfolding build_kafka_pipeline Dedup.init Alerts.init
build-ok c v = rw (window_policy-ok c v) (
    rw (v.environment.is_name, v.kafka_environment_config.is_content)
      (elim (Bool-cases v.smoke_mode) [ inl e ↦ rw e refl | inr e ↦ rw e refl ]))

-- the options that Beam is given
abbrev pub streaming_options : CommandLine → Options
streaming_options argv = record {
  beam_args = argv.beam_args;
  streaming = true;
  save_main_session = true;
}

is_interrupt-eq : (c : ExceptionClass) → is_interrupt c ≡ true → c ≡ keyboard_interrupt
is_interrupt-eq keyboard_interrupt h = refl
is_interrupt-eq c h = cc

module _ (beam : Beam) where
  -- how a job ends for an exit status
  abbrev pub EndsWith : beam.Job → ℕ → Type 0
  EndsWith job code =
      ((beam.wait_until_finish job ≡ ok tt) × (code ≡ 0))
      ⊎ ((e : Exception) × (beam.wait_until_finish job ≡ raise e)
          × (e.class ≡ keyboard_interrupt)
          × (beam.cancel job ≡ ok tt)
          × (code ≡ 130))

  interrupted-ok :
      (job : beam.Job) (e : Exception) (code : ℕ)
      → interrupted beam job e ≡ ok code
      → (e.class ≡ keyboard_interrupt) × (beam.cancel job ≡ ok tt) × (code ≡ 130)
  unfolding interrupted
  interrupted-ok job e code h = elim (Bool-cases (is_interrupt e.class)) [
    | inl i ↦
        let (cancelled, last) = >>-eq-ok (beam.cancel job) (rw i at h) in
        (is_interrupt-eq e.class i, cancelled, sym (ok-injective last))
    | inr other ↦ let never : raise e ≡ ok code = rw other at h in cc
  ]

  EndsWith-of_ok : (job : beam.Job) (code : ℕ) → finish beam job ≡ ok code → EndsWith job code
  unfolding finish
  EndsWith-of_ok job code h = elim (Result-cases (beam.wait_until_finish job)) [
    | inl (e, failed) ↦
        let (i, cancelled, last) = interrupted-ok job e code (rw (failed, finish) at h) in
        inr (e, failed, i, cancelled, last)
    | inr (done, ended) ↦
        let last : ok 0 ≡ ok code = rw (ended, finish) at h in inl (ended, sym (ok-injective last))
  ]

  ok_of_EndsWith : (job : beam.Job) (code : ℕ) → EndsWith job code → finish beam job ≡ ok code
  unfolding finish interrupted
  ok_of_EndsWith job code (inl (ended, last)) = rw (ended, last, finish) refl
  ok_of_EndsWith job code (inr (e, failed, i, cancelled, last)) =
      rw (failed, finish) (rw (i, cancelled, last) refl)

  -- a run that returns
  pub record IsRun (argv : CommandLine) (code : ℕ) : Type 0 where
    pub config : PipelineConfig
    pub parsed : IsParsed argv config
    pub accepted : IsConfig config
    pub ready : beam.pipeline (streaming_options argv) ≡ ok tt
    pub job : beam.Job
    pub started : beam.run (streaming_options argv) (graph_of config accepted) ≡ ok job
    pub ends : EndsWith job code

  IsRun-of_ok : (argv : CommandLine) (code : ℕ) → main beam argv ≡ ok code → IsRun argv code
  unfolding main
  IsRun-of_ok argv code h =
      let (config, parsed, h₁) = >>=-eq-ok (parse_args argv) h in
      let (valid, h₂) = >>-eq-ok (post_init config) h₁ in
      let (ready, h₃) = >>-eq-ok (beam.pipeline (options_of beam argv)) h₂ in
      let (built, is_built, h₄) = >>=-eq-ok (build_kafka_pipeline config) h₃ in
      let (job, started, h₅) = >>=-eq-ok (beam.run (options_of beam argv) built) h₄ in
      let accepted = (post_init-ok_iff config).0 valid in
      let same : built ≡ graph_of config accepted =
        ok-injective (sym is_built ∙ build-ok config accepted) in
      record {
        config = config;
        parsed = (parse_args-ok_iff argv config).0 parsed;
        accepted = accepted;
        ready = ready;
        job = job;
        started = ap (beam.run (options_of beam argv)) (sym same) ∙ started;
        ends = EndsWith-of_ok job code h₅;
      }

  ok_of_IsRun : (argv : CommandLine) (code : ℕ) → IsRun argv code → main beam argv ≡ ok code
  unfolding main
  ok_of_IsRun argv code r = rw ((parse_args-ok_iff argv r.config).1 r.parsed) (
      rw ((post_init-ok_iff r.config).1 r.accepted) (
        rw (r.ready)
          (rw (build-ok r.config r.accepted) (rw (r.started) (ok_of_EndsWith r.job code r.ends)))))

  -- `main` returns exactly when the options are read, with the default of each that is not given, their
  -- configuration is accepted, Beam takes the options, starts the job for the graph of the configuration,
  -- and the job ends: with status 0 if the wait returns, and with status 130 if it is interrupted from the
  -- keyboard and the job is cancelled. The graph reads the input topic and writes the alert topic and the
  -- topic of invalid records; it has windows of 60 seconds every 10, a lateness of 30, early firings every
  -- 10 seconds unless the smoke mode is on, and the thresholds 4 and 10,000,000.
  pub main-returns_iff :
      (argv : CommandLine) (code : ℕ) → (main beam argv ≡ ok code) ↔ IsRun argv code
  main-returns_iff argv code = (IsRun-of_ok argv code, ok_of_IsRun argv code)
