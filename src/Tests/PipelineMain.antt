-- ===== src/Tests/PipelineMain.antt =====
-- `main` of src/pipeline/streaming_pipeline.py without options: to the end, and interrupted.
use streaming_fpuna_proyecto.Base.{
  ◌≡◌, refl, ◌↔◌, none, some, false, [], ◌∷◌, contains, String-discrete,
}
use streaming_fpuna_proyecto.Base.Int.{pos}
use streaming_fpuna_proyecto.Base.Text.{is_blank}
use streaming_fpuna_proyecto.Python.{
  value_error, keyboard_interrupt, exit_status, Result, ok, throw,
}
use streaming_fpuna_proyecto.Contract.{is_filled_text}
use streaming_fpuna_proyecto.Dedup
use streaming_fpuna_proyecto.Aggregation.{window_velocity_events}
use streaming_fpuna_proyecto.Alerts
use streaming_fpuna_proyecto.Pipeline.{
  require_non_empty_text, check_environment_type, check_smoke_mode, check_max_num_records,
  post_init, window_policy,
}
use streaming_fpuna_proyecto.Pipeline.Kafka.{
  CommandLine, int_option, choice_option, parse_args, Beam, build_kafka_pipeline, interrupted,
  finish, main,
}
use streaming_fpuna_proyecto.Pipeline.Main.{IsRun, main-returns_iff}

abbrev no_options : CommandLine
no_options = record {
  bootstrap_servers = none;
  input_topic = none;
  alert_topic = none;
  invalid_topic = none;
  consumer_group = none;
  max_num_records = none;
  kafka_environment_type = none;
  kafka_environment_config = none;
  directrunner_smoke_mode = false;
  beam_args = "--runner=DirectRunner" ∷ [];
}

-- a runner whose jobs end as they are told
abbrev beam_that : Result (Unit {0}) → Beam
beam_that ends = record {
  Job = Unit;
  pipeline = λ options. ok tt;
  run = λ options graph. ok tt;
  wait_until_finish = λ job. ends;
  cancel = λ job. ok tt;
}

abbrev patient : Beam
patient = beam_that (ok tt)

abbrev interrupting : Beam
interrupting = beam_that (throw keyboard_interrupt "")

main_to_the_end : main patient no_options ≡ ok 0
unfolding main parse_args int_option choice_option post_init require_non_empty_text
    check_environment_type check_smoke_mode check_max_num_records is_filled_text is_blank contains
    String-discrete build_kafka_pipeline window_velocity_events window_policy Dedup.init Alerts.init
    finish interrupted
main_to_the_end = refl

main_interrupted : main interrupting no_options ≡ ok 130
unfolding main parse_args int_option choice_option post_init require_non_empty_text
    check_environment_type check_smoke_mode check_max_num_records is_filled_text is_blank contains
    String-discrete build_kafka_pipeline window_velocity_events window_policy Dedup.init Alerts.init
    finish interrupted
main_interrupted = refl

-- a limit that is no number, and one that `PipelineConfig` refuses
main_refused :
    (main patient (record no_options { max_num_records = some none })
      ≡ throw (exit_status (pos 2)) "invalid int value")
    × (main patient (record no_options { max_num_records = some (some (pos 0)) })
        ≡ throw value_error "max_num_records must be a positive integer")
unfolding main parse_args int_option choice_option post_init require_non_empty_text
    check_environment_type check_smoke_mode check_max_num_records is_filled_text is_blank contains
    String-discrete
main_refused = (refl, refl)

main-returns_iff_example :
    (main interrupting no_options ≡ ok 130) ↔ IsRun interrupting no_options 130
main-returns_iff_example = main-returns_iff interrupting no_options 130
