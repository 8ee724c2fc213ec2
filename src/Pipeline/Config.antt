-- ===== src/Pipeline/Config.antt =====
-- The configurations that src/pipeline/streaming_pipeline.py accepts, and the window policy they give.
use streaming_fpuna_proyecto.Base.{
  suc, String, ◌≡◌, refl, ◌↔◌, ◌⊎◌, inl, inr, Bool, not, arith, contains_iff, Bool-cases,
}
use streaming_fpuna_proyecto.Base.Int.{pos}
use streaming_fpuna_proyecto.Base.Text.{is_blank}
use streaming_fpuna_proyecto.Python.{ok, >>-eq-ok}
use streaming_fpuna_proyecto.Python.Value.{Value, null, boolean, text, integer}
use streaming_fpuna_proyecto.Contract.{is_filled_text}
use streaming_fpuna_proyecto.Contract.Spec.{IsFilled, IsOneOf, IsAmount}
use streaming_fpuna_proyecto.Aggregation.{window_velocity_events, default_policy}
use streaming_fpuna_proyecto.Aggregation.Amount.{windowing}
use streaming_fpuna_proyecto.Pipeline.{
  supported_kafka_environment_types, require_non_empty_text, PipelineConfig, check_environment_type,
  check_smoke_mode, check_max_num_records, post_init, window_policy,
}

pub record IsConfig (c : PipelineConfig) : Type 0 where
  pub bootstrap_servers : IsFilled c.bootstrap_servers
  pub input_topic : IsFilled c.input_topic
  pub alert_topic : IsFilled c.alert_topic
  pub invalid_topic : IsFilled c.invalid_topic
  pub consumer_group : IsFilled c.consumer_group
  pub kafka_environment_config : IsFilled c.kafka_environment_config
  pub environment : IsOneOf supported_kafka_environment_types c.kafka_environment_type
  pub smoke_mode : Bool
  pub is_smoke_mode : c.directrunner_smoke_mode ≡ boolean smoke_mode
  pub max_num_records : (c.max_num_records ≡ null) ⊎ IsAmount c.max_num_records

IsFilled-of_ok : (name : String) (v : Value) → require_non_empty_text name v ≡ ok tt → IsFilled v
unfolding require_non_empty_text is_filled_text
IsFilled-of_ok name (text t) h = record {
  content = t;
  is_content = refl;
  filled = elim (Bool-cases (is_blank t)) [ inl e ↦ absurd (ground arith) | inr e ↦ e ];
}
IsFilled-of_ok name v h = cc

require-ok : (name : String) (v : Value) → IsFilled v → require_non_empty_text name v ≡ ok tt
unfolding require_non_empty_text is_filled_text
require-ok name v f = rw (f.is_content, f.filled) refl

IsOneOf-of_ok :
    (v : Value) → check_environment_type v ≡ ok tt → IsOneOf supported_kafka_environment_types v
unfolding check_environment_type
IsOneOf-of_ok (text t) h = record {
  name = t;
  is_name = refl;
  listed = (contains_iff supported_kafka_environment_types t).0 (ground arith);
}
IsOneOf-of_ok v h = cc

environment-ok :
    (v : Value) → IsOneOf supported_kafka_environment_types v → check_environment_type v ≡ ok tt
unfolding check_environment_type
environment-ok v o =
    rw (o.is_name, (contains_iff supported_kafka_environment_types o.name).1 o.listed) refl

flag-of_ok : (v : Value) → check_smoke_mode v ≡ ok tt → (b : Bool) × (v ≡ boolean b)
unfolding check_smoke_mode
flag-of_ok (boolean b) h = (b, refl)
flag-of_ok v h = cc

limit-of_ok : (v : Value) → check_max_num_records v ≡ ok tt → (v ≡ null) ⊎ IsAmount v
unfolding check_max_num_records
limit-of_ok null h = inl refl
limit-of_ok (integer (pos (suc n))) h = inr (record { below = n; is_amount = refl })
limit-of_ok v h = cc

limit-ok : (v : Value) → (v ≡ null) ⊎ IsAmount v → check_max_num_records v ≡ ok tt
unfolding check_max_num_records
limit-ok v (inl e) = rw e refl
limit-ok v (inr a) = rw (a.is_amount) refl

IsConfig-of_ok : (c : PipelineConfig) → post_init c ≡ ok tt → IsConfig c
unfolding post_init
IsConfig-of_ok c h =
    let (servers, h₁) = >>-eq-ok _ h in
    let (input, h₂) = >>-eq-ok _ h₁ in
    let (alert, h₃) = >>-eq-ok _ h₂ in
    let (invalid, h₄) = >>-eq-ok _ h₃ in
    let (group, h₅) = >>-eq-ok _ h₄ in
    let (env_config, h₆) = >>-eq-ok _ h₅ in
    let (environment, h₇) = >>-eq-ok _ h₆ in
    let (smoke, h₈) = >>-eq-ok _ h₇ in
    let (flag, is_flag) = flag-of_ok c.directrunner_smoke_mode smoke in
    record {
      bootstrap_servers = IsFilled-of_ok _ _ servers;
      input_topic = IsFilled-of_ok _ _ input;
      alert_topic = IsFilled-of_ok _ _ alert;
      invalid_topic = IsFilled-of_ok _ _ invalid;
      consumer_group = IsFilled-of_ok _ _ group;
      kafka_environment_config = IsFilled-of_ok _ _ env_config;
      environment = IsOneOf-of_ok _ environment;
      smoke_mode = flag;
      is_smoke_mode = is_flag;
      max_num_records = limit-of_ok _ h₈;
    }

ok_of_IsConfig : (c : PipelineConfig) → IsConfig c → post_init c ≡ ok tt
unfolding post_init check_smoke_mode
ok_of_IsConfig c v = rw (require-ok "bootstrap_servers" _ v.bootstrap_servers) (
    rw (require-ok "input_topic" _ v.input_topic) (
      rw (require-ok "alert_topic" _ v.alert_topic) (
        rw (require-ok "invalid_topic" _ v.invalid_topic) (
          rw (require-ok "consumer_group" _ v.consumer_group) (
            rw (require-ok "kafka_environment_config" _ v.kafka_environment_config) (
              rw (environment-ok _ v.environment)
                (rw (v.is_smoke_mode) (limit-ok _ v.max_num_records))))))))

-- A configuration is accepted exactly when its six texts have more than white space, the environment is
-- one of the three, the smoke mode is a Boolean, and the limit is None or a positive integer.
pub post_init-ok_iff : (c : PipelineConfig) → (post_init c ≡ ok tt) ↔ IsConfig c
post_init-ok_iff c = (IsConfig-of_ok c, ok_of_IsConfig c)

-- The window policy of a configuration that is accepted is accepted too. It is the default one, whose
-- early firings by processing time are on exactly if the smoke mode is off.
pub window_policy-ok :
    (c : PipelineConfig) (v : IsConfig c)
    → window_velocity_events (window_policy c) ≡ ok (windowing default_policy (not v.smoke_mode))
unfolding window_velocity_events window_policy
window_policy-ok c v =
    rw (v.is_smoke_mode) (elim (Bool-cases v.smoke_mode) [ inl e ↦ rw e refl | inr e ↦ rw e refl ])
