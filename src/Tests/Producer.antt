-- ===== src/Tests/Producer.antt =====
-- The demo scenario of src/producer/synthetic_producer.py at the first instant of 2026.
use streaming_fpuna_proyecto.Base.{
  ℕ, zero, suc, ◌*◌, true, false, arith, Option, none, ◌≡◌, refl, ◌↔◌, some, List, [], ◌∷◌,
  String-discrete, contains,
}
use streaming_fpuna_proyecto.Base.Text.{is_blank, ends_with_z, drop_last, replace_utc}
use streaming_fpuna_proyecto.Python.{exit_status, ok, throw}
use streaming_fpuna_proyecto.Python.Value.{Fields, get}
use streaming_fpuna_proyecto.Contract.{
  format_event_time, parse_event_time, parse_event_text, aware_to_utc, astimezone_utc,
  event_time_errors, is_filled_text, id_errors, amount_errors, membership_errors, payload_errors,
  section_errors, event_errors, validate_transaction_event,
}
use streaming_fpuna_proyecto.Contract.Events.{build_transaction_event, raise_errors, draft_event}
use streaming_fpuna_proyecto.Producer.{
  ScenarioEvent, EventPlan, plan_draft, velocity_plan, normal_plan, base_instant, later, make_event,
  demo_events, build_demo_scenario, Broker, publish_scenario,
}
use streaming_fpuna_proyecto.Producer.Scenario.{
  demo_rows, IsBase, AreMade, build_demo_scenario-AreMade,
}
use streaming_fpuna_proyecto.Producer.Cycles.{
  Options, check_args, run_cycles, HasCycles, CycleRaises, run_cycles-Ends,
}
use streaming_fpuna_proyecto.Python.Running.{Ends}
use streaming_fpuna_proyecto.Base.Int.{pos}
use streaming_fpuna_proyecto.Producer.Publish.{
  Publishable, items, all_due, AreTimed, Takes, publish-ok_iff,
}
use streaming_fpuna_proyecto.Tests.Samples.{new_year, utc_new_year, utf8, json, iso, event}
use streaming_fpuna_proyecto.Tests.Contract.{event-IsTransaction}

abbrev made : EventPlan → Fields
made p = draft_event (plan_draft p "T" utc_new_year) "2026-01-01T00:00:00.000Z"

abbrev scenario : List ScenarioEvent
scenario =
    record { label = "normal"; event = made normal_plan }
    ∷ record {
      label = "velocity-1";
      event = made (velocity_plan "velocity-001" 0 2_500_000 "mobile");
    }
    ∷ record {
      label = "velocity-2";
      event = made (velocity_plan "velocity-002" 20 2_500_000 "mobile");
    }
    ∷ record {
      label = "out-of-order-newer-first";
      event = made (velocity_plan "velocity-004" 50 2_500_000 "api");
    }
    ∷ record {
      label = "out-of-order-older-after";
      event = made (velocity_plan "velocity-003" 40 2_500_000 "atm");
    }
    ∷ record {
      label = "intentional-duplicate";
      event = made (velocity_plan "velocity-002" 20 2_500_000 "mobile");
    }
    ∷ record {
      label = "advance-event-time";
      event = made (velocity_plan "velocity-005" 120 100_000 "branch");
    }
    ∷ record {
      label = "late-candidate";
      event = made (velocity_plan "velocity-late-001" 10 500_000 "api");
    }
    ∷ []

scenario_built : build_demo_scenario iso (λ instant. "T") utc_new_year ≡ ok scenario
unfolding build_demo_scenario base_instant later make_event demo_events build_transaction_event
    raise_errors format_event_time validate_transaction_event event_errors get is_blank contains
    String-discrete parse_event_time parse_event_text aware_to_utc astimezone_utc event_time_errors
    is_filled_text id_errors amount_errors membership_errors payload_errors section_errors
    ends_with_z drop_last replace_utc
scenario_built = refl

build_demo_scenario-AreMade_example :
    (base : ℕ) × IsBase utc_new_year base × AreMade iso base "T" demo_rows scenario
build_demo_scenario-AreMade_example =
    build_demo_scenario-AreMade iso (λ instant. "T") utc_new_year scenario scenario_built

abbrev broker : Broker utf8
broker = record { produce = λ sent. ok tt; delivery_errors = []; remaining = 0 }

abbrev publishable : Publishable utf8 json iso
publishable = record {
  item = record { label = "normal"; event = event };
  transaction = event-IsTransaction;
}

abbrev to_publish : List (Publishable utf8 json iso)
to_publish = publishable ∷ []

publish-ok_iff_example :
    (publish_scenario utf8 json iso (some broker) (items utf8 json iso to_publish)
      ≡ ok (all_due utf8 json iso to_publish))
    ↔ ((all_due utf8 json iso to_publish ≡ all_due utf8 json iso to_publish)
        × AreTimed utf8 json iso to_publish (all_due utf8 json iso to_publish)
        × Takes utf8 json iso broker (all_due utf8 json iso to_publish)
        × (broker.delivery_errors ≡ [])
        × (broker.remaining ≡ 0))
publish-ok_iff_example =
    publish-ok_iff utf8 json iso broker to_publish (all_due utf8 json iso to_publish)

abbrev options : Options
options = record {
  base_time = none;
  interval_negative = false;
  cycles = pos 2;
  spacing = record { not_positive = false; times = λ n. ok (n * 180_000_000) };
}

-- a dry run of the first cycle, then the broker
abbrev producer : ℕ → Option (Broker utf8)
producer zero = none
producer (suc done) = some broker

run_cycles-Ends_example :
    Ends
      (HasCycles utf8 json iso (λ instant. "T") producer options.spacing new_year 2 0)
      (CycleRaises utf8 json iso (λ instant. "T") producer options.spacing new_year)
      (run_cycles utf8 json iso (λ instant. "T") producer 3 options new_year 0)
run_cycles-Ends_example =
    run_cycles-Ends utf8 json iso (λ instant. "T") producer options new_year 1 3 0 refl
      (omega arith) (omega arith)

no_spacing_refused :
    check_args (record options { spacing = record { not_positive = true; times = λ n. ok 0 } })
    ≡ throw (exit_status (pos 2)) "--cycle-spacing-seconds must be positive"
unfolding check_args
no_spacing_refused = refl
