-- ===== src/Skew/Main.antt =====
-- src/producer/skew_analysis.py: `main`, from the options to the report.
use streaming_fpuna_proyecto.Base.{
  ℕ, String, Bool, Option, none, some, List, [], ◌∷◌, if◌then◌else◌,
}
use streaming_fpuna_proyecto.Base.Int.{ℤ}
use streaming_fpuna_proyecto.Base.Dict
use streaming_fpuna_proyecto.Base.Dict.{Dict}
use streaming_fpuna_proyecto.Python.{value_error, key_error, Result, ok, throw, ◌>>=◌}
use streaming_fpuna_proyecto.Python.Running.{and_then}
use streaming_fpuna_proyecto.Python.Codec.{DateTime, Utf8, Json, Iso8601}
use streaming_fpuna_proyecto.Contract.{astimezone_utc}
use streaming_fpuna_proyecto.Skew.{
  SkewScenario, ScenarioSummary, Share, build_reference_scenarios, summarize_scenario,
}
use streaming_fpuna_proyecto.Skew.Client.{Client, replace_z, publish_scenarios}
use streaming_fpuna_proyecto.Skew.Report.{Formats, positive_int, hot_key_share, render_report}

-- what `parse_args` returns: `publishes` is `mode == "publish"`
pub record Options : Type 0 where
  pub publishes : Bool
  pub partitions : ℤ
  pub events : ℤ
  pub share : Share
  pub share_text : String
  pub base_time : String

-- `parse_args`, of what `int` and `float` make of the texts
unfoldable pub parse_args :
    Bool → Result ℤ → Result ℤ → Result Share → String → String → Result Options
parse_args publishes partitions_read events_read share_read share_text base_time = do
  partitions ← positive_int partitions_read
  events ← positive_int events_read
  share ← hot_key_share share_read
  ok (record {
    publishes = publishes;
    partitions = partitions;
    events = events;
    share = share;
    share_text = share_text;
    base_time = base_time;
  })

abbrev pub mode_of : Options → String
mode_of args = if args.publishes then "publish" else "simulate"

-- the test of the offset, and the conversion to UTC
abbrev pub aware_base : DateTime → Result ℕ
aware_base base_time = elim base_time.utcoffset [
  | none ↦ throw value_error "--base-time must include timezone information"
  | some offset ↦ astimezone_utc base_time.local offset
]

-- `None if observed is None else observed[scenario.name]`
abbrev pub observed_of : Option (Dict (List ℤ)) → String → Result (Option (List ℤ))
observed_of none name = ok none
observed_of (some observed) name = elim (Dict.lookup name observed) [
  | none ↦ throw key_error name
  | some partitions ↦ ok (some partitions)
]

module _ (utf8 : Utf8) (crc32 : utf8.Bytes → ℕ) (json : Json) (iso : Iso8601) (zone : ℕ → ℤ) where
  -- the branch of `main` for the mode, on the fuel of the loop that publishes
  unfoldable pub observe :
      Client utf8 → ℕ → Options → List SkewScenario → Option (Result (Option (Dict (List ℤ))))
  observe client fuel args scenarios =
      if args.publishes
      then (and_then (some (iso.fromisoformat (replace_z args.base_time) >>= aware_base)) λ base.
          and_then (publish_scenarios utf8 json iso zone client fuel base scenarios)
            λ observed. some (ok (some observed)))
      else some (ok none)

  unfoldable pub summarize :
      Options → Option (Dict (List ℤ)) → SkewScenario → Result ScenarioSummary
  summarize args observed scenario = do
    observed_partitions ← observed_of observed scenario.name
    summarize_scenario utf8 crc32 scenario args.partitions observed_partitions

  -- from `summaries = ...` on
  unfoldable pub report :
      Formats → Options → Option (Dict (List ℤ)) → SkewScenario → SkewScenario → Result String
  report formats args observed balanced hot_key = do
    first ← summarize args observed balanced
    second ← summarize args observed hot_key
    render_report formats utf8 crc32 first second args.partitions args.share args.share_text
        (mode_of args)

  -- what `main` prints
  unfoldable pub main : Formats → Client utf8 → ℕ → Options → Option (Result String)
  main formats client fuel args =
      and_then (some (build_reference_scenarios args.events args.share)) λ (balanced, hot_key).
        and_then (observe client fuel args (balanced ∷ hot_key ∷ []))
          λ observed. some (report formats args observed balanced hot_key)
