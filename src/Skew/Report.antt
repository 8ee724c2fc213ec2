-- ===== src/Skew/Report.antt =====
-- src/producer/skew_analysis.py: the report, line by line, and the checks of two options.
use Prim.Native.String.{◌++◌ as ◌<>◌}
use streaming_fpuna_proyecto.Base.{ℕ, String, not, List, [], ◌∷◌, ◌++◌, map}
use streaming_fpuna_proyecto.Base.Int.{ℤ, pos, leb_ℤ}
use streaming_fpuna_proyecto.Base.Decimal.{decimal, decimal_ℤ}
use streaming_fpuna_proyecto.Python.{argument_type_error, Result, ok, raise_if, ◌>>=◌, ◌>>◌}
use streaming_fpuna_proyecto.Python.Codec.{Utf8}
use streaming_fpuna_proyecto.Skew.{
  PartitionSummary, ScenarioSummary, Share, hot_customer_id, partition_for_key,
}

-- `_positive_int`, of what `int(value)` gives or raises
unfoldable pub positive_int : Result ℤ → Result ℤ
positive_int parsing = do
  parsed ← parsing
  raise_if (leb_ℤ parsed (pos 0)) argument_type_error "must be a positive integer"
  ok parsed

-- `_hot_key_share`, of what `float(value)` gives or raises
unfoldable pub hot_key_share : Result Share → Result Share
hot_key_share parsing = do
  parsed ← parsing
  raise_if (not parsed.in_range) argument_type_error "must be greater than 0 and lower than 1"
  ok parsed

-- how Python writes a quotient of two numbers by `:.2%` and `:.2f`, and a hundred times the difference of
-- two quotients by `:.2f`
pub record Formats : Type 0 where
  pub percent : ℤ → ℕ → String
  pub two_digits : ℕ × ℕ → String
  pub points : ℕ × ℕ → ℕ × ℕ → String

-- `"\n".join(lines)`
unfoldable pub join_lines : List String → String
join_lines [] = ""
join_lines (line ∷ []) = line
join_lines (line ∷ next ∷ lines) = line <> ("\n" <> join_lines (next ∷ lines))

abbrev pub start_line : String → ℤ → ℕ → String → String
start_line mode partition_count events share_text =
    "SKEW_ANALYSIS_START mode="
    <> (mode
        <> (" partitions="
            <> (decimal_ℤ partition_count
                <> (" events_per_scenario="
                    <> (decimal events <> (" hot_key_share=" <> share_text))))))

module _ (formats : Formats) where
  abbrev pub partition_line : ScenarioSummary → PartitionSummary → String
  partition_line summary p =
      "PARTITION scenario="
      <> (summary.name
          <> (" id="
              <> (decimal p.partition
                  <> (" events="
                      <> (decimal p.event_count
                          <> (" unique_keys="
                              <> (decimal p.unique_key_count
                                  <> (" share="
                                      <> formats.percent (pos p.event_count)
                                          summary.total_events))))))))

  abbrev pub scenario_line : ScenarioSummary → String
  scenario_line summary =
      "SCENARIO name="
      <> (summary.name
          <> (" total_events="
              <> (decimal summary.total_events
                  <> (" unique_keys=" <> decimal summary.unique_keys))))

  abbrev pub summary_line : ScenarioSummary → String
  summary_line summary =
      "SUMMARY scenario="
      <> (summary.name
          <> (" max_partition="
              <> (decimal summary.max_partition
                  <> (" max_share="
                      <> (formats.percent (pos summary.max_partition_share.0)
                            summary.max_partition_share.1
                          <> (" max_to_mean=" <> formats.two_digits summary.max_to_mean_ratio))))))

  -- the body of the loop over the summaries
  unfoldable pub summary_lines : ScenarioSummary → List String
  summary_lines summary =
      (scenario_line summary ∷ map (partition_line summary) summary.partitions)
      ++ (summary_line summary ∷ [])

  abbrev pub hot_line : ℤ → ℕ → ℕ → String
  hot_line hot_events hot_partition total_events =
      "HOT_KEY key="
      <> (hot_customer_id
          <> (" events="
              <> (decimal_ℤ hot_events
                  <> (" partition="
                      <> (decimal hot_partition
                          <> (" share=" <> formats.percent hot_events total_events))))))

  -- from `balanced, hot_key = summaries` on
  unfoldable pub last_lines : ScenarioSummary → ScenarioSummary → Share → ℕ → List String
  last_lines balanced hot_key share hot_partition =
      hot_line (share.round_of (pos hot_key.total_events)) hot_partition hot_key.total_events
      ∷ ("COMPARISON max_share_delta_pp="
          <> formats.points hot_key.max_partition_share balanced.max_partition_share)
      ∷ "CONCLUSION more_partitions_distribute_distinct_keys_but_do_not_split_one_hot_key"
      ∷ "SKEW_ANALYSIS_EXIT_CODE=0"
      ∷ []

  -- `render_report`, for the two summaries that it unpacks; `share_text` is the share by `:.2f`
  unfoldable pub render_report :
      (utf8 : Utf8) (crc32 : utf8.Bytes → ℕ)
      → ScenarioSummary
      → ScenarioSummary
      → ℤ
      → Share
      → String
      → String
      → Result String
  render_report utf8 crc32 balanced hot_key partition_count share share_text mode = do
    hot_partition ← partition_for_key utf8 crc32 hot_customer_id partition_count
    ok (
        join_lines (
          (start_line mode partition_count balanced.total_events share_text
            ∷ summary_lines balanced)
          ++ (summary_lines hot_key ++ last_lines balanced hot_key share hot_partition)))
