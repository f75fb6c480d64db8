-- ===== src/Examples/Inputs.antt =====
-- The input of a decision from two sample rows of a report.
use solana_token_lab.Base.{◌≡◌, refl, List, [], ◌∷◌, none, some, String}
use solana_token_lab.Base.Int.{ℤ, pos}
use solana_token_lab.Base.Lists.{All}
use solana_token_lab.Result.{ok}
use solana_token_lab.Float64.Micros
use solana_token_lab.Float64.Micros.{Micros, micros_float64}
use solana_token_lab.Decision.Builder.{
  Builder, StrategyMetricRow, new_builder, input_of, key_of, build, build_all,
}
use solana_token_lab.Decision.Builder.Built.{Built, build_all-Built}
use solana_token_lab.Examples.Samples.{units}

abbrev row : String → ℤ → StrategyMetricRow Micros
row scenario_id mean = record {
  strategy_id = "TIME_EXIT";
  scenario_id = scenario_id;
  entry_event_type = "NEW_TOKEN";
  total_trades = pos 10;
  total_tokens = pos 10;
  wins = pos 6;
  losses = pos 4;
  win_rate = units (pos 600_000);
  token_win_rate = units (pos 120_000);
  outcome_mean = units mean;
  outcome_median = units (pos 40_000);
  outcome_p10 = units (pos 1000);
  outcome_p25 = units (pos 10_000);
  outcome_p75 = units (pos 60_000);
  outcome_p90 = units (pos 90_000);
  outcome_min = units (pos 0);
  outcome_max = units (pos 100_000);
  outcome_stddev = units (pos 1000);
  max_drawdown = units (pos 0);
  max_consecutive_losses = pos 2;
}

abbrev rows : List (StrategyMetricRow Micros)
rows = row "pessimistic" (pos 30_000) ∷ row "realistic" (pos 50_000) ∷ []

abbrev builder : Builder
builder = new_builder (key_of (row "realistic" (pos 0)) ∷ [])

rows_built :
    build_all builder rows
    ≡ ok (
        input_of builder (row "realistic" (pos 50_000)) (some (row "pessimistic" (pos 30_000))) none
        ∷ [])
unfolding build_all Micros.literal Micros.mul
rows_built = refl

-- `Build` reads the same rows.
build_run :
    build builder rows "TIME_EXIT" "NEW_TOKEN"
    ≡ ok (
        input_of builder
          (row "realistic" (pos 50_000))
          (some (row "pessimistic" (pos 30_000)))
          none)
unfolding build Micros.literal Micros.mul
build_run = refl

build_all-Built_example : All (Built builder rows) (
    input_of builder (row "realistic" (pos 50_000)) (some (row "pessimistic" (pos 30_000))) none
    ∷ [])
build_all-Built_example =
    build_all-Built builder rows
      (input_of builder (row "realistic" (pos 50_000)) (some (row "pessimistic" (pos 30_000))) none
        ∷ [])
      rows_built
