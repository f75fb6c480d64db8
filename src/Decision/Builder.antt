-- ===== src/Decision/Builder.antt =====
-- internal/decision/builder.go: the inputs of decisions, from the rows of a report (internal/reporting/report.go).
-- Of a report only the metrics are read.
pub mod Rows
pub mod Built
use Prim.Native.String.{compare as compare_text}
use solana_token_lab.Base.{
  Bool, true, false, ◌&&◌, List, [], ◌∷◌, Option, none, some, String, same_text, if◌then◌else◌,
}
use solana_token_lab.Base.Int.{ℤ}
use solana_token_lab.Base.ThreeWay.{then_by}
use solana_token_lab.Base.Sort.{sort_slice, less_of}
use solana_token_lab.Result.{Result, ok, err, ◌>>=◌, ◌>>◌, Error}
use solana_token_lab.Float64.{Float64, ◌*F◌, whole}
use solana_token_lab.Domain.{scenario_realistic, scenario_pessimistic, scenario_degraded}
use solana_token_lab.Decision.{DecisionInput, validate_decision}

pub record StrategyMetricRow (F : Type 0) : Type 0 where
  pub strategy_id : String
  pub scenario_id : String
  pub entry_event_type : String
  pub total_trades : ℤ
  pub total_tokens : ℤ
  pub wins : ℤ
  pub losses : ℤ
  pub win_rate : F
  pub token_win_rate : F
  pub outcome_mean : F
  pub outcome_median : F
  pub outcome_p10 : F
  pub outcome_p25 : F
  pub outcome_p75 : F
  pub outcome_p90 : F
  pub outcome_min : F
  pub outcome_max : F
  pub outcome_stddev : F
  pub max_drawdown : F
  pub max_consecutive_losses : ℤ

pub record StrategyKey : Type 0 where
  pub strategy_id : String
  pub entry_event_type : String

-- The keys that are implementable. A key that the map does not have, or has as false, is not.
pub record Builder : Type 0 where
  pub implementable : List StrategyKey

abbrev pub new_builder : List StrategyKey → Builder
new_builder implementable = record { implementable = implementable }

abbrev pub same_key : StrategyKey → StrategyKey → Bool
same_key a b =
    same_text a.strategy_id b.strategy_id && same_text a.entry_event_type b.entry_event_type

-- `b.implementable[key]`
unfoldable pub is_implementable : StrategyKey → List StrategyKey → Bool
is_implementable k [] = false
is_implementable k (j ∷ js) = if same_key j k then true else is_implementable k js

unfoldable pub sort_keys : List StrategyKey → List StrategyKey
unfolding sort_slice
sort_keys = sort_slice (
    less_of (
      then_by (λ (x y : StrategyKey). compare_text x.strategy_id y.strategy_id)
        (λ x y. compare_text x.entry_event_type y.entry_event_type)))

module _ {F : Type 0} where
  abbrev pub key_of : StrategyMetricRow F → StrategyKey
  key_of m = record { strategy_id = m.strategy_id; entry_event_type = m.entry_event_type }

  abbrev pub matches : StrategyKey → String → StrategyMetricRow F → Bool
  matches k scenario_id m = same_key (key_of m) k && same_text m.scenario_id scenario_id

  -- A loop that breaks at the first row that matches.
  unfoldable pub find_metric :
      StrategyKey → String → List (StrategyMetricRow F) → Option (StrategyMetricRow F)
  find_metric k scenario_id [] = none
  find_metric k scenario_id (m ∷ ms) =
      if matches k scenario_id m then some m else find_metric k scenario_id ms

  -- An entry of the maps that `BuildAll` fills: the last row that matches.
  unfoldable pub last_metric :
      StrategyKey → String → List (StrategyMetricRow F) → Option (StrategyMetricRow F)
  last_metric k scenario_id [] = none
  last_metric k scenario_id (m ∷ ms) = elim (last_metric k scenario_id ms) [
    | some later ↦ some later
    | none ↦ if matches k scenario_id m then some m else none
  ]

  -- The keys of the realistic rows, each once.
  unfoldable pub realistic_keys : List StrategyKey → List (StrategyMetricRow F) → List StrategyKey
  unfolding is_implementable
  realistic_keys keys [] = keys
  realistic_keys keys (m ∷ ms) =
      realistic_keys
        (if same_text m.scenario_id scenario_realistic
          then (if is_implementable (key_of m) keys then keys else key_of m ∷ keys)
          else keys)
        ms

  module _ ⦃d : Float64 F⦄ where
    -- The input from the three rows, and its check.
    unfoldable pub input_of :
        Builder
        → StrategyMetricRow F
        → Option (StrategyMetricRow F)
        → Option (StrategyMetricRow F)
        → DecisionInput F
    unfolding is_implementable
    input_of b realistic pessimistic degraded = record {
      positive_outcome_pct = realistic.token_win_rate *F whole 100;
      median_outcome = realistic.outcome_median;
      realistic_mean = realistic.outcome_mean;
      realistic_median = realistic.outcome_median;
      pessimistic_mean = elim pessimistic [ none ↦ whole 0 | some m ↦ m.outcome_mean ];
      pessimistic_median = elim pessimistic [ none ↦ whole 0 | some m ↦ m.outcome_median ];
      degraded_mean = elim degraded [ none ↦ whole 0 | some m ↦ m.outcome_mean ];
      outcome_p10 = realistic.outcome_p10;
      outcome_p25 = realistic.outcome_p25;
      outcome_p50 = realistic.outcome_median;
      outcome_p75 = realistic.outcome_p75;
      outcome_p90 = realistic.outcome_p90;
      strategy_implementable = is_implementable (key_of realistic) b.implementable;
      strategy_id = realistic.strategy_id;
      entry_event_type = realistic.entry_event_type;
      scenario_id = realistic.scenario_id;
    }

    unfoldable pub checked_input : DecisionInput F → Result (DecisionInput F)
    unfolding validate_decision
    checked_input input = validate_decision (some input) >> ok input

    unfoldable pub build :
        Builder → List (StrategyMetricRow F) → String → String → Result (DecisionInput F)
    unfolding find_metric input_of checked_input
    build b metrics strategy_id entry_event_type =
        let k : StrategyKey = record {
          strategy_id = strategy_id;
          entry_event_type = entry_event_type;
        } in
        elim (find_metric k scenario_realistic metrics) [
          | none ↦ err Error.strategy_not_found
          | some realistic ↦ checked_input (
              input_of b realistic (find_metric k scenario_pessimistic metrics)
                (find_metric k scenario_degraded metrics))
        ]

    -- The input of one key of `BuildAll`, which must have a pessimistic row.
    unfoldable pub build_key :
        Builder
        → List (StrategyMetricRow F)
        → StrategyKey
        → StrategyMetricRow F
        → Result (DecisionInput F)
    unfolding last_metric input_of checked_input
    build_key b metrics k realistic = elim (last_metric k scenario_pessimistic metrics) [
      | none ↦ err Error.missing_pessimistic_scenario
      | some pessimistic ↦
          checked_input
            (input_of b realistic (some pessimistic) (last_metric k scenario_degraded metrics))
    ]

    -- A key without a realistic row is none of those that are built.
    unfoldable pub build_keys :
        Builder → List (StrategyMetricRow F) → List StrategyKey → Result (List (DecisionInput F))
    unfolding last_metric build_key
    build_keys b metrics [] = ok []
    build_keys b metrics (k ∷ ks) =
        let rest = build_keys b metrics ks in
        elim (last_metric k scenario_realistic metrics) [
          | none ↦ rest
          | some realistic ↦
              build_key b metrics k realistic >>= λ input. rest >>= λ inputs. ok (input ∷ inputs)
        ]

    unfoldable pub build_all :
        Builder → List (StrategyMetricRow F) → Result (List (DecisionInput F))
    unfolding realistic_keys sort_keys build_keys
    build_all b metrics = elim (realistic_keys [] metrics) [
      | [] ↦ err Error.no_realistic_scenario
      | k ∷ ks ↦ build_keys b metrics (sort_keys (k ∷ ks))
    ]
