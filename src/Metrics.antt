-- ===== src/Metrics.antt =====
-- internal/metrics/compute.go, and the source test of aggregator.go: the statistics of a set of
-- trades. An index out of range, where Go panics, is the error `index_out_of_range`.
pub mod Statistics
pub mod Aggregator
pub mod Streaks
pub mod Drawdown
pub mod Laws
use solana_token_lab.Base.{
  zero, Ordering, Bool, false, List, [], ◌∷◌, ◌++◌, map, Option, none, some, String, same_text,
  if◌then◌else◌, ◌==◌,
}
use solana_token_lab.Base.Int.{ℤ, pos, add64, sub64, compare_ℤ, ltb_ℤ}
use solana_token_lab.Base.Lists.{length}
use Prim.Native.String.{compare as compare_text}
use solana_token_lab.Base.ThreeWay.{then_by}
use solana_token_lab.Base.Sort.{sort_slice, less_of}
use solana_token_lab.Result.{Result, ok, ◌>>=◌}
use solana_token_lab.Float64.{Float64, whole}
use solana_token_lab.Domain.{
  TradeRecord, StrategyAggregate, Source, source_new_token, source_active_token, scenario_realistic,
  scenario_pessimistic, scenario_degraded, outcome_class_win,
}
use solana_token_lab.Metrics.Statistics.{
  sort_floats, compute_mean, compute_stddev, compute_percentile, compute_max_drawdown, element,
}

-- The values of the aggregate that read the sorted outcomes.
pub record Quantiles (F : Type 0) : Type 0 where
  pub median : F
  pub p10 : F
  pub p25 : F
  pub p75 : F
  pub p90 : F
  pub least : F
  pub greatest : F

module _ {F : Type 0} where
  unfoldable pub compare_trades : TradeRecord F → TradeRecord F → Ordering
  compare_trades =
      then_by (λ a b. compare_ℤ a.entry_signal_time b.entry_signal_time)
        (λ a b. compare_text a.trade_id b.trade_id)

  unfoldable pub sort_trades : List (TradeRecord F) → List (TradeRecord F)
  unfolding compare_trades sort_slice
  sort_trades = sort_slice (less_of compare_trades)

  -- The loop that counts wins and losses.
  unfoldable pub count_outcomes : ℤ → ℤ → List (TradeRecord F) → ℤ × ℤ
  unfolding add64
  count_outcomes wins losses [] = (wins, losses)
  count_outcomes wins losses (t ∷ ts) =
      let won = count_outcomes (add64 wins (pos 1)) losses ts in
      let lost = count_outcomes wins (add64 losses (pos 1)) ts in
      if same_text t.outcome_class outcome_class_win then won else lost

  -- `candidateOutcomes[id] = append(candidateOutcomes[id], outcome)`; the groups stand in the order
  -- in which their candidates first appear.
  unfoldable pub add_outcome : String → F → List (String × List F) → List (String × List F)
  add_outcome id outcome [] = (id, outcome ∷ []) ∷ []
  add_outcome id outcome ((other, outcomes) ∷ rest) =
      let later = add_outcome id outcome rest in
      if same_text other id
      then (other, outcomes ++ (outcome ∷ [])) ∷ rest
      else (other, outcomes) ∷ later

  unfoldable pub group_outcomes :
      List (String × List F) → List (TradeRecord F) → List (String × List F)
  unfolding add_outcome
  group_outcomes groups [] = groups
  group_outcomes groups (t ∷ ts) = group_outcomes (add_outcome t.candidate_id t.outcome groups) ts

-- `sourceMatchesEntryEventType` of internal/metrics/aggregator.go.
unfoldable pub source_matches_entry_event_type : Source → String → Bool
source_matches_entry_event_type source entry_event_type =
    if same_text entry_event_type "NEW_TOKEN"
    then same_text source source_new_token
    else if same_text entry_event_type "ACTIVE_TOKEN"
    then same_text source source_active_token
    else false

module _ {F : Type 0} ⦃d : Float64 F⦄ where
  -- The number of groups with a positive mean.
  unfoldable pub count_winning_tokens : ℤ → List (String × List F) → ℤ
  unfolding add64 compute_mean
  count_winning_tokens n [] = n
  count_winning_tokens n ((id, outcomes) ∷ rest) =
      let won = count_winning_tokens (add64 n (pos 1)) rest in
      let lost = count_winning_tokens n rest in
      if d.lt (whole 0) (compute_mean outcomes) then won else lost

  unfoldable pub compute_token_win_rate : List (TradeRecord F) → ℤ × F
  unfolding group_outcomes count_winning_tokens
  compute_token_win_rate [] = (pos 0, whole 0)
  compute_token_win_rate (t ∷ ts) =
      let groups = group_outcomes [] (t ∷ ts) in
      let total_tokens = pos (length groups) in
      (total_tokens, d.div (d.of_int (count_winning_tokens (pos 0) groups)) (d.of_int total_tokens))

  unfoldable pub compute_win_rate : ℤ → ℤ → F
  compute_win_rate wins (pos zero) = whole 0
  compute_win_rate wins total = d.div (d.of_int wins) (d.of_int total)

  unfoldable pub streak_loop : ℤ → ℤ → List (TradeRecord F) → ℤ
  unfolding add64
  streak_loop max_streak current_streak [] = max_streak
  streak_loop max_streak current_streak (t ∷ ts) =
      let grown = add64 current_streak (pos 1) in
      let higher = streak_loop grown grown ts in
      let same = streak_loop max_streak grown ts in
      let ended = streak_loop max_streak (pos 0) ts in
      if d.le t.outcome (whole 0) then (if ltb_ℤ max_streak grown then higher else same) else ended

  unfoldable pub compute_max_consecutive_losses : List (TradeRecord F) → ℤ
  unfolding streak_loop
  compute_max_consecutive_losses trades = streak_loop (pos 0) (pos 0) trades

  unfoldable pub empty_aggregate : String → StrategyAggregate F
  empty_aggregate entry_event_type = record {
    strategy_id = "";
    scenario_id = "";
    entry_event_type = entry_event_type;
    total_trades = pos 0;
    total_tokens = pos 0;
    wins = pos 0;
    losses = pos 0;
    win_rate = whole 0;
    token_win_rate = whole 0;
    outcome_mean = whole 0;
    outcome_median = whole 0;
    outcome_p10 = whole 0;
    outcome_p25 = whole 0;
    outcome_p75 = whole 0;
    outcome_p90 = whole 0;
    outcome_min = whole 0;
    outcome_max = whole 0;
    outcome_stddev = whole 0;
    max_drawdown = whole 0;
    max_consecutive_losses = pos 0;
    outcome_realistic = none;
    outcome_pessimistic = none;
    outcome_degraded = none;
  }

  abbrev pub outcomes_of : List (TradeRecord F) → List F
  outcomes_of = map λ t. t.outcome

  unfoldable pub compute_quantiles : ℤ → List F → Result (Quantiles F)
  unfolding compute_percentile element sub64
  compute_quantiles n sorted_outcomes = do
    median ← compute_percentile sorted_outcomes (d.literal (pos 50) 2)
    p10 ← compute_percentile sorted_outcomes (d.literal (pos 10) 2)
    p25 ← compute_percentile sorted_outcomes (d.literal (pos 25) 2)
    p75 ← compute_percentile sorted_outcomes (d.literal (pos 75) 2)
    p90 ← compute_percentile sorted_outcomes (d.literal (pos 90) 2)
    least ← element sorted_outcomes (pos 0)
    greatest ← element sorted_outcomes (sub64 n (pos 1))
    ok (record {
      median = median;
      p10 = p10;
      p25 = p25;
      p75 = p75;
      p90 = p90;
      least = least;
      greatest = greatest;
    })

  -- The aggregate of `n` trades in their order.
  unfoldable pub assemble : ℤ → List (TradeRecord F) → String → Quantiles F → StrategyAggregate F
  unfolding empty_aggregate count_outcomes compute_token_win_rate compute_win_rate compute_mean
      compute_stddev compute_max_drawdown compute_max_consecutive_losses
  assemble n sorted_trades entry_event_type q =
      let counts = count_outcomes (pos 0) (pos 0) sorted_trades in
      let outcomes = outcomes_of sorted_trades in
      let mean = compute_mean outcomes in
      let tokens = compute_token_win_rate sorted_trades in
      record (empty_aggregate entry_event_type) {
        total_trades = n;
        total_tokens = tokens.0;
        wins = counts.0;
        losses = counts.1;
        win_rate = compute_win_rate counts.0 n;
        token_win_rate = tokens.1;
        outcome_mean = mean;
        outcome_median = q.median;
        outcome_p10 = q.p10;
        outcome_p25 = q.p25;
        outcome_p75 = q.p75;
        outcome_p90 = q.p90;
        outcome_min = q.least;
        outcome_max = q.greatest;
        outcome_stddev = compute_stddev outcomes mean;
        max_drawdown = compute_max_drawdown outcomes;
        max_consecutive_losses = compute_max_consecutive_losses sorted_trades;
      }

  -- What follows the sort of the trades.
  unfoldable pub aggregate_sorted : ℤ → List (TradeRecord F) → String → Result (StrategyAggregate F)
  unfolding compute_quantiles assemble sort_floats
  aggregate_sorted n sorted_trades entry_event_type = do
    q ← compute_quantiles n (sort_floats (outcomes_of sorted_trades))
    ok (assemble n sorted_trades entry_event_type q)

  unfoldable pub compute_from_trades : List (TradeRecord F) → String → Result (StrategyAggregate F)
  unfolding aggregate_sorted sort_trades
  compute_from_trades trades entry_event_type =
      if length trades == 0
      then ok (empty_aggregate entry_event_type)
      else aggregate_sorted (pos (length trades)) (sort_trades trades) entry_event_type

  unfoldable pub set_sensitivity_fields : StrategyAggregate F → StrategyAggregate F
  set_sensitivity_fields agg =
      if same_text agg.scenario_id scenario_realistic
      then record agg { outcome_realistic = some agg.outcome_mean }
      else if same_text agg.scenario_id scenario_pessimistic
      then record agg { outcome_pessimistic = some agg.outcome_mean }
      else if same_text agg.scenario_id scenario_degraded
      then record agg { outcome_degraded = some agg.outcome_mean }
      else agg
