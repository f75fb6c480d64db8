-- ===== src/Metrics/Aggregator.antt =====
-- internal/metrics/aggregator.go: the aggregate of a strategy in a scenario, from the stored trades. The
-- aggregator works on the in-memory stores.
pub mod Order
use Prim.Native.String.{compare as compare_text}
use solana_token_lab.Base.{
  Bool, true, false, not, ◌&&◌, List, [], ◌∷◌, map, Option, none, some, String, same_text,
  if◌then◌else◌,
}
use solana_token_lab.Base.Int.{ℤ, pos, add64}
use solana_token_lab.Base.Text.{concat, decimal}
use solana_token_lab.Base.Sort.{sort_slice, less_of}
use solana_token_lab.Result.{Result, ok, err, ◌>>=◌, Error}
use solana_token_lab.Float64.{Float64}
use solana_token_lab.Domain.{TradeRecord, StrategyAggregate, TokenCandidate}
use solana_token_lab.Strategy.Input.{canonical_type}
use solana_token_lab.Storage.Candidates.{CandidateStore, get_by_id}
use solana_token_lab.Storage.Trades.{TradeRecordStore, get_by_strategy_scenario, get_all}
use solana_token_lab.Storage.Aggregates
use solana_token_lab.Storage.Aggregates.{StrategyAggregateStore}
use solana_token_lab.Metrics.{
  source_matches_entry_event_type, compute_from_trades, set_sensitivity_fields,
}

pub record Aggregator (F : Type 0) : Type 0 where
  pub trade_record_store : TradeRecordStore F
  pub strategy_agg_store : StrategyAggregateStore F
  pub candidate_store : CandidateStore
  -- how many trades refer to each candidate that is not stored
  pub missing_candidates : List (String × ℤ)

-- `missing[id]++`
unfoldable pub count_missing : String → List (String × ℤ) → List (String × ℤ)
unfolding add64
count_missing id [] = (id, pos 1) ∷ []
count_missing id ((j, n) ∷ counts) =
    if same_text j id then (j, add64 n (pos 1)) ∷ counts else (j, n) ∷ count_missing id counts

-- The message on one candidate.
abbrev pub missing_error : String × ℤ → String
missing_error (id, n) =
    concat ("missing candidate " ∷ id ∷ " referenced by " ∷ decimal n ∷ " trade(s)" ∷ [])

module _ {F : Type 0} where
  abbrev pub new_aggregator :
      TradeRecordStore F → StrategyAggregateStore F → CandidateStore → Aggregator F
  new_aggregator trades aggregates candidates = record {
    trade_record_store = trades;
    strategy_agg_store = aggregates;
    candidate_store = candidates;
    missing_candidates = [];
  }

  unfoldable pub get_missing_candidate_errors : Aggregator F → List String
  unfolding sort_slice concat decimal
  get_missing_candidate_errors a =
      map missing_error
        (sort_slice (less_of λ (x y : String × ℤ). compare_text x.0 y.0) a.missing_candidates)

  -- The loop over all trades.
  unfoldable pub filter_canonical : String → String → List (TradeRecord F) → List (TradeRecord F)
  unfolding canonical_type
  filter_canonical base_strategy_type scenario_id [] = []
  filter_canonical base_strategy_type scenario_id (t ∷ ts) =
      let rest = filter_canonical base_strategy_type scenario_id ts in
      if not (same_text t.scenario_id scenario_id)
      then rest
      else if same_text (canonical_type t.strategy_id) base_strategy_type
      then t ∷ rest
      else rest

  unfoldable pub load_trades_by_canonical_strategy :
      String → String → Aggregator F → List (TradeRecord F)
  unfolding get_by_strategy_scenario get_all filter_canonical
  load_trades_by_canonical_strategy base_strategy_type scenario_id a =
      elim (get_by_strategy_scenario base_strategy_type scenario_id a.trade_record_store) [
        | t ∷ ts ↦ t ∷ ts
        | [] ↦ filter_canonical base_strategy_type scenario_id (get_all a.trade_record_store)
      ]

  -- The trades that match, and the counts of those without a candidate.
  unfoldable pub filter_by_entry_event_type :
      CandidateStore
      → String
      → List (String × ℤ)
      → List (TradeRecord F)
      → List (TradeRecord F) × List (String × ℤ)
  unfolding get_by_id count_missing source_matches_entry_event_type
  filter_by_entry_event_type candidates entry_event_type missing [] = ([], missing)
  filter_by_entry_event_type candidates entry_event_type missing (t ∷ ts) =
      elim (get_by_id t.candidate_id candidates) [
        | err e ↦
            filter_by_entry_event_type candidates entry_event_type
              (count_missing t.candidate_id missing) ts
        | ok candidate ↦
            let (filtered, counts) =
              filter_by_entry_event_type candidates entry_event_type missing ts in
            if source_matches_entry_event_type candidate.source entry_event_type
            then (t ∷ filtered, counts)
            else (filtered, counts)
      ]

  module _ ⦃d : Float64 F⦄ where
    -- From the filtered trades on.
    unfoldable pub aggregate_of :
        String → String → String → List (TradeRecord F) → Result (StrategyAggregate F)
    unfolding compute_from_trades set_sensitivity_fields
    aggregate_of strategy_id scenario_id entry_event_type [] = err Error.no_trades
    aggregate_of strategy_id scenario_id entry_event_type (t ∷ ts) =
        compute_from_trades (t ∷ ts) entry_event_type >>= λ agg.
        ok (
          set_sensitivity_fields
            record agg { strategy_id = strategy_id; scenario_id = scenario_id })

    unfoldable pub compute_aggregate :
        String → String → String → Aggregator F → Result (StrategyAggregate F) × Aggregator F
    unfolding load_trades_by_canonical_strategy filter_by_entry_event_type aggregate_of
    compute_aggregate strategy_id scenario_id entry_event_type a =
        let (filtered, missing) =
          filter_by_entry_event_type a.candidate_store entry_event_type a.missing_candidates
            (load_trades_by_canonical_strategy strategy_id scenario_id a) in
        (
          aggregate_of strategy_id scenario_id entry_event_type filtered,
          record a { missing_candidates = missing },
        )

    unfoldable pub compute_and_store :
        String → String → String → Aggregator F → Result (StrategyAggregate F) × Aggregator F
    unfolding compute_aggregate Aggregates.insert
    compute_and_store strategy_id scenario_id entry_event_type a =
        let (r, a') = compute_aggregate strategy_id scenario_id entry_event_type a in
        elim r [
          | err e ↦ (err e, a')
          | ok agg ↦
              let (inserted, store) = Aggregates.insert (some agg) a'.strategy_agg_store in
              (inserted >>= λ done. ok agg, record a' { strategy_agg_store = store })
        ]
