-- ===== src/Examples/Aggregates.antt =====
-- The aggregate of stored trades.
use mathlib.Core.List.{Permᴰ}
use solana_token_lab.Base.{◌≡◌, refl, [], ◌∷◌}
use solana_token_lab.Base.Int.{pos}
use solana_token_lab.Float64.Micros.{Micros, micros_float64}
use solana_token_lab.Domain.{TradeRecord}
use solana_token_lab.Storage.Keyed.{select}
use solana_token_lab.Storage.Candidates.{get_by_id}
use solana_token_lab.Metrics.{source_matches_entry_event_type}
use solana_token_lab.Storage.Keyed.Inserts.{IsConsistent}
use solana_token_lab.Storage.Trades.{TradeRecordStore, trade_key, is_valid}
use solana_token_lab.Metrics.Aggregator.{Aggregator, aggregate_of, compute_aggregate}
use solana_token_lab.Metrics.Aggregator.Order.{wanted, compute_aggregate-wanted}
use solana_token_lab.Examples.Samples.{units, candidate, scored}

abbrev won : TradeRecord Micros
won = scored (pos 10) "a" (units (pos 5)) "WIN"

abbrev lost : TradeRecord Micros
lost = scored (pos 20) "b" (units (pos 0)) "LOSS"

abbrev trades : TradeRecordStore Micros
trades = ("a", won) ∷ ("b", lost) ∷ []

abbrev aggregator : Aggregator Micros
aggregator = record {
  trade_record_store = trades;
  strategy_agg_store = [];
  candidate_store = ("c", candidate) ∷ [];
  missing_candidates = [];
}

wanted_run : wanted "TIME_EXIT" "realistic" "NEW_TOKEN" aggregator ≡ won ∷ lost ∷ []
unfolding select get_by_id source_matches_entry_event_type
wanted_run = refl

trades-IsConsistent : IsConsistent trade_key is_valid trades
trades-IsConsistent = record {
  keyed = ((refl, refl), ((refl, refl), tt));
  distinct = ((refl, tt), (tt, tt));
}

compute_aggregate-wanted_example :
    ((compute_aggregate "TIME_EXIT" "realistic" "NEW_TOKEN" aggregator).0
      ≡ aggregate_of "TIME_EXIT" "realistic" "NEW_TOKEN"
          (wanted "TIME_EXIT" "realistic" "NEW_TOKEN" aggregator))
    × ((compute_aggregate "TIME_EXIT" "realistic" "NEW_TOKEN" aggregator).0
        ≡ (compute_aggregate "TIME_EXIT" "realistic" "NEW_TOKEN"
            record aggregator { trade_record_store = ("b", lost) ∷ ("a", won) ∷ [] }).0)
compute_aggregate-wanted_example =
    compute_aggregate-wanted "TIME_EXIT" "realistic" "NEW_TOKEN" aggregator
      {s = ("b", lost) ∷ ("a", won) ∷ []} trades-IsConsistent (Permᴰ.swap refl refl)
