-- ===== src/Normalization/Timeseries.antt =====
-- internal/normalization/price_timeseries.go and liquidity_timeseries.go.
pub mod Aggregates
use solana_token_lab.Base.{◌≡◌, Bool, ◌&&◌, List, [], ◌∷◌, none, same_text}
use solana_token_lab.Base.Int.{pos, eq_ℤ, add64}
use solana_token_lab.Float64.{Float64, ◌+F◌}
use solana_token_lab.Domain.{Swap, LiquidityEvent, PriceTimeseriesPoint, LiquidityTimeseriesPoint}
use solana_token_lab.Normalization.Runs.{collect}

module _ {F : Type 0} ⦃d : Float64 F⦄ where
  -- A new price point.
  abbrev pub start_price : Swap F → PriceTimeseriesPoint F
  start_price s = record {
    candidate_id = s.candidate_id;
    timestamp_ms = s.timestamp;
    slot = s.slot;
    price = s.price;
    volume = s.amount_out;
    swap_count = pos 1;
  }

  abbrev pub continues_price : PriceTimeseriesPoint F → Swap F → Bool
  continues_price current s =
      same_text current.candidate_id s.candidate_id && eq_ℤ current.timestamp_ms s.timestamp

  -- A swap taken into the current point.
  unfoldable pub aggregate_price : PriceTimeseriesPoint F → Swap F → PriceTimeseriesPoint F
  unfolding add64
  aggregate_price current s = record current {
    price = s.price;
    slot = s.slot;
    volume = current.volume +F s.amount_out;
    swap_count = add64 current.swap_count (pos 1);
  }

  unfoldable pub generate_price_timeseries : List (Swap F) → List (PriceTimeseriesPoint F)
  generate_price_timeseries swaps =
      collect start_price continues_price aggregate_price [] none swaps

module _ {F : Type 0} where
  abbrev pub start_liquidity : LiquidityEvent F → LiquidityTimeseriesPoint F
  start_liquidity e = record {
    candidate_id = e.candidate_id;
    timestamp_ms = e.timestamp;
    slot = e.slot;
    liquidity = e.liquidity_after;
    liquidity_token = e.amount_token;
    liquidity_quote = e.amount_quote;
  }

  abbrev pub continues_liquidity : LiquidityTimeseriesPoint F → LiquidityEvent F → Bool
  continues_liquidity current e =
      same_text current.candidate_id e.candidate_id && eq_ℤ current.timestamp_ms e.timestamp

  unfoldable pub aggregate_liquidity :
      LiquidityTimeseriesPoint F → LiquidityEvent F → LiquidityTimeseriesPoint F
  aggregate_liquidity current e = record current {
    slot = e.slot;
    liquidity = e.liquidity_after;
    liquidity_token = e.amount_token;
    liquidity_quote = e.amount_quote;
  }

  unfoldable pub generate_liquidity_timeseries :
      List (LiquidityEvent F) → List (LiquidityTimeseriesPoint F)
  generate_liquidity_timeseries events =
      collect start_liquidity continues_liquidity aggregate_liquidity [] none events
