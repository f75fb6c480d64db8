-- ===== src/Simulation.antt =====
-- internal/simulation/runner.go: one simulation, from the stored candidate and its series to the
-- stored trade. The stores are interfaces of internal/storage; a run gets their operations.
pub mod Runs
pub mod Once
use solana_token_lab.Base.{
  Bool, false, not, List, Option, none, some, String, same_text, if◌then◌else◌,
}
use solana_token_lab.Result.{Result, ok, ◌>>◌, ◌>>=◌, require, Error}
use solana_token_lab.Float64.{Float64}
use solana_token_lab.Domain.{
  Source, TokenCandidate, PriceTimeseriesPoint, LiquidityTimeseriesPoint, ScenarioConfig,
  StrategyConfig, TradeRecord, source_new_token, source_active_token,
}
use solana_token_lab.Storage.Candidates.{CandidateStore, get_by_id}
use solana_token_lab.Storage.Prices
use solana_token_lab.Storage.Prices.{PriceTimeseriesStore}
use solana_token_lab.Storage.Liquidity
use solana_token_lab.Storage.Liquidity.{LiquidityTimeseriesStore}
use solana_token_lab.Storage.Trades
use solana_token_lab.Storage.Trades.{TradeRecordStore}
use solana_token_lab.Lookup.{price_at, liquidity_at}
use solana_token_lab.Strategy.Input.{StrategyInput, validate}
use solana_token_lab.Strategy.Factory.{Strategy, from_config, execute}

-- The operations of the four stores that a run uses. `S` is the content of the trade record store;
-- `none` stands for a runner without one.
pub record Stores (F S : Type 0) : Type 0 where
  pub candidate_by_id : String → Result TokenCandidate
  pub prices_by_candidate_id : String → Result (List (PriceTimeseriesPoint F))
  pub liquidity_by_candidate_id : String → Result (List (LiquidityTimeseriesPoint F))
  pub insert_trade : Option (TradeRecord F → S → Result S)

unfoldable pub source_matches : Source → String → Bool
source_matches candidate_source entry_event_type =
    if same_text entry_event_type "NEW_TOKEN"
    then same_text candidate_source source_new_token
    else if same_text entry_event_type "ACTIVE_TOKEN"
    then same_text candidate_source source_active_token
    else false

module _ {F : Type 0} where
  abbrev pub simulation_input :
      String
      → TokenCandidate
      → List (PriceTimeseriesPoint F)
      → List (LiquidityTimeseriesPoint F)
      → F
      → Option F
      → ScenarioConfig F
      → StrategyInput F
  simulation_input candidate_id candidate prices liquidity price entry_liquidity scenario = record {
    candidate_id = candidate_id;
    entry_signal_time = candidate.discovered_at;
    entry_signal_price = price;
    entry_liquidity = entry_liquidity;
    price_timeseries = prices;
    liquidity_timeseries = liquidity;
    scenario = scenario;
  }

module _ {F S : Type 0} where
  -- `if r.tradeRecordStore != nil { … Insert … }`
  abbrev pub persist : Option (TradeRecord F → S → Result S) → TradeRecord F → S → Result S
  persist none trade s = ok s
  persist (some insert) trade s = insert trade s

module _ {F : Type 0} where
  -- A runner on the in-memory stores.
  unfoldable pub new_runner :
      CandidateStore
      → PriceTimeseriesStore F
      → LiquidityTimeseriesStore F
      → Stores F (TradeRecordStore F)
  unfolding get_by_id Prices.get_by_candidate_id Liquidity.get_by_candidate_id Trades.insert
  new_runner candidates prices liquidity = record {
    candidate_by_id = λ id. get_by_id id candidates;
    prices_by_candidate_id = λ id. ok (Prices.get_by_candidate_id id prices);
    liquidity_by_candidate_id = λ id. ok (Liquidity.get_by_candidate_id id liquidity);
    insert_trade =
        some (λ trade s. let (r, s') = Trades.insert (some trade) s in r >>= λ inserted. ok s');
  }

module _ {F S : Type 0} where
  -- Steps 1 to 3: the candidate, the strategy and their match.
  unfoldable pub select :
      Stores F S → String → StrategyConfig F → Result (TokenCandidate × Strategy F)
  select stores candidate_id cfg = do
    candidate ← stores.candidate_by_id candidate_id
    strat ← from_config cfg
    require (source_matches candidate.source cfg.entry_event_type) Error.source_mismatch
    ok (candidate, strat)

module _ {F S : Type 0} ⦃d : Float64 F⦄ where
  -- Steps 4 to 6.1: the series, the entry and the input.
  unfoldable pub load_input :
      Stores F S → String → ScenarioConfig F → TokenCandidate → Result (StrategyInput F)
  load_input stores candidate_id scenario candidate = do
    prices ← stores.prices_by_candidate_id candidate_id
    liquidity ← stores.liquidity_by_candidate_id candidate_id
    price ← price_at candidate.discovered_at prices
    entry_liquidity ← liquidity_at candidate.discovered_at liquidity
    let input =
        simulation_input candidate_id candidate prices liquidity price entry_liquidity scenario
    validate (some input)
    ok input

  module _ (sha256_hex : String → String) where
    -- Steps 7 and 8: the trade, and its insertion.
    unfoldable pub execute_and_store :
        Stores F S → Strategy F → StrategyInput F → S → Result (TradeRecord F × S)
    execute_and_store stores strat input s = do
      trade ← execute sha256_hex strat (some input)
      s' ← persist stores.insert_trade trade s
      ok (trade, s')

    unfoldable pub run :
        Stores F S → String → StrategyConfig F → ScenarioConfig F → S → Result (TradeRecord F × S)
    unfolding select load_input execute_and_store
    run stores candidate_id cfg scenario s = do
      selected ← select stores candidate_id cfg
      input ← load_input stores candidate_id scenario selected.0
      execute_and_store stores selected.1 input s
