-- ===== src/Simulation/Runs.antt =====
-- What the parts of a simulation have done when they return (internal/simulation/runner.go).
use mathlib.Core.Path.{subst}
use solana_token_lab.Base.{◌≡◌, refl, Bool, true, some, String, arith}
use solana_token_lab.Result.{ok, require, Error, >>=-eq-ok, ok_injective}
use solana_token_lab.Float64.{Float64}
use solana_token_lab.Domain.{TokenCandidate, ScenarioConfig, StrategyConfig, TradeRecord}
use solana_token_lab.Lookup.{price_at, liquidity_at}
use solana_token_lab.Strategy.Input.{StrategyInput, validate}
use solana_token_lab.Strategy.Factory.{Strategy, from_config, execute}
use solana_token_lab.Simulation.{
  Stores, source_matches, persist, simulation_input, select, load_input, execute_and_store,
}

require-true : (b : Bool) (e : Error) → require b e ≡ ok tt → b ≡ true
require-true b e h = ground arith

module _ {F S : Type 0} where
  -- The candidate and the strategy of a run.
  pub record Selected (stores : Stores F S) (candidate_id : String) (cfg : StrategyConfig F)
      (candidate : TokenCandidate) (strategy : Strategy F) : Type 0 where
    pub stored : stores.candidate_by_id candidate_id ≡ ok candidate
    pub configured : from_config cfg ≡ ok strategy
    pub source : source_matches candidate.source cfg.entry_event_type ≡ true

  pub select-Selected :
      (stores : Stores F S) (candidate_id : String) (cfg : StrategyConfig F)
      (out : TokenCandidate × Strategy F)
      → select stores candidate_id cfg ≡ ok out
      → Selected stores candidate_id cfg out.0 out.1
  unfolding select
  select-Selected stores candidate_id cfg out h =
      let (candidate, stored, h1) = >>=-eq-ok (stores.candidate_by_id candidate_id) _ h in
      let (strategy, configured, h2) = >>=-eq-ok (from_config cfg) _ h1 in
      let (_, matched, h3) =
        >>=-eq-ok (require (source_matches candidate.source cfg.entry_event_type) _) _ h2 in
      let same : (candidate, strategy) ≡ out = ok_injective (candidate, strategy) out h3 in
      subst (λ (o : TokenCandidate × Strategy F). Selected stores candidate_id cfg o.0 o.1) same
        (record { stored = stored; configured = configured; source = require-true _ _ matched })

module _ {F S : Type 0} ⦃d : Float64 F⦄ where
  -- The input of a run: the stored series, and the entry at the time of discovery with the price and
  -- the liquidity that the series have then.
  pub record Loaded (stores : Stores F S) (candidate_id : String) (scenario : ScenarioConfig F)
      (candidate : TokenCandidate) (input : StrategyInput F) : Type 0 where
    pub prices : stores.prices_by_candidate_id candidate_id ≡ ok input.price_timeseries
    pub liquidity : stores.liquidity_by_candidate_id candidate_id ≡ ok input.liquidity_timeseries
    pub time : input.entry_signal_time ≡ candidate.discovered_at
    pub price :
        price_at candidate.discovered_at input.price_timeseries ≡ ok input.entry_signal_price
    pub entry_liquidity :
        liquidity_at candidate.discovered_at input.liquidity_timeseries ≡ ok input.entry_liquidity
    pub named : input.candidate_id ≡ candidate_id
    pub scenario_eq : input.scenario ≡ scenario
    pub valid : validate (some input) ≡ ok tt

  pub load_input-Loaded :
      (stores : Stores F S) (candidate_id : String) (scenario : ScenarioConfig F)
      (candidate : TokenCandidate) (out : StrategyInput F)
      → load_input stores candidate_id scenario candidate ≡ ok out
      → Loaded stores candidate_id scenario candidate out
  unfolding load_input
  load_input-Loaded stores candidate_id scenario candidate out h =
      let (prices, p, h1) = >>=-eq-ok (stores.prices_by_candidate_id candidate_id) _ h in
      let (liquidity, l, h2) = >>=-eq-ok (stores.liquidity_by_candidate_id candidate_id) _ h1 in
      let (price, e, h3) = >>=-eq-ok (price_at candidate.discovered_at prices) _ h2 in
      let (entry_liquidity, el, h4) =
        >>=-eq-ok (liquidity_at candidate.discovered_at liquidity) _ h3 in
      let input =
        simulation_input candidate_id candidate prices liquidity price entry_liquidity scenario in
      let (_, valid, h5) = >>=-eq-ok (validate (some input)) _ h4 in
      let same : input ≡ out = ok_injective input out h5 in
      subst (Loaded stores candidate_id scenario candidate) same (record {
        prices = p;
        liquidity = l;
        time = refl;
        price = e;
        entry_liquidity = el;
        named = refl;
        scenario_eq = refl;
        valid = valid;
      })

  module _ (sha256_hex : String → String) where
    pub execute_and_store_ok :
        (stores : Stores F S) (strategy : Strategy F) (input : StrategyInput F) (s : S)
        (out : TradeRecord F × S)
        → execute_and_store sha256_hex stores strategy input s ≡ ok out
        → (execute sha256_hex strategy (some input) ≡ ok out.0)
          × (persist stores.insert_trade out.0 s ≡ ok out.1)
    unfolding execute_and_store
    execute_and_store_ok stores strategy input s out h =
        let (trade, executed, h1) = >>=-eq-ok (execute sha256_hex strategy (some input)) _ h in
        let (after, persisted, h2) = >>=-eq-ok (persist stores.insert_trade trade s) _ h1 in
        subst
          (λ (o : TradeRecord F × S).
            (execute sha256_hex strategy (some input) ≡ ok o.0)
            × (persist stores.insert_trade o.0 s ≡ ok o.1))
          (ok_injective (trade, after) out h2) (executed, persisted)
