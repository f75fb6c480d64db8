-- ===== src/Strategy/Identity.antt =====
-- Strategies, their identifiers and their canonical types.
use solana_token_lab.Base.{◌≡◌, refl, ◌∙◌, arith, same_text_iff}
use solana_token_lab.Result.{ok}
use solana_token_lab.Float64.{Float64}
use solana_token_lab.Domain.{
  StrategyConfig, strategy_type_time_exit, strategy_type_trailing_stop,
  strategy_type_liquidity_guard,
}
use solana_token_lab.Strategy.Input.{canonical_type}
use solana_token_lab.Strategy.Factory.{
  Strategy, id, base_type, from_config, from_time_exit_config, from_trailing_stop_config,
  from_liquidity_guard_config,
}

module _ {F : Type 0} ⦃d : Float64 F⦄ where
  -- The canonical type that the aggregator reads off a strategy's identifier is the strategy's base
  -- type, whatever its parameters.
  pub canonical_type-id : (s : Strategy F) → canonical_type (id s) ≡ base_type s
  unfolding canonical_type id base_type
  canonical_type-id (Strategy.time_exit s) = refl
  canonical_type-id (Strategy.trailing_stop s) = refl
  canonical_type-id (Strategy.liquidity_guard s) = refl

  base_type-time_exit :
      (cfg : StrategyConfig F) {s : Strategy F}
      → from_time_exit_config cfg ≡ ok s
      → base_type s ≡ strategy_type_time_exit
  unfolding from_time_exit_config base_type
  base_type-time_exit cfg h = ground arith

  base_type-trailing_stop :
      (cfg : StrategyConfig F) {s : Strategy F}
      → from_trailing_stop_config cfg ≡ ok s
      → base_type s ≡ strategy_type_trailing_stop
  unfolding from_trailing_stop_config base_type
  base_type-trailing_stop cfg h = ground arith

  base_type-liquidity_guard :
      (cfg : StrategyConfig F) {s : Strategy F}
      → from_liquidity_guard_config cfg ≡ ok s
      → base_type s ≡ strategy_type_liquidity_guard
  unfolding from_liquidity_guard_config base_type
  base_type-liquidity_guard cfg h = ground arith

  base_type-from_config :
      (cfg : StrategyConfig F) {s : Strategy F}
      → from_config cfg ≡ ok s
      → base_type s ≡ cfg.strategy_type
  unfolding from_config
  base_type-from_config cfg {s} h = ground (
    arith,
    same_text_iff cfg.strategy_type strategy_type_time_exit,
    same_text_iff cfg.strategy_type strategy_type_trailing_stop,
    same_text_iff cfg.strategy_type strategy_type_liquidity_guard,
    base_type-time_exit cfg {s = s},
    base_type-trailing_stop cfg {s = s},
    base_type-liquidity_guard cfg {s = s},
  )

  -- A strategy that the factory makes has the configured type as its base type, and its identifier
  -- has it as its canonical type.
  pub from_config-type :
      (cfg : StrategyConfig F) {s : Strategy F}
      → from_config cfg ≡ ok s
      → (base_type s ≡ cfg.strategy_type) × (canonical_type (id s) ≡ cfg.strategy_type)
  from_config-type cfg {s} h =
      let base = base_type-from_config cfg h in (base, canonical_type-id s ∙ base)
