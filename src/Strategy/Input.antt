-- ===== src/Strategy/Input.antt =====
-- internal/strategy/strategy.go: `StrategyInput`, its validation, and canonical strategy types.
use solana_token_lab.Base.{
  ◌≡◌, Bool, not, List, [], ◌∷◌, Option, none, some, String, same_text, if◌then◌else◌, arith, true,
  false,
}
use solana_token_lab.Base.Int.{ℤ, pos, leb_ℤ}
use solana_token_lab.Base.Text.{has_prefix}
use solana_token_lab.Result.{Result, ok, err, ◌>>◌, require, Error}
use solana_token_lab.Float64.{Float64, ◌≤F◌, whole}
use solana_token_lab.Domain.{
  PriceTimeseriesPoint, LiquidityTimeseriesPoint, ScenarioConfig, strategy_type_time_exit,
  strategy_type_trailing_stop, strategy_type_liquidity_guard,
}

pub record StrategyInput (F : Type 0) : Type 0 where
  pub candidate_id : String
  pub entry_signal_time : ℤ
  pub entry_signal_price : F
  pub entry_liquidity : Option F
  pub price_timeseries : List (PriceTimeseriesPoint F)
  pub liquidity_timeseries : List (LiquidityTimeseriesPoint F)
  pub scenario : ScenarioConfig F

-- `len(xs) == 0`
abbrev pub is_empty {ℓ} : {A : Type ℓ} → List A → Bool
is_empty [] = true
is_empty (x ∷ xs) = false

module _ {F : Type 0} ⦃d : Float64 F⦄ where
  unfoldable pub validate_fields : StrategyInput F → Result (Unit {0})
  validate_fields s = do
    require (not (same_text s.candidate_id "")) Error.empty_candidate_id
    require (not (leb_ℤ s.entry_signal_time (pos 0))) Error.invalid_signal_time
    require (not (s.entry_signal_price ≤F whole 0)) Error.invalid_signal_price
    require (not (is_empty s.price_timeseries)) Error.empty_price_timeseries
    require (not (same_text s.scenario.scenario_id "")) Error.empty_scenario_id

  -- `none` is a nil pointer.
  unfoldable pub validate : Option (StrategyInput F) → Result (Unit {0})
  unfolding validate_fields
  validate none = err Error.input_is_nil
  validate (some s) = validate_fields s

  -- Validation succeeds exactly on inputs with a candidate, a positive time, a price that is not at
  -- most zero, at least one price point and a scenario.
  pub record IsUsable (s : StrategyInput F) : Type 0 where
    pub candidate : same_text s.candidate_id "" ≡ false
    pub time : leb_ℤ s.entry_signal_time (pos 0) ≡ false
    pub price : (s.entry_signal_price ≤F whole 0) ≡ false
    pub prices : is_empty s.price_timeseries ≡ false
    pub named : same_text s.scenario.scenario_id "" ≡ false

  pub validate-IsUsable : (s : StrategyInput F) → validate (some s) ≡ ok tt → IsUsable s
  unfolding validate
  validate-IsUsable s h = ground arith

  pub IsUsable-validate : (s : StrategyInput F) → IsUsable s → validate (some s) ≡ ok tt
  unfolding validate
  IsUsable-validate s h = ground arith

unfoldable pub canonical_type : String → String
unfolding has_prefix
canonical_type strategy_id =
    if has_prefix strategy_type_time_exit strategy_id
    then strategy_type_time_exit
    else if has_prefix strategy_type_trailing_stop strategy_id
    then strategy_type_trailing_stop
    else if has_prefix strategy_type_liquidity_guard strategy_id
    then strategy_type_liquidity_guard
    else strategy_id
