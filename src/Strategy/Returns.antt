-- ===== src/Strategy/Returns.antt =====
-- The inputs on which a strategy of internal/strategy returns a trade.

use mathlib.Core.Path.{subst}
use solana_token_lab.Base.{◌≡◌, refl, ◌↔◌, Option, none, some, String}
use solana_token_lab.Result.{ok, >>=-eq-ok}
use solana_token_lab.Float64.{Float64}
use solana_token_lab.Domain.{TradeRecord}
use solana_token_lab.Strategy.Input.{
  StrategyInput, validate, validate-IsUsable, IsUsable, IsUsable-validate,
}
use solana_token_lab.Strategy.LiquidityGuard.{execute_liquidity_guard}
use solana_token_lab.Strategy.TimeExit.{execute_time_exit}
use solana_token_lab.Strategy.TrailingStop.{execute_trailing_stop}
use solana_token_lab.Strategy.Factory.{Strategy, execute}
use solana_token_lab.Strategy.Results.{execute_time_exit_total, execute_trailing_stop_total}
use solana_token_lab.Strategy.Guarded.{HasLiquidity, Followed, guard_returns, guard_wants}

module _ {F : Type 0} ⦃d : Float64 F⦄ where
  -- What a strategy wants of an input that passes validation.
  abbrev pub Wants : Strategy F → StrategyInput F → Type 0
  Wants (Strategy.time_exit s) i = Unit
  Wants (Strategy.trailing_stop s) i = Unit
  Wants (Strategy.liquidity_guard s) i = HasLiquidity i × Followed i

  module _ (sha256_hex : String → String) where
    execute_nil :
        (strategy : Strategy F) (trade : TradeRecord F)
        → ¬ (execute sha256_hex strategy none ≡ ok trade)
    unfolding execute execute_time_exit execute_trailing_stop execute_liquidity_guard validate
    execute_nil (Strategy.time_exit s) trade h = cc
    execute_nil (Strategy.trailing_stop s) trade h = cc
    execute_nil (Strategy.liquidity_guard s) trade h = cc

    -- A strategy returns a trade exactly on an input that is not nil, has a candidate, a positive time and a
    -- price at entry that is not at most zero, at least one price point and a scenario, and, for the liquidity
    -- guard, a liquidity at entry of its own or in its series, and a liquidity point unless no price
    -- comes after entry. On any other it returns an error.
    pub execute_returns_iff :
        (strategy : Strategy F) (input : Option (StrategyInput F))
        → ((trade : TradeRecord F) × (execute sha256_hex strategy input ≡ ok trade))
          ↔ ((i : StrategyInput F) × (input ≡ some i) × IsUsable i × Wants strategy i)
    unfolding execute execute_time_exit execute_trailing_stop execute_liquidity_guard
    execute_returns_iff strategy none =
        (λ (trade, h). absurd (execute_nil strategy trade h), λ (i, e, h, k). absurd cc)
    execute_returns_iff (Strategy.time_exit s) (some i) = (
      λ (trade, h).
          let (_, valid, _) = >>=-eq-ok (validate (some i)) _ h in
          (i, refl, validate-IsUsable i valid, tt),
      λ (j, e, h, _).
          let same : j ≡ i = cc in
          execute_time_exit_total sha256_hex s i (IsUsable-validate i (subst IsUsable same h)),
    )
    execute_returns_iff (Strategy.trailing_stop s) (some i) = (
      λ (trade, h).
          let (_, valid, _) = >>=-eq-ok (validate (some i)) _ h in
          (i, refl, validate-IsUsable i valid, tt),
      λ (j, e, h, _).
          let same : j ≡ i = cc in
          execute_trailing_stop_total sha256_hex s i (IsUsable-validate i (subst IsUsable same h)),
    )
    execute_returns_iff (Strategy.liquidity_guard s) (some i) = (
      λ (trade, h).
          let (_, valid, _) = >>=-eq-ok (validate (some i)) _ h in
          (i, refl, validate-IsUsable i valid, guard_wants sha256_hex s i trade h),
      λ (j, e, h, (k, followed)).
          let same : j ≡ i = cc in
          guard_returns sha256_hex s i (subst IsUsable same h) (subst HasLiquidity same k)
            (subst Followed same followed),
    )
