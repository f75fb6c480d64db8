-- ===== src/Examples/Scores.antt =====
-- Statistics of sample trades.
use mathlib.Core.List.Permᴰ
use solana_token_lab.Base.{false, true, same_text_iff, List, ℕ, arith, ◌≡◌, ◌≤◌, refl, [], ◌∷◌}
use solana_token_lab.Base.Int.{pos, sub64}
use solana_token_lab.Result.{ok}
use solana_token_lab.Float64.Micros
use solana_token_lab.Float64.Micros.{Micros, micros_float64}
use solana_token_lab.Domain.{TradeRecord, StrategyAggregate}
use solana_token_lab.Metrics.{compare_trades, compute_from_trades, compute_max_consecutive_losses}
use solana_token_lab.Metrics.Laws.{
  Distinct, Counts, compute_from_trades-perm, compute_from_trades_total,
}
use solana_token_lab.Metrics.Streaks.{HasStreak, compute_max_consecutive_losses_longest}
use solana_token_lab.Float64.{whole}
use solana_token_lab.Float64.Micros.{Micros-IsOrdered}
use solana_token_lab.Base.Int.{negsuc}
use solana_token_lab.Metrics.Statistics.{compute_max_drawdown, drawdown_loop}
use solana_token_lab.Metrics.Drawdown.{Greatest, drawdowns, compute_max_drawdown-Greatest}
use solana_token_lab.Examples.Samples.{units, scored}

abbrev won : TradeRecord Micros
won = scored (pos 10) "a" (units (pos 5)) "WIN"

abbrev lost : TradeRecord Micros
lost = scored (pos 10) "b" (units (pos 0)) "LOSS"

named_apart : Distinct won lost
named_apart (t, i) = let same : false ≡ true = (same_text_iff "a" "b").1 i in cc

compute_from_trades-perm_example :
    compute_from_trades (won ∷ lost ∷ []) "NEW_TOKEN"
    ≡ compute_from_trades (lost ∷ won ∷ []) "NEW_TOKEN"
unfolding compare_trades
compute_from_trades-perm_example =
    compute_from_trades-perm "NEW_TOKEN" (Permᴰ.swap refl refl) ((named_apart, tt), (tt, tt))

compute_from_trades_total_example :
    (agg : StrategyAggregate Micros) × (compute_from_trades (won ∷ lost ∷ []) "NEW_TOKEN" ≡ ok agg)
    × Counts 2 agg
unfolding Micros.mul Micros.literal Micros.of_int Micros.to_int sub64
compute_from_trades_total_example =
    compute_from_trades_total won (lost ∷ []) "NEW_TOKEN" (omega arith) (
      (0, refl, omega arith),
      (
        (0, refl, omega arith),
        ((0, refl, omega arith), ((0, refl, omega arith), ((0, refl, omega arith), tt))),
      ),
    )

compute_max_consecutive_losses_longest_example :
    (n : ℕ) × (compute_max_consecutive_losses (lost ∷ won ∷ lost ∷ lost ∷ []) ≡ pos n)
    × HasStreak n (lost ∷ won ∷ lost ∷ lost ∷ [])
    × ((k : ℕ) → HasStreak k (lost ∷ won ∷ lost ∷ lost ∷ []) → k ≤ n)
compute_max_consecutive_losses_longest_example =
    compute_max_consecutive_losses_longest (lost ∷ won ∷ lost ∷ lost ∷ []) (omega arith)

-- Up by 9, down by 5, up by 1.
abbrev outcomes : List Micros
outcomes = units (pos 9) ∷ units (negsuc 4) ∷ units (pos 1) ∷ []

fall : compute_max_drawdown outcomes ≡ units (pos 5)
unfolding compute_max_drawdown drawdown_loop Micros.add Micros.sub Micros.literal
fall = refl

compute_max_drawdown-Greatest_example :
    Greatest (whole 0) (drawdowns (whole 0) (whole 0) outcomes) (compute_max_drawdown outcomes)
compute_max_drawdown-Greatest_example = compute_max_drawdown-Greatest Micros-IsOrdered outcomes
