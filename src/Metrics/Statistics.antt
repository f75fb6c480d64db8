-- ===== src/Metrics/Statistics.antt =====
-- internal/metrics/compute.go: the statistics of a slice of outcomes.
use mathlib.Core.List.{foldl}
use solana_token_lab.Base.{zero, suc, Bool, not, ◌&&◌, ◌||◌, List, [], ◌∷◌, if◌then◌else◌}
use solana_token_lab.Base.Int.{ℤ, pos, negsuc, add64, sub64, leb_ℤ}
use solana_token_lab.Base.Lists.{length}
use solana_token_lab.Base.Sort.{sort_slice}
use solana_token_lab.Result.{Result, ok, err, ◌>>=◌, Error}
use solana_token_lab.Float64.{Float64, ◌+F◌, ◌-F◌, ◌*F◌, ◌/F◌, ◌<F◌, ◌≤F◌, whole}

-- `xs[i]`
unfoldable pub element : {A : Type 0} → List A → ℤ → Result A
element xs (negsuc n) = err Error.index_out_of_range
element [] (pos n) = err Error.index_out_of_range
element (x ∷ xs) (pos zero) = ok x
element (x ∷ xs) (pos (suc n)) = element xs (pos n)

module _ {F : Type 0} ⦃d : Float64 F⦄ where
  -- The order of `sort.Float64s`: NaN, which is not `<=` itself, comes first.
  pub float_less : F → F → Bool
  float_less a b = (a <F b) || (not (a ≤F a) && (b ≤F b))

  unfoldable pub sort_floats : List F → List F
  unfolding float_less sort_slice
  sort_floats = sort_slice float_less

  unfoldable pub compute_mean : List F → F
  compute_mean [] = whole 0
  compute_mean (o ∷ os) =
      foldl (λ sum x. sum +F x) (whole 0) (o ∷ os) /F d.of_int (pos (length (o ∷ os)))

  unfoldable pub compute_stddev : List F → F → F
  unfolding sub64
  compute_stddev [] mean = whole 0
  compute_stddev (o ∷ []) mean = whole 0
  compute_stddev (o ∷ p ∷ rest) mean =
      let outcomes = o ∷ p ∷ rest in
      let sum_sq = foldl (λ sum x. sum +F (x -F mean) *F (x -F mean)) (whole 0) outcomes in
      d.sqrt (sum_sq /F d.of_int (sub64 (pos (length outcomes)) (pos 1)))

  -- The interpolation between two neighbours of a sorted slice of at least two.
  unfoldable pub interpolate : List F → ℤ → F → Result F
  unfolding add64 sub64 element
  interpolate sorted n p = do
    let idx = p *F d.of_int (sub64 n (pos 1))
    let lower = d.to_int idx
    let upper = add64 lower (pos 1)
    let frac = idx -F d.of_int lower
    let between = do
      low ← element sorted lower
      high ← element sorted upper
      ok (low +F frac *F (high -F low))
    if leb_ℤ n upper then element sorted (sub64 n (pos 1)) else between

  unfoldable pub compute_percentile : List F → F → Result F
  unfolding interpolate
  compute_percentile [] p = ok (whole 0)
  compute_percentile (x ∷ []) p = ok x
  compute_percentile (x ∷ y ∷ rest) p = interpolate (x ∷ y ∷ rest) (pos (length (x ∷ y ∷ rest))) p

  -- The loop over the outcomes: the cumulative outcome, its peak and the greatest drawdown.
  unfoldable pub drawdown_loop : F → F → F → List F → F
  drawdown_loop cumulative peak max_drawdown [] = max_drawdown
  drawdown_loop cumulative peak max_drawdown (o ∷ os) =
      let cumulative' = cumulative +F o in
      let peak' = if peak <F cumulative' then cumulative' else peak in
      let drawdown = peak' -F cumulative' in
      let max_drawdown' = if max_drawdown <F drawdown then drawdown else max_drawdown in
      drawdown_loop cumulative' peak' max_drawdown' os

  unfoldable pub compute_max_drawdown : List F → F
  unfolding drawdown_loop
  compute_max_drawdown [] = whole 0
  compute_max_drawdown (o ∷ os) = drawdown_loop (whole 0) (whole 0) (whole 0) (o ∷ os)
