-- ===== src/Strategy/Guarded.antt =====
-- The inputs on which the liquidity guard (internal/strategy/liquidity_guard.go) returns a trade.
use mathlib.Core.List.Permᴰ
use solana_token_lab.Base.{
  ◌≡◌, refl, ◌∙◌, inl, inr, ◌⊎◌, ◌↔◌, false, true, Bool-cases, Option-cases, List, [], ◌∷◌, ◌++◌,
  map, Option, none, some, String, arith,
}
use solana_token_lab.Base.Int.{ℤ, leb_ℤ, add64}
use solana_token_lab.Base.Lists.{All, All-perm}
use solana_token_lab.Base.Sort.{sort_slice-perm}
use solana_token_lab.Result.{ok, err, >>=-eq-ok, Result-cases, Error}
use solana_token_lab.Float64.{Float64, ◌-F◌, ◌*F◌, whole}
use solana_token_lab.Domain.{TradeRecord, PriceTimeseriesPoint, LiquidityTimeseriesPoint}
use solana_token_lab.Lookup.{last_such, price_at, liquidity_at}
use solana_token_lab.Strategy.Input.{StrategyInput, validate, IsUsable, IsUsable-validate, is_empty}
use solana_token_lab.Strategy.Execution.{ExitSignal, build_trade_record}
use solana_token_lab.Strategy.LiquidityGuard.{
  LiquidityGuardStrategy, MergedEvent, of_price, lower_min, check_guard, guard_loop,
  find_entry_liquidity, merge_price_and_liquidity, execute_liquidity_guard, merged_less,
  liquidity_guard_id,
}
use solana_token_lab.Strategy.Results.{price_at_total, exit_or_max_duration_total}

liquidity_at_total :
    {F : Type 0} (t : ℤ) (ls : List (LiquidityTimeseriesPoint F))
    → is_empty ls ≡ false
    → (found : Option F) × (liquidity_at t ls ≡ ok found)
unfolding liquidity_at
liquidity_at_total t [] h = absurd (ground arith)
liquidity_at_total {F} t (l ∷ ls) h =
    let before = λ (q : LiquidityTimeseriesPoint F). leb_ℤ q.timestamp_ms t in
    elim (Option-cases (last_such before (l ∷ ls))) [
      | inl e ↦ (none, rw (e, liquidity_at) refl)
      | inr (q, e) ↦ (some q.liquidity, rw (e, liquidity_at) refl)
    ]

is_empty-eq : {A : Type 0} (xs : List A) → is_empty xs ≡ true → xs ≡ []
is_empty-eq [] h = refl
is_empty-eq (x ∷ xs) h = absurd (ground arith)

module _ {F : Type 0} ⦃d : Float64 F⦄ where
  -- The liquidity at entry is in the input or, if not there, in its series.
  abbrev pub HasLiquidity : StrategyInput F → Type 0
  HasLiquidity i =
      ((l : F) × (i.entry_liquidity ≡ some l))
      ⊎ ((i.entry_liquidity ≡ none)
          × ((l : F) × (liquidity_at i.entry_signal_time i.liquidity_timeseries ≡ ok (some l))))

  -- There is a point of liquidity, or no point of the series comes after entry.
  abbrev pub Followed : StrategyInput F → Type 0
  Followed i =
      (is_empty i.liquidity_timeseries ≡ false)
      ⊎ ((i.liquidity_timeseries ≡ [])
          × All (λ (p : PriceTimeseriesPoint F). leb_ℤ p.timestamp_ms i.entry_signal_time ≡ true)
              i.price_timeseries)

  find_entry_liquidity_iff :
      (i : StrategyInput F) → ((l : F) × (find_entry_liquidity i ≡ ok l)) ↔ HasLiquidity i
  unfolding find_entry_liquidity
  find_entry_liquidity_iff i = (
    λ (l, h). elim (Option-cases i.entry_liquidity) [
      | inr (x, e) ↦ inl (x, e)
      | inl e ↦ elim (Result-cases (liquidity_at i.entry_signal_time i.liquidity_timeseries)) [
        | inl (f, k) ↦ absurd (ground arith)
        | inr (none, k) ↦ absurd (ground arith)
        | inr (some x, k) ↦ inr (e, (x, k))
      ]
    ],
    λ h. elim h [ inl (x, e) ↦ (x, rw e refl) | inr (e, (x, k)) ↦ (x, rw (e, k) refl) ],
  )

  module _ (s : LiquidityGuardStrategy F) (i : StrategyInput F) (threshold : F) where
    abbrev Early : List MergedEvent → Type 0
    Early = All λ e. leb_ℤ e.timestamp_ms i.entry_signal_time ≡ true

    guard_loop_before_entry :
        (least : F) (es : List MergedEvent)
        → Early es
        → guard_loop s i threshold least es ≡ ok (least, none)
    unfolding guard_loop
    guard_loop_before_entry least [] h = refl
    guard_loop_before_entry least (e ∷ es) (h, hs) = rw h (guard_loop_before_entry least es hs)

    guard_loop-Early :
        (least : F) (es : List MergedEvent) (out : F × Option (ExitSignal F))
        → i.liquidity_timeseries ≡ []
        → guard_loop s i threshold least es ≡ ok out
        → Early es
    unfolding guard_loop liquidity_at
    guard_loop-Early least [] out h k = tt
    guard_loop-Early least (e ∷ es) out h k =
        elim (Bool-cases (leb_ℤ e.timestamp_ms i.entry_signal_time)) [
          | inl t ↦ (t, guard_loop-Early least es out h (rw (t, guard_loop) at k))
          | inr t ↦ let failed : err Error.no_liquidity_data ≡ ok out = rw (t, h) at k in absurd cc
        ]

    guard_loop_step :
        (least : F) (e : MergedEvent) (es : List MergedEvent) (l : Option F) (p : F)
        → leb_ℤ e.timestamp_ms i.entry_signal_time ≡ false
        → liquidity_at e.timestamp_ms i.liquidity_timeseries ≡ ok l
        → price_at e.timestamp_ms i.price_timeseries ≡ ok p
        → guard_loop s i threshold least (e ∷ es)
          ≡ elim (check_guard s i.entry_signal_time threshold e.timestamp_ms l p) [
            | some exit ↦ ok (lower_min least l, some exit)
            | none ↦ guard_loop s i threshold (lower_min least l) es
          ]
    unfolding guard_loop
    guard_loop_step least e es l p r el ep = rw (r, el, ep) refl

    guard_loop_total :
        (least : F) (es : List MergedEvent)
        → is_empty i.liquidity_timeseries ≡ false
        → is_empty i.price_timeseries ≡ false
        → (out : F × Option (ExitSignal F)) × (guard_loop s i threshold least es ≡ ok out)
    unfolding guard_loop
    guard_loop_total least [] h k = ((least, none), refl)
    guard_loop_total least (e ∷ es) h k =
        let t = e.timestamp_ms in
        let (l, el) = liquidity_at_total t i.liquidity_timeseries h in
        let (p, ep) = price_at_total t i.price_timeseries k in
        let least' = lower_min least l in
        let (out, skipped) = guard_loop_total least es h k in
        let (out', rest) = guard_loop_total least' es h k in
        elim (Bool-cases (leb_ℤ t i.entry_signal_time)) [
          | inl r ↦ (out, rw (r, skipped) refl)
          | inr r ↦ elim (Option-cases (check_guard s i.entry_signal_time threshold t l p)) [
            | inl c ↦ (out', guard_loop_step least e es l p r el ep ∙ rw (c, rest) refl)
            | inr (exit, c) ↦
                ((least', some exit), guard_loop_step least e es l p r el ep ∙ rw c refl)
          ]
        ]

  early_prices :
      (i : StrategyInput F) (ps : List (PriceTimeseriesPoint F))
      → All
          (λ (e : MergedEvent). leb_ℤ e.timestamp_ms i.entry_signal_time ≡ true)
          (map of_price ps ++ [])
        ↔ All (λ (p : PriceTimeseriesPoint F). leb_ℤ p.timestamp_ms i.entry_signal_time ≡ true) ps
  early_prices i [] = (λ h. tt, λ h. tt)
  early_prices i (p ∷ ps) =
      let (to, from) = early_prices i ps in (λ (h, hs). (h, to hs), λ (h, hs). (h, from hs))

  -- Without liquidity the merged events are the prices.
  merged_early :
      (i : StrategyInput F)
      → i.liquidity_timeseries ≡ []
      → All
          (λ (e : MergedEvent). leb_ℤ e.timestamp_ms i.entry_signal_time ≡ true)
          (merge_price_and_liquidity i.price_timeseries i.liquidity_timeseries)
        ↔ All
            (λ (p : PriceTimeseriesPoint F). leb_ℤ p.timestamp_ms i.entry_signal_time ≡ true)
            i.price_timeseries
  unfolding merge_price_and_liquidity
  merged_early i h =
      let (to, from) = early_prices i i.price_timeseries in
      let P = λ (e : MergedEvent). leb_ℤ e.timestamp_ms i.entry_signal_time ≡ true in
      let d = sort_slice-perm merged_less (map of_price i.price_timeseries ++ []) in
      rw h (λ all. to (All-perm P d all), λ all. All-perm P (Permᴰ.symm d) (from all))

  module _ (sha256_hex : String → String) where
    pub guard_returns :
        (s : LiquidityGuardStrategy F) (i : StrategyInput F)
        → IsUsable i
        → HasLiquidity i
        → Followed i
        → (trade : TradeRecord F) × (execute_liquidity_guard sha256_hex s (some i) ≡ ok trade)
    unfolding execute_liquidity_guard
    guard_returns s i h k followed =
        let valid = IsUsable-validate i h in
        let (l, entry) = (find_entry_liquidity_iff i).1 k in
        let threshold = l *F (whole 1 -F s.liquidity_drop_pct) in
        let events = merge_price_and_liquidity i.price_timeseries i.liquidity_timeseries in
        let run : (out : F × Option (ExitSignal F)) × (guard_loop s i threshold l events ≡ ok out) =
          elim followed [
            | inl full ↦ guard_loop_total s i threshold l events full h.prices
            | inr (nothing, early) ↦ (
              (l, none),
              guard_loop_before_entry s i threshold l events ((merged_early i nothing).1 early),
            )
          ] in
        let t = add64 i.entry_signal_time s.max_hold_duration_ms in
        let (exit, found) = exit_or_max_duration_total run.0.1 t i.price_timeseries h.prices in
        (
          build_trade_record sha256_hex i.candidate_id (liquidity_guard_id s) i.scenario.scenario_id
              i.entry_signal_time i.entry_signal_price (some l) exit i.scenario none (some run.0.0),
          rw (valid, entry, run.1, found) refl,
        )

    pub guard_wants :
        (s : LiquidityGuardStrategy F) (i : StrategyInput F) (trade : TradeRecord F)
        → execute_liquidity_guard sha256_hex s (some i) ≡ ok trade
        → HasLiquidity i × Followed i
    unfolding execute_liquidity_guard
    guard_wants s i trade h =
        let (_, valid, h1) = >>=-eq-ok (validate (some i)) _ h in
        let (l, entry, h2) = >>=-eq-ok (find_entry_liquidity i) _ h1 in
        let (out, run, h3) = >>=-eq-ok (guard_loop s i _ l _) _ h2 in
        let followed : Followed i = elim (Bool-cases (is_empty i.liquidity_timeseries)) [
          | inr full ↦ inl full
          | inl bare ↦
              let nothing = is_empty-eq i.liquidity_timeseries bare in
              inr (nothing, (merged_early i nothing).0 (guard_loop-Early s i _ l _ out nothing run))
        ] in
        ((find_entry_liquidity_iff i).0 (l, entry), followed)
