-- ===== src/Strategy/TrailingStop/Trade.antt =====
-- The trade of a trailing stop, read off its result.
use mathlib.Core.Path.{subst}
use solana_token_lab.Base.{
  ◌≡◌, refl, sym, ap, ◌∙◌, List, [], ◌∷◌, ◌++◌, true, false, Option, none, some, String, arith, inl,
  inr, ◌⊎◌, Option-cases,
}
use solana_token_lab.Base.Int.{ℤ, add64, sub64, leb_ℤ}
use solana_token_lab.Result.{ok, >>=-eq-ok, ok_injective}
use solana_token_lab.Float64.{Float64, IsOrdered, ◌≤F◌, ◌-F◌, ◌*F◌, whole}
use solana_token_lab.Domain.{
  PriceTimeseriesPoint, TradeRecord, exit_reason_initial_stop, exit_reason_trailing_stop,
  exit_reason_max_duration,
}
use solana_token_lab.Lookup.{price_at}
use solana_token_lab.Strategy.Input.{StrategyInput, validate}
use solana_token_lab.Strategy.Execution.{ExitSignal, exit_at, build_trade_record}
use solana_token_lab.Strategy.TrailingStop.{
  TrailingStopStrategy, execute_trailing_stop, trailing_loop, exit_or_max_duration, check_exit,
  trailing_stop_id,
}
use solana_token_lab.Strategy.TrailingStop.Laws.{
  trailing_loop_first, trailing_loop-none, trailing_loop-none_peak, FirstExit,
}
use solana_token_lab.Strategy.TrailingStop.Peak.{
  IsHighest, peak_of-IsHighest, peak_of-snoc, Untriggered, Quiet-Untriggered,
}

module _ {F : Type 0} ⦃d : Float64 F⦄ where
  -- What an exit found by the tests says of the point, the initial stop and the peak.
  abbrev pub Reason : TrailingStopStrategy F → ℤ → F → F → ExitSignal F → Type 0
  Reason s entry_time initial_stop peak exit =
      ((exit.reason ≡ exit_reason_initial_stop) × ((exit.price ≤F initial_stop) ≡ true))
      ⊎ ((exit.reason ≡ exit_reason_trailing_stop)
          × ((exit.price ≤F initial_stop) ≡ false)
          × ((exit.price ≤F peak *F (whole 1 -F s.trail_pct)) ≡ true))
      ⊎ ((exit.reason ≡ exit_reason_max_duration)
          × ((exit.price ≤F initial_stop) ≡ false)
          × ((exit.price ≤F peak *F (whole 1 -F s.trail_pct)) ≡ false)
          × (leb_ℤ s.max_hold_duration_ms (sub64 exit.time entry_time) ≡ true))

  check_exit-Reason :
      (s : TrailingStopStrategy F) (entry_time : ℤ) (initial_stop peak : F)
      (p : PriceTimeseriesPoint F) {exit : ExitSignal F}
      → check_exit s entry_time initial_stop peak p ≡ some exit
      → (exit.time ≡ p.timestamp_ms)
        × (exit.price ≡ p.price)
        × Reason s entry_time initial_stop peak exit
  unfolding check_exit
  check_exit-Reason s entry_time initial_stop peak p h = ground arith

  module _ (s : TrailingStopStrategy F) (input : StrategyInput F) where
    abbrev pub stop_price : F
    stop_price = input.entry_signal_price *F (whole 1 -F s.initial_stop_pct)

    abbrev pub end_of_hold : ℤ
    end_of_hold = add64 input.entry_signal_time s.max_hold_duration_ms

    abbrev run : F × Option (ExitSignal F)
    run =
        trailing_loop s input.entry_signal_time stop_price input.entry_signal_price
          input.price_timeseries

    -- The exit at a price point after entry, the first that triggers.
    pub record Triggered (peak : F) (exit : ExitSignal F) : Type 0 where
      pub before : List (PriceTimeseriesPoint F)
      pub point : PriceTimeseriesPoint F
      pub after : List (PriceTimeseriesPoint F)
      pub split : input.price_timeseries ≡ before ++ (point ∷ after)
      pub untriggered :
          Untriggered input.entry_signal_time s stop_price input.entry_signal_price before
      pub after_entry : leb_ℤ point.timestamp_ms input.entry_signal_time ≡ false
      pub highest :
          IsHighest input.entry_signal_time input.entry_signal_price (before ++ (point ∷ [])) peak
      pub time : exit.time ≡ point.timestamp_ms
      pub price : exit.price ≡ point.price
      pub reason : Reason s input.entry_signal_time stop_price peak exit

    -- Either the first trigger, or the price at the end of the hold.
    abbrev pub Exits : F → ExitSignal F → Type 0
    Exits peak exit =
        Triggered peak exit
        ⊎ (Untriggered input.entry_signal_time s stop_price input.entry_signal_price
              input.price_timeseries
            × IsHighest input.entry_signal_time input.entry_signal_price input.price_timeseries peak
            × (exit.time ≡ end_of_hold)
            × (price_at end_of_hold input.price_timeseries ≡ ok exit.price)
            × (exit.reason ≡ exit_reason_max_duration))

    module _ (ordered : IsOrdered F)
        (number : (input.entry_signal_price ≤F input.entry_signal_price) ≡ true) where
      FirstExit-Triggered :
          (peak : F) (exit : ExitSignal F)
          → FirstExit s input.entry_signal_time stop_price input.entry_signal_price
              input.price_timeseries peak exit
          → Triggered peak exit
      FirstExit-Triggered peak exit first =
          let t = input.entry_signal_time in
          let price = input.entry_signal_price in
          let upto = first.before ++ (first.point ∷ []) in
          let same =
            first.peak_then
            ∙ sym (peak_of-snoc t s stop_price price first.before first.point first.after_entry) in
          let (time, at_price, reason) =
            check_exit-Reason s t stop_price peak first.point first.triggers in
          record {
            before = first.before;
            point = first.point;
            after = first.after;
            split = first.split;
            untriggered =
                Quiet-Untriggered t s stop_price price ordered number first.before
                  first.quiet_before;
            after_entry = first.after_entry;
            highest =
                subst (IsHighest t price upto) (sym same)
                  (peak_of-IsHighest t ordered s stop_price price upto number);
            time = time;
            price = at_price;
            reason = reason;
          }

      exit_or_max_duration-Exits :
          {exit : ExitSignal F}
          → exit_or_max_duration run.1 end_of_hold input.price_timeseries ≡ ok exit
          → Exits run.0 exit
      unfolding exit_or_max_duration
      exit_or_max_duration-Exits {exit} h = elim (Option-cases run.1) [
        | inl e ↦
            let t = input.entry_signal_time in
            let price = input.entry_signal_price in
            let points = input.price_timeseries in
            let (v, p, q) =
              >>=-eq-ok (price_at end_of_hold points) _ (rw (e, exit_or_max_duration) at h) in
            let same : exit_at end_of_hold v exit_reason_max_duration ≡ exit = cc in
            let silent =
              Quiet-Untriggered t s stop_price price ordered number points
                (trailing_loop-none s t stop_price price points e) in
            let highest =
              subst (IsHighest t price points)
                (sym (trailing_loop-none_peak s t stop_price price points e))
                (peak_of-IsHighest t ordered s stop_price price points number) in
            rw (← same) (inr (silent, highest, refl, p, refl))
        | inr (x, e) ↦
            let found : ok x ≡ ok exit = rw (e, exit_or_max_duration) at h in
            let same : x ≡ exit = cc in
            inl (
              FirstExit-Triggered run.0 exit (
                trailing_loop_first s input.entry_signal_time stop_price input.entry_signal_price
                  input.price_timeseries (e ∙ ap some same)))
      ]

    -- The exit that a trade records.
    abbrev pub exit_of : TradeRecord F → ExitSignal F
    exit_of trade = exit_at trade.exit_signal_time trade.exit_signal_price trade.exit_reason

    module _ (sha256_hex : String → String) where
      -- The trade of a trailing stop, where the comparisons are those of IEEE 754 and the price at entry is not
      -- NaN, records the entry of its input and a peak price: the highest of the price at entry and the
      -- prices after entry up to the exit. The exit is the first price point after entry that triggers: at none
      -- before it is the price at or below the initial stop or at or below the trailing stop under the highest
      -- price so far, or the longest hold over; its reason is the first of these three tests that
      -- holds. Or no point after entry triggers, and the exit is at the end of the longest hold, at the
      -- price then.
      pub execute_trailing_stop_trade :
          {trade : TradeRecord F}
          → IsOrdered F
          → (input.entry_signal_price ≤F input.entry_signal_price) ≡ true
          → execute_trailing_stop sha256_hex s (some input) ≡ ok trade
          → (trade.entry_signal_time ≡ input.entry_signal_time)
            × (trade.entry_signal_price ≡ input.entry_signal_price)
            × ((peak : F) × (trade.peak_price ≡ some peak) × Exits peak (exit_of trade))
      unfolding execute_trailing_stop build_trade_record
      execute_trailing_stop_trade {trade} ordered number h =
          let (_, _, rest) = >>=-eq-ok (validate (some input)) _ h in
          let (exit, e, done) =
            >>=-eq-ok (exit_or_max_duration run.1 end_of_hold input.price_timeseries) _ rest in
          let built =
            build_trade_record sha256_hex input.candidate_id (trailing_stop_id s)
              input.scenario.scenario_id input.entry_signal_time input.entry_signal_price
              input.entry_liquidity exit input.scenario (some run.0) none in
          let same : built ≡ trade = ok_injective built trade done in
          rw (← same) (refl, refl, (run.0, refl, exit_or_max_duration-Exits ordered number e))
