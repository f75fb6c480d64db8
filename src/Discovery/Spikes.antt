-- ===== src/Discovery/Spikes.antt =====
-- The spikes of internal/discovery/active_detector.go: volume, swaps and liquidity of the last hour
-- against their averages over the last day, and the event that triggers.
pub mod Trigger
use solana_token_lab.Base.{
  Bool, true, false, not, ◌&&◌, ◌||◌, List, [], ◌∷◌, Option, none, some, String, same_text,
  if◌then◌else◌,
}
use solana_token_lab.Base.Sort.{less_of}
use solana_token_lab.Base.Int.{ℤ, pos, ltb_ℤ, leb_ℤ, eq_ℤ, add64, sub64}
use solana_token_lab.Base.Lists.{length}
use solana_token_lab.Float64.{Float64, ◌+F◌, ◌*F◌, ◌/F◌, ◌<F◌, whole}
use solana_token_lab.Domain.{SwapEvent, LiquidityEvent}
use solana_token_lab.Position.{Position, compare_position}
use solana_token_lab.Ingestion.Ordering.{swap_event_position, liquidity_position}

abbrev pub window_1h_ms : ℤ
window_1h_ms = pos 3_600_000

abbrev pub window_24h_ms : ℤ
window_24h_ms = pos 86_400_000

pub record ActiveTokenConfig (F : Type 0) : Type 0 where
  pub k_vol : F
  pub k_swaps : F
  pub k_liq : F
  pub window_1h : ℤ
  pub window_24h : ℤ

-- What the loop over the swaps of the day adds up.
pub record SwapTotals (F : Type 0) : Type 0 where
  pub volume_24h : F
  pub volume_1h : F
  pub swaps_1h_count : ℤ
  pub first_swap_time : ℤ

-- What the loop over the liquidity events of the day adds up.
pub record LiquidityTotals (F : Type 0) : Type 0 where
  pub total_abs_change : F
  pub liq_change_1h : F
  pub first_event_time : ℤ

-- The search for the trigger, which swaps and liquidity events share.
module _ {E : Type 0} (timestamp : E → ℤ) (key : E → Position) where
  -- Later, or at the same time at an earlier position.
  abbrev pub replaces : E → E → Bool
  replaces e trigger =
      ltb_ℤ (timestamp trigger) (timestamp e)
      || (eq_ℤ (timestamp e) (timestamp trigger) && less_of compare_position (key e) (key trigger))

  abbrev pub in_window : ℤ → ℤ → E → Bool
  in_window start_1h eval_timestamp e =
      leb_ℤ start_1h (timestamp e) && ltb_ℤ (timestamp e) eval_timestamp

  unfoldable pub find_trigger : ℤ → ℤ → Option E → List E → Option E
  find_trigger start_1h eval_timestamp trigger [] = trigger
  find_trigger start_1h eval_timestamp trigger (e ∷ es) =
      find_trigger start_1h eval_timestamp
        (if in_window start_1h eval_timestamp e
          then elim trigger [ none ↦ some e | some t ↦ if replaces e t then some e else some t ]
          else trigger)
        es

module _ {F : Type 0} where
  unfoldable pub find_trigger_swap : ℤ → ℤ → List (SwapEvent F) → Option (SwapEvent F)
  unfolding find_trigger
  find_trigger_swap start_1h eval_timestamp =
      find_trigger (λ e. e.timestamp) swap_event_position start_1h eval_timestamp none

  unfoldable pub find_trigger_liquidity_event :
      ℤ → ℤ → List (LiquidityEvent F) → Option (LiquidityEvent F)
  unfolding find_trigger
  find_trigger_liquidity_event start_1h eval_timestamp =
      find_trigger (λ e. e.timestamp) liquidity_position start_1h eval_timestamp none

  -- The time from the first event on, or the day's window if that is shorter; `none` if it is
  -- shorter than an hour.
  unfoldable pub actual_history : ActiveTokenConfig F → ℤ → ℤ → Option ℤ
  unfolding sub64
  actual_history config first_time eval_timestamp =
      let since = sub64 eval_timestamp first_time in
      let actual = if ltb_ℤ config.window_24h since then config.window_24h else since in
      if ltb_ℤ actual config.window_1h then none else some actual

  module _ ⦃d : Float64 F⦄ where
    abbrev pub default_active_config : ActiveTokenConfig F
    default_active_config = record {
      k_vol = whole 3;
      k_swaps = whole 5;
      k_liq = whole 2;
      window_1h = window_1h_ms;
      window_24h = window_24h_ms;
    }

    unfoldable pub swap_totals : ℤ → SwapTotals F → List (SwapEvent F) → SwapTotals F
    unfolding add64
    swap_totals start_1h t [] = t
    swap_totals start_1h t (swap ∷ swaps) =
        let recent = leb_ℤ start_1h swap.timestamp in
        swap_totals start_1h
          (record {
            volume_24h = t.volume_24h +F swap.amount_out;
            volume_1h = if recent then t.volume_1h +F swap.amount_out else t.volume_1h;
            swaps_1h_count = if recent then add64 t.swaps_1h_count (pos 1) else t.swaps_1h_count;
            first_swap_time =
                if ltb_ℤ swap.timestamp t.first_swap_time
                then swap.timestamp
                else t.first_swap_time;
          })
          swaps

    -- The volume spike, the spike of the swaps' number, and the trigger.
    unfoldable pub check_swap_spikes :
        ActiveTokenConfig F → List (SwapEvent F) → ℤ → ℤ → Bool × Bool × Option (SwapEvent F)
    unfolding swap_totals actual_history find_trigger_swap
    check_swap_spikes config [] start_1h eval_timestamp = (false, false, none)
    check_swap_spikes config (first ∷ swaps) start_1h eval_timestamp =
        let t : SwapTotals F =
          swap_totals start_1h
            (record {
              volume_24h = whole 0;
              volume_1h = whole 0;
              swaps_1h_count = pos 0;
              first_swap_time = first.timestamp;
            })
            (first ∷ swaps) in
        elim (actual_history config t.first_swap_time eval_timestamp) [
          | none ↦ (false, false, none)
          | some actual ↦
              let actual_hours = d.of_int actual /F d.of_int config.window_1h in
              let volume_24h_avg = t.volume_24h /F actual_hours in
              let swaps_24h_avg = d.of_int (pos (length (first ∷ swaps))) /F actual_hours in
              let volume_spike = config.k_vol *F volume_24h_avg <F t.volume_1h in
              let swaps_spike = config.k_swaps *F swaps_24h_avg <F d.of_int t.swaps_1h_count in
              if not volume_spike && not swaps_spike then (false, false, none) else (
                volume_spike,
                swaps_spike,
                find_trigger_swap start_1h eval_timestamp (first ∷ swaps),
              )
        ]

    abbrev pub change_of : LiquidityEvent F → F
    change_of e = if same_text e.event_type "remove" then d.neg e.amount_quote else e.amount_quote

    unfoldable pub liquidity_totals :
        ℤ → LiquidityTotals F → List (LiquidityEvent F) → LiquidityTotals F
    liquidity_totals start_1h t [] = t
    liquidity_totals start_1h t (e ∷ es) =
        let change = d.abs (change_of e) in
        liquidity_totals start_1h
          (record {
            total_abs_change = t.total_abs_change +F change;
            liq_change_1h =
                if leb_ℤ start_1h e.timestamp then t.liq_change_1h +F change else t.liq_change_1h;
            first_event_time =
                if ltb_ℤ e.timestamp t.first_event_time then e.timestamp else t.first_event_time;
          })
          es

    -- The spike, and the trigger.
    unfoldable pub check_liquidity_changes :
        ActiveTokenConfig F → List (LiquidityEvent F) → ℤ → ℤ → Bool × Option (LiquidityEvent F)
    unfolding liquidity_totals actual_history find_trigger_liquidity_event
    check_liquidity_changes config [] start_1h eval_timestamp = (false, none)
    check_liquidity_changes config (first ∷ events) start_1h eval_timestamp =
        let t : LiquidityTotals F =
          liquidity_totals start_1h
            (record {
              total_abs_change = whole 0;
              liq_change_1h = whole 0;
              first_event_time = first.timestamp;
            })
            (first ∷ events) in
        elim (actual_history config t.first_event_time eval_timestamp) [
          | none ↦ (false, none)
          | some actual ↦
              let actual_hours = d.of_int actual /F d.of_int config.window_1h in
              let liq_change_24h_avg = t.total_abs_change /F actual_hours in
              if config.k_liq *F liq_change_24h_avg <F t.liq_change_1h
              then (true, find_trigger_liquidity_event start_1h eval_timestamp (first ∷ events))
              else (false, none)
        ]
