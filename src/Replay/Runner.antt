-- ===== src/Replay/Runner.antt =====
-- internal/replay/runner.go: the stored events of a candidate, fed to an engine in their order. The engine is
-- an interface: a run gets its `OnEvent`, on a state of its own.
use solana_token_lab.Base.{List, [], ◌∷◌, String}
use solana_token_lab.Base.Int.{ℤ}
use solana_token_lab.Result.{Result, ok, err}
use solana_token_lab.Storage.Swaps
use solana_token_lab.Storage.Swaps.{SwapStore}
use solana_token_lab.Storage.LiquidityEvents
use solana_token_lab.Storage.LiquidityEvents.{LiquidityEventStore}
use solana_token_lab.Replay.{Event, merge_events}

pub record Runner (F : Type 0) : Type 0 where
  pub swap_store : SwapStore F
  pub liquidity_store : LiquidityEventStore F

module _ {F : Type 0} where
  abbrev pub new_runner : SwapStore F → LiquidityEventStore F → Runner F
  new_runner swap_store liquidity_store = record {
    swap_store = swap_store;
    liquidity_store = liquidity_store;
  }

  -- The events of a run, and those of a run over all.
  unfoldable pub events_of : String → ℤ → ℤ → Runner F → List (Event F)
  unfolding merge_events Swaps.get_by_time_range LiquidityEvents.get_by_time_range
  events_of candidate_id from to r =
      merge_events (Swaps.get_by_time_range candidate_id from to r.swap_store)
        (LiquidityEvents.get_by_time_range candidate_id from to r.liquidity_store)

  unfoldable pub all_events_of : String → Runner F → List (Event F)
  unfolding merge_events Swaps.get_by_candidate_id LiquidityEvents.get_by_candidate_id
  all_events_of candidate_id r =
      merge_events (Swaps.get_by_candidate_id candidate_id r.swap_store)
        (LiquidityEvents.get_by_candidate_id candidate_id r.liquidity_store)

  module _ {S : Type 0} (on_event : Event F → S → Result (Unit {0}) × S) where
    -- `for _, event := range events { if err := engine.OnEvent(event); err != nil { return err } }`
    unfoldable pub feed : List (Event F) → S → Result (Unit {0}) × S
    feed [] s = (ok tt, s)
    feed (e ∷ es) s =
        let (r, s') = on_event e s in
        elim r [ err failure ↦ (err failure, s') | ok done ↦ feed es s' ]

    unfoldable pub run : String → ℤ → ℤ → Runner F → S → Result (Unit {0}) × S
    unfolding feed events_of
    run candidate_id from to r = feed (events_of candidate_id from to r)

    unfoldable pub run_all : String → Runner F → S → Result (Unit {0}) × S
    unfolding feed all_events_of
    run_all candidate_id r = feed (all_events_of candidate_id r)
