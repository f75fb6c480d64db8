-- ===== src/Discovery/Active.antt =====
-- The detector of internal/discovery/active_detector.go: a candidate for each token with a spike. It works
-- on the in-memory stores; `none` for the liquidity store is a detector without one.
pub mod Triggered
pub mod Discovered
use solana_token_lab.Base.{
  Bool, true, false, not, ◌&&◌, ◌||◌, List, [], ◌∷◌, Option, none, some, String, same_text,
  if◌then◌else◌,
}
use solana_token_lab.Base.Int.{ℤ, pos, ltb_ℤ, leb_ℤ, eq_ℤ, add64, sub64}
use solana_token_lab.Base.Lists.{length}
use solana_token_lab.Result.{Result, ok, err, Error}
use solana_token_lab.Float64.{Float64, ◌+F◌, ◌*F◌, ◌/F◌, ◌<F◌, whole}
use solana_token_lab.Domain.{SwapEvent, LiquidityEvent, TokenCandidate, source_active_token}
use solana_token_lab.Position.{Position, position, compare_position}
use solana_token_lab.IdHash.{compute_candidate_id}
use solana_token_lab.Storage.Keyed.{member}
use solana_token_lab.Storage.Candidates
use solana_token_lab.Storage.Candidates.{CandidateStore, get_by_mint}
use solana_token_lab.Storage.SwapEvents
use solana_token_lab.Storage.SwapEvents.{SwapEventStore, get_distinct_mints_by_time_range}
use solana_token_lab.Storage.LiquidityEvents
use solana_token_lab.Storage.LiquidityEvents.{LiquidityEventStore}
use solana_token_lab.Storage.Progress.{set_seen}
use solana_token_lab.Discovery.Detector.{is_duplicate}
use solana_token_lab.Discovery.Spikes.{
  ActiveTokenConfig, check_swap_spikes, check_liquidity_changes,
}

pub record ActiveTokenDetector (F : Type 0) : Type 0 where
  pub config : ActiveTokenConfig F
  pub swap_event_store : SwapEventStore F
  pub candidate_store : CandidateStore
  pub liquidity_event_store : Option (LiquidityEventStore F)
  pub seen_mints : List String

module _ {F : Type 0} where
  abbrev pub new_active_detector :
      ActiveTokenConfig F → SwapEventStore F → CandidateStore → ActiveTokenDetector F
  new_active_detector config swap_event_store candidate_store = record {
    config = config;
    swap_event_store = swap_event_store;
    candidate_store = candidate_store;
    liquidity_event_store = none;
    seen_mints = [];
  }

  abbrev pub with_liquidity_store :
      LiquidityEventStore F → ActiveTokenDetector F → ActiveTokenDetector F
  with_liquidity_store store d = record d { liquidity_event_store = some store }

  unfoldable pub reset : ActiveTokenDetector F → ActiveTokenDetector F
  reset d = record d { seen_mints = [] }

  -- `d.seenMints[mint] = true`
  abbrev pub mark_active : String → ActiveTokenDetector F → ActiveTokenDetector F
  mark_active mint d = record d { seen_mints = set_seen mint d.seen_mints }

  -- From the attempt to insert on.
  unfoldable pub insert_active :
      String
      → TokenCandidate
      → ActiveTokenDetector F
      → Result (Option TokenCandidate) × ActiveTokenDetector F
  unfolding Candidates.insert set_seen
  insert_active mint candidate d =
      let (r, store) = Candidates.insert (some candidate) d.candidate_store in
      let d' : ActiveTokenDetector F = record d { candidate_store = store } in
      elim r [
        | ok inserted ↦ (ok (some candidate), mark_active mint d')
        | err e ↦ if is_duplicate e then (ok none, mark_active mint d') else (err e, d')
      ]

  module _ (sha256_hex : String → String) where
    abbrev pub create_candidate_from_swap : SwapEvent F → TokenCandidate
    create_candidate_from_swap swap = record {
      candidate_id =
          compute_candidate_id sha256_hex swap.mint swap.pool source_active_token swap.tx_signature
            swap.event_index swap.slot;
      source = source_active_token;
      mint = swap.mint;
      pool = swap.pool;
      tx_signature = swap.tx_signature;
      event_index = swap.event_index;
      slot = swap.slot;
      discovered_at = swap.timestamp;
      created_at = pos 0;
    }

    abbrev pub create_candidate_from_liquidity : LiquidityEvent F → TokenCandidate
    create_candidate_from_liquidity e = record {
      candidate_id =
          compute_candidate_id sha256_hex e.mint (some e.pool) source_active_token e.tx_signature
            e.event_index e.slot;
      source = source_active_token;
      mint = e.mint;
      pool = some e.pool;
      tx_signature = e.tx_signature;
      event_index = e.event_index;
      slot = e.slot;
      discovered_at = e.timestamp;
      created_at = pos 0;
    }

    module _ ⦃f : Float64 F⦄ where
      unfoldable pub check_liquidity_spike :
          String
          → ℤ
          → ℤ
          → ℤ
          → ActiveTokenConfig F
          → LiquidityEventStore F
          → Bool × Option (LiquidityEvent F)
      unfolding check_liquidity_changes LiquidityEvents.get_by_mint_time_range
      check_liquidity_spike mint start_24h start_1h eval_timestamp config store =
          if same_text mint ""
          then (false, none)
          else check_liquidity_changes config
              (LiquidityEvents.get_by_mint_time_range mint start_24h eval_timestamp store) start_1h
              eval_timestamp

      -- The trigger decides on the candidate: a swap goes before a liquidity event.
      unfoldable pub trigger_candidate :
          Option (SwapEvent F) → Option (LiquidityEvent F) → Option TokenCandidate
      trigger_candidate (some swap) trigger = some (create_candidate_from_swap swap)
      trigger_candidate none (some e) = some (create_candidate_from_liquidity e)
      trigger_candidate none none = none

      -- `swaps24h` and the check of them.
      unfoldable pub swap_spikes_at :
          String → ℤ → ActiveTokenDetector F → Bool × Bool × Option (SwapEvent F)
      unfolding check_swap_spikes SwapEvents.get_by_mint_time_range
      swap_spikes_at mint eval_timestamp d =
          check_swap_spikes d.config
            (SwapEvents.get_by_mint_time_range mint (sub64 eval_timestamp d.config.window_24h)
              eval_timestamp d.swap_event_store)
            (sub64 eval_timestamp d.config.window_1h) eval_timestamp

      -- The check of the liquidity, if there is a store of it.
      unfoldable pub liquidity_spike_at :
          String → ℤ → ActiveTokenDetector F → Bool × Option (LiquidityEvent F)
      unfolding check_liquidity_spike
      liquidity_spike_at mint eval_timestamp d = elim d.liquidity_event_store [
        | none ↦ (false, none)
        | some s ↦
            check_liquidity_spike mint (sub64 eval_timestamp d.config.window_24h)
              (sub64 eval_timestamp d.config.window_1h) eval_timestamp d.config s
      ]

      -- The check for spikes, and the candidate for the trigger, if there is one.
      unfoldable pub spike_candidate : String → ℤ → ActiveTokenDetector F → Option TokenCandidate
      unfolding swap_spikes_at liquidity_spike_at trigger_candidate
      spike_candidate mint eval_timestamp d =
          let swaps = swap_spikes_at mint eval_timestamp d in
          let liquidity = liquidity_spike_at mint eval_timestamp d in
          if not swaps.0 && not swaps.1 && not liquidity.0
          then none
          else trigger_candidate swaps.2 liquidity.1

      unfoldable pub evaluate_mint :
          String
          → ℤ
          → ActiveTokenDetector F
          → Result (Option TokenCandidate) × ActiveTokenDetector F
      unfolding member get_by_mint spike_candidate insert_active
      evaluate_mint mint eval_timestamp d =
          if member mint d.seen_mints
          then (ok none, d)
          else elim (get_by_mint mint d.candidate_store) [
            | existing ∷ more ↦ (ok none, mark_active mint d)
            | [] ↦ elim (spike_candidate mint eval_timestamp d) [
              | none ↦ (ok none, d)
              | some candidate ↦ insert_active mint candidate d
            ]
          ]

      -- The loop: the candidates so far, and the error that broke it off.
      unfoldable pub evaluate_mints :
          ℤ
          → List String
          → ActiveTokenDetector F
          → (List TokenCandidate × Result (Unit {0})) × ActiveTokenDetector F
      unfolding evaluate_mint
      evaluate_mints eval_timestamp [] d = (([], ok tt), d)
      evaluate_mints eval_timestamp (mint ∷ mints) d =
          let (r, d') = evaluate_mint mint eval_timestamp d in
          elim r [
            | err e ↦ (([], err e), d')
            | ok none ↦ evaluate_mints eval_timestamp mints d'
            | ok (some candidate) ↦
                let (found, d'') = evaluate_mints eval_timestamp mints d' in
                ((candidate ∷ found.0, found.1), d'')
          ]

      unfoldable pub detect_at :
          ℤ
          → ActiveTokenDetector F
          → (List TokenCandidate × Result (Unit {0})) × ActiveTokenDetector F
      unfolding evaluate_mints get_distinct_mints_by_time_range
      detect_at eval_timestamp d =
          evaluate_mints eval_timestamp
            (get_distinct_mints_by_time_range (sub64 eval_timestamp d.config.window_24h)
              eval_timestamp d.swap_event_store)
            d
