-- ===== src/Storage/LiquidityEvents.antt =====
-- internal/storage/memory/liquidity_event_store.go: liquidity events by candidate, transaction and event index.
use solana_token_lab.Base.{Bool, not, ◌&&◌, List, [], ◌∷◌, Option, String, same_text}
use solana_token_lab.Base.Int.{ℤ, leb_ℤ, ltb_ℤ, compare_ℤ}
use solana_token_lab.Base.Text.{concat, decimal}
use solana_token_lab.Base.ThreeWay.{then_by}
use solana_token_lab.Base.Sort.{less_of}
use solana_token_lab.Result.{Result}
use solana_token_lab.Domain.{LiquidityEvent}
use solana_token_lab.Storage.Keyed
use solana_token_lab.Storage.Keyed.{Entries, find, query}

abbrev pub LiquidityEventStore : Type 0 → Type 0
LiquidityEventStore F = Entries (LiquidityEvent F)

unfoldable pub liquidity_event_key : String → String → ℤ → String
unfolding concat decimal
liquidity_event_key candidate_id tx_signature event_index =
    concat (candidate_id ∷ "|" ∷ tx_signature ∷ "|" ∷ decimal event_index ∷ [])

module _ {F : Type 0} where
  abbrev pub new_liquidity_event_store : LiquidityEventStore F
  new_liquidity_event_store = []

  abbrev pub key_of : LiquidityEvent F → String
  key_of v = liquidity_event_key v.candidate_id v.tx_signature v.event_index

  abbrev pub is_valid : LiquidityEvent F → Bool
  is_valid v = not (same_text v.candidate_id "")

  unfoldable pub insert :
      Option (LiquidityEvent F)
      → LiquidityEventStore F
      → Result (Unit {0}) × (LiquidityEventStore F)
  unfolding Keyed.insert
  insert = Keyed.insert key_of is_valid

  unfoldable pub insert_bulk :
      List (Option (LiquidityEvent F))
      → LiquidityEventStore F
      → Result (Unit {0}) × (LiquidityEventStore F)
  unfolding Keyed.insert_bulk
  insert_bulk = Keyed.insert_bulk key_of is_valid

  -- The order of the results, by time and slot.
  abbrev pub by_time : LiquidityEvent F → LiquidityEvent F → Bool
  by_time =
      less_of (then_by (λ a b. compare_ℤ a.timestamp b.timestamp) (λ a b. compare_ℤ a.slot b.slot))

  unfoldable pub get_by_candidate_id : String → LiquidityEventStore F → List (LiquidityEvent F)
  unfolding query
  get_by_candidate_id candidate_id = query by_time λ v. same_text v.candidate_id candidate_id

  unfoldable pub get_by_time_range :
      String → ℤ → ℤ → LiquidityEventStore F → List (LiquidityEvent F)
  unfolding query
  get_by_time_range candidate_id start end_time = query by_time λ v.
      same_text v.candidate_id candidate_id && leb_ℤ start v.timestamp && leb_ℤ v.timestamp end_time

  unfoldable pub get_by_mint_time_range :
      String → ℤ → ℤ → LiquidityEventStore F → List (LiquidityEvent F)
  unfolding query
  get_by_mint_time_range mint start end_time =
      query by_time
        λ e. same_text e.mint mint && leb_ℤ start e.timestamp && ltb_ℤ e.timestamp end_time
