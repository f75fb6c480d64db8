-- ===== src/Storage/Swaps.antt =====
-- internal/storage/memory/swap_store.go: swaps by candidate, transaction and event index.
use solana_token_lab.Base.{Bool, not, ◌&&◌, List, [], ◌∷◌, Option, String, same_text}
use solana_token_lab.Base.Int.{ℤ, leb_ℤ, compare_ℤ}
use solana_token_lab.Base.Text.{concat, decimal}
use solana_token_lab.Base.ThreeWay.{then_by}
use solana_token_lab.Base.Sort.{less_of}
use solana_token_lab.Result.{Result}
use solana_token_lab.Domain.{Swap}
use solana_token_lab.Storage.Keyed
use solana_token_lab.Storage.Keyed.{Entries, find, query}

abbrev pub SwapStore : Type 0 → Type 0
SwapStore F = Entries (Swap F)

unfoldable pub swap_key : String → String → ℤ → String
unfolding concat decimal
swap_key candidate_id tx_signature event_index =
    concat (candidate_id ∷ "|" ∷ tx_signature ∷ "|" ∷ decimal event_index ∷ [])

module _ {F : Type 0} where
  abbrev pub new_swap_store : SwapStore F
  new_swap_store = []

  abbrev pub key_of : Swap F → String
  key_of v = swap_key v.candidate_id v.tx_signature v.event_index

  abbrev pub is_valid : Swap F → Bool
  is_valid v = not (same_text v.candidate_id "")

  unfoldable pub insert : Option (Swap F) → SwapStore F → Result (Unit {0}) × (SwapStore F)
  unfolding Keyed.insert
  insert = Keyed.insert key_of is_valid

  unfoldable pub insert_bulk :
      List (Option (Swap F)) → SwapStore F → Result (Unit {0}) × (SwapStore F)
  unfolding Keyed.insert_bulk
  insert_bulk = Keyed.insert_bulk key_of is_valid

  -- The order of the results, by time and slot.
  abbrev pub by_time : Swap F → Swap F → Bool
  by_time =
      less_of (then_by (λ a b. compare_ℤ a.timestamp b.timestamp) (λ a b. compare_ℤ a.slot b.slot))

  unfoldable pub get_by_candidate_id : String → SwapStore F → List (Swap F)
  unfolding query
  get_by_candidate_id candidate_id = query by_time λ v. same_text v.candidate_id candidate_id

  unfoldable pub get_by_time_range : String → ℤ → ℤ → SwapStore F → List (Swap F)
  unfolding query
  get_by_time_range candidate_id start end_time = query by_time λ v.
      same_text v.candidate_id candidate_id && leb_ℤ start v.timestamp && leb_ℤ v.timestamp end_time
