-- ===== src/Storage/Trades.antt =====
-- internal/storage/memory/trade_record_store.go: the trades, by their identifiers.
use solana_token_lab.Base.{Bool, true, not, ◌&&◌, List, [], Option, String, same_text}
use solana_token_lab.Base.Int.{compare_ℤ}
use solana_token_lab.Base.Sort.{less_of}
use solana_token_lab.Result.{Result}
use solana_token_lab.Domain.{TradeRecord}
use solana_token_lab.Storage.Keyed
use solana_token_lab.Storage.Keyed.{Entries, find, query}

abbrev pub TradeRecordStore : Type 0 → Type 0
TradeRecordStore F = Entries (TradeRecord F)

module _ {F : Type 0} where
  abbrev pub new_trade_record_store : TradeRecordStore F
  new_trade_record_store = []

  abbrev pub trade_key : TradeRecord F → String
  trade_key t = t.trade_id

  abbrev pub is_valid : TradeRecord F → Bool
  is_valid t = not (same_text t.trade_id "")

  unfoldable pub insert :
      Option (TradeRecord F) → TradeRecordStore F → Result (Unit {0}) × (TradeRecordStore F)
  unfolding Keyed.insert
  insert = Keyed.insert trade_key is_valid

  unfoldable pub insert_bulk :
      List (Option (TradeRecord F)) → TradeRecordStore F → Result (Unit {0}) × (TradeRecordStore F)
  unfolding Keyed.insert_bulk
  insert_bulk = Keyed.insert_bulk trade_key is_valid

  unfoldable pub get_by_id : String → TradeRecordStore F → Result (TradeRecord F)
  unfolding find
  get_by_id trade_id = find trade_id

  -- The order of the results, by `entry_signal_time`.
  abbrev pub by_entry : TradeRecord F → TradeRecord F → Bool
  by_entry = less_of λ a b. compare_ℤ a.entry_signal_time b.entry_signal_time

  unfoldable pub get_by_candidate_id : String → TradeRecordStore F → List (TradeRecord F)
  unfolding query
  get_by_candidate_id candidate_id = query by_entry λ t. same_text t.candidate_id candidate_id

  unfoldable pub get_by_strategy_scenario :
      String → String → TradeRecordStore F → List (TradeRecord F)
  unfolding query
  get_by_strategy_scenario strategy_id scenario_id =
      query by_entry λ t. same_text t.strategy_id strategy_id && same_text t.scenario_id scenario_id

  unfoldable pub get_all : TradeRecordStore F → List (TradeRecord F)
  unfolding query
  get_all = query by_entry λ t. true
