-- ===== src/Storage/Aggregates.antt =====
-- internal/storage/memory/strategy_aggregate_store.go: the aggregates, by strategy, scenario and entry event.
use solana_token_lab.Base.{
  Bool, true, not, ◌&&◌, List, [], ◌∷◌, Option, String, same_text, Ordering,
}
use solana_token_lab.Base.Text.{concat}
use solana_token_lab.Base.ThreeWay.{then_by}
use solana_token_lab.Base.Sort.{less_of}
use Prim.Native.String.{compare as compare_text}
use solana_token_lab.Result.{Result}
use solana_token_lab.Domain.{StrategyAggregate}
use solana_token_lab.Storage.Keyed
use solana_token_lab.Storage.Keyed.{Entries, find, query}

abbrev pub StrategyAggregateStore : Type 0 → Type 0
StrategyAggregateStore F = Entries (StrategyAggregate F)

unfoldable pub aggregate_key : String → String → String → String
unfolding concat
aggregate_key strategy_id scenario_id entry_event_type =
    concat (strategy_id ∷ "|" ∷ scenario_id ∷ "|" ∷ entry_event_type ∷ [])

module _ {F : Type 0} where
  abbrev pub new_strategy_aggregate_store : StrategyAggregateStore F
  new_strategy_aggregate_store = []

  abbrev pub key_of : StrategyAggregate F → String
  key_of a = aggregate_key a.strategy_id a.scenario_id a.entry_event_type

  abbrev pub is_valid : StrategyAggregate F → Bool
  is_valid a =
      not (same_text a.strategy_id "")
      && not (same_text a.scenario_id "")
      && not (same_text a.entry_event_type "")

  unfoldable pub insert :
      Option (StrategyAggregate F)
      → StrategyAggregateStore F
      → Result (Unit {0}) × (StrategyAggregateStore F)
  unfolding Keyed.insert
  insert = Keyed.insert key_of is_valid

  unfoldable pub insert_bulk :
      List (Option (StrategyAggregate F))
      → StrategyAggregateStore F
      → Result (Unit {0}) × (StrategyAggregateStore F)
  unfolding Keyed.insert_bulk
  insert_bulk = Keyed.insert_bulk key_of is_valid

  unfoldable pub get_by_key :
      String → String → String → StrategyAggregateStore F → Result (StrategyAggregate F)
  unfolding find
  get_by_key strategy_id scenario_id entry_event_type =
      find (aggregate_key strategy_id scenario_id entry_event_type)

  -- The orders of the results: by scenario and entry event, and by the strategy first.
  abbrev pub by_scenario : StrategyAggregate F → StrategyAggregate F → Ordering
  by_scenario =
      then_by (λ a b. compare_text a.scenario_id b.scenario_id)
        (λ a b. compare_text a.entry_event_type b.entry_event_type)

  abbrev pub by_strategy : StrategyAggregate F → StrategyAggregate F → Ordering
  by_strategy = then_by (λ a b. compare_text a.strategy_id b.strategy_id) by_scenario

  unfoldable pub get_by_strategy : String → StrategyAggregateStore F → List (StrategyAggregate F)
  unfolding query
  get_by_strategy strategy_id = query (less_of by_scenario) λ a. same_text a.strategy_id strategy_id

  unfoldable pub get_all : StrategyAggregateStore F → List (StrategyAggregate F)
  unfolding query
  get_all = query (less_of by_strategy) λ a. true
