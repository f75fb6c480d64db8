-- ===== src/Storage/SwapEvents.antt =====
-- internal/storage/memory/swap_event_store.go: swap events in the order of their insertion, and the set
-- of their keys.
use Prim.Native.String.{compare as compare_text}
use solana_token_lab.Base.{
  Bool, false, not, ◌&&◌, ◌||◌, List, [], ◌∷◌, ◌++◌, Option, none, some, String, same_text,
  if◌then◌else◌,
}
use solana_token_lab.Base.Int.{ℤ, eq_ℤ, leb_ℤ, ltb_ℤ}
use solana_token_lab.Base.Sort.{sort_slice, less_of}
use solana_token_lab.Result.{Result, ok, err, ◌>>◌, require, Error}
use solana_token_lab.Domain.{SwapEvent}
use solana_token_lab.Position.{position, compare_position}
use solana_token_lab.Storage.Keyed.{member}

pub record SwapEventKey : Type 0 where
  pub mint : String
  pub tx_signature : String
  pub event_index : ℤ

pub record SwapEventStore (F : Type 0) : Type 0 where
  pub events : List (SwapEvent F)
  pub keys : List SwapEventKey

abbrev pub same_key : SwapEventKey → SwapEventKey → Bool
same_key a b =
    same_text a.mint b.mint
    && same_text a.tx_signature b.tx_signature
    && eq_ℤ a.event_index b.event_index

-- `keys[key]`
unfoldable pub has_key : SwapEventKey → List SwapEventKey → Bool
has_key k [] = false
has_key k (j ∷ js) = same_key j k || has_key k js

-- The distinct texts of a list, in the order of their first occurrence.
unfoldable pub add_distinct : List String → List String → List String
unfolding member
add_distinct seen [] = seen
add_distinct seen (x ∷ xs) = add_distinct (if member x seen then seen else seen ++ (x ∷ [])) xs

module _ {F : Type 0} where
  abbrev pub new_swap_event_store : SwapEventStore F
  new_swap_event_store = record { events = []; keys = [] }

  abbrev pub key_of : SwapEvent F → SwapEventKey
  key_of e = record { mint = e.mint; tx_signature = e.tx_signature; event_index = e.event_index }

  -- `data = append(data, e)` and `keys[key] = true`
  abbrev pub add : SwapEvent F → SwapEventStore F → SwapEventStore F
  add e s = record { events = s.events ++ (e ∷ []); keys = key_of e ∷ s.keys }

  unfoldable pub insert :
      Option (SwapEvent F) → SwapEventStore F → Result (Unit {0}) × SwapEventStore F
  unfolding has_key
  insert none s = (err Error.invalid_input, s)
  insert (some e) s =
      if has_key (key_of e) s.keys then (err Error.duplicate_key, s) else (ok tt, add e s)

  unfoldable pub check_bulk :
      List SwapEventKey → List SwapEventKey → List (Option (SwapEvent F)) → Result (Unit {0})
  unfolding has_key
  check_bulk batch keys [] = ok tt
  check_bulk batch keys (none ∷ es) = err Error.invalid_input
  check_bulk batch keys (some e ∷ es) = do
    require (not (has_key (key_of e) keys || has_key (key_of e) batch)) Error.duplicate_key
    check_bulk (key_of e ∷ batch) keys es

  -- The second pass follows a first pass without an error: it meets no nil pointer.
  unfoldable pub store_all : List (Option (SwapEvent F)) → SwapEventStore F → SwapEventStore F
  store_all [] s = s
  store_all (none ∷ es) s = store_all es s
  store_all (some e ∷ es) s = store_all es (add e s)

  unfoldable pub insert_bulk :
      List (Option (SwapEvent F)) → SwapEventStore F → Result (Unit {0}) × SwapEventStore F
  unfolding check_bulk store_all
  insert_bulk [] s = (ok tt, s)
  insert_bulk (e ∷ es) s = elim (check_bulk [] s.keys (e ∷ es)) [
    | ok passed ↦ (ok tt, store_all (e ∷ es) s)
    | err failure ↦ (err failure, s)
  ]

  -- The loop of the queries.
  unfoldable pub collect_events : (SwapEvent F → Bool) → List (SwapEvent F) → List (SwapEvent F)
  collect_events p [] = []
  collect_events p (e ∷ es) = let rest = collect_events p es in if p e then e ∷ rest else rest

  unfoldable pub sort_events : List (SwapEvent F) → List (SwapEvent F)
  unfolding sort_slice
  sort_events = sort_slice (
      less_of λ a b.
        compare_position (position a.slot a.tx_signature a.event_index)
          (position b.slot b.tx_signature b.event_index))

  abbrev pub within : ℤ → ℤ → SwapEvent F → Bool
  within start end_time e = leb_ℤ start e.timestamp && ltb_ℤ e.timestamp end_time

  unfoldable pub get_by_time_range : ℤ → ℤ → SwapEventStore F → List (SwapEvent F)
  unfolding collect_events sort_events
  get_by_time_range start end_time s = sort_events (collect_events (within start end_time) s.events)

  unfoldable pub get_by_mint_time_range : String → ℤ → ℤ → SwapEventStore F → List (SwapEvent F)
  unfolding collect_events sort_events
  get_by_mint_time_range mint start end_time s =
      sort_events (collect_events (λ e. same_text e.mint mint && within start end_time e) s.events)

  abbrev pub mints_of : List (SwapEvent F) → List String
  mints_of [] = []
  mints_of (e ∷ es) = e.mint ∷ mints_of es

  unfoldable pub get_distinct_mints_by_time_range : ℤ → ℤ → SwapEventStore F → List String
  unfolding collect_events add_distinct sort_slice
  get_distinct_mints_by_time_range start end_time s =
      sort_slice (less_of compare_text)
        (add_distinct [] (mints_of (collect_events (within start end_time) s.events)))
