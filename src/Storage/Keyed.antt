-- ===== src/Storage/Keyed.antt =====
-- The append-only map that the stores of internal/storage/memory share: inserts, bulk inserts and
-- queries over `map[string]*T`. The entries stand in the order of their insertion; the order in
-- which Go iterates over a map is arbitrary.
pub mod Inserts
pub mod Queries
pub mod Again
use solana_token_lab.Base.{
  Bool, true, false, not, ◌||◌, List, [], ◌∷◌, Option, none, some, String, same_text, if◌then◌else◌,
}
use solana_token_lab.Base.Sort.{sort_slice}
use solana_token_lab.Result.{Result, ok, err, ◌>>◌, ◌>>=◌, require, Error}

abbrev pub Entries : Type 0 → Type 0
Entries V = List (String × V)

-- A test for a text in a list of texts, for Go's sets.
unfoldable pub member : String → List String → Bool
member k [] = false
member k (j ∷ js) = same_text j k || member k js

module _ {V : Type 0} where
  -- `v, exists := s.data[k]`
  unfoldable pub lookup : String → Entries V → Option V
  lookup k [] = none
  lookup k ((j, v) ∷ m) = if same_text j k then some v else lookup k m

  abbrev pub contains : String → Entries V → Bool
  contains k m = elim (lookup k m) [ none ↦ false | some v ↦ true ]

  -- `s.data[k] = v`
  unfoldable pub put : String → V → Entries V → Entries V
  put k v [] = (k, v) ∷ []
  put k v ((j, w) ∷ m) = if same_text j k then (j, v) ∷ m else (j, w) ∷ put k v m

  -- A read of one value.
  unfoldable pub find : String → Entries V → Result V
  unfolding lookup
  find k m = elim (lookup k m) [ none ↦ err Error.not_found | some v ↦ ok v ]

  -- The values that a query collects from the map.
  unfoldable pub select : (V → Bool) → Entries V → List V
  select p [] = []
  select p ((k, v) ∷ m) = let rest = select p m in if p v then v ∷ rest else rest

  -- A query: the values that it collects, sorted.
  unfoldable pub query : (V → V → Bool) → (V → Bool) → Entries V → List V
  unfolding select sort_slice
  query less p m = sort_slice less (select p m)

  module _ (key : V → String) (is_valid : V → Bool) where
    -- `none` is a nil pointer. The result is the error, if any, and the map after the call.
    unfoldable pub insert : Option V → Entries V → Result (Unit {0}) × Entries V
    unfolding lookup put
    insert none m = (err Error.invalid_input, m)
    insert (some v) m =
        if not (is_valid v)
        then (err Error.invalid_input, m)
        else if contains (key v) m
        then (err Error.duplicate_key, m)
        else (ok tt, put (key v) v m)

    -- The first pass of a bulk insert, with the keys of the batch up to here.
    unfoldable pub check_bulk : List String → Entries V → List (Option V) → Result (Unit {0})
    unfolding lookup member
    check_bulk batch m [] = ok tt
    check_bulk batch m (none ∷ vs) = err Error.invalid_input
    check_bulk batch m (some v ∷ vs) = do
      require (is_valid v) Error.invalid_input
      require (not (contains (key v) m)) Error.duplicate_key
      require (not (member (key v) batch)) Error.duplicate_key
      check_bulk (key v ∷ batch) m vs

    -- The second pass, which follows a first pass without an error: it meets no nil pointer.
    unfoldable pub store_all : List (Option V) → Entries V → Entries V
    unfolding put
    store_all [] m = m
    store_all (none ∷ vs) m = store_all vs m
    store_all (some v ∷ vs) m = store_all vs (put (key v) v m)

    unfoldable pub insert_bulk : List (Option V) → Entries V → Result (Unit {0}) × Entries V
    unfolding check_bulk store_all
    insert_bulk [] m = (ok tt, m)
    insert_bulk (v ∷ vs) m = elim (check_bulk [] m (v ∷ vs)) [
      | ok passed ↦ (ok tt, store_all (v ∷ vs) m)
      | err e ↦ (err e, m)
    ]
