-- ===== src/Storage/Keyed/Again.antt =====
-- A batch that comes to a store of internal/storage/memory again.
use solana_token_lab.Base.{
  ◌≡◌, Bool, true, List, [], ◌∷◌, Option, none, some, String, same_text_iff, arith,
}
use mathlib.Core.Path.{subst}
use solana_token_lab.Result.{ok, err, Error}
use solana_token_lab.Storage.Keyed.{Entries, contains, put, check_bulk, store_all, insert_bulk}
use solana_token_lab.Storage.Keyed.Inserts.{contains-put}

module _ {V : Type 0} (key : V → String) (is_valid : V → Bool) where
  store_all-contains :
      (vs : List (Option V)) (m : Entries V) (k : String)
      → contains k m ≡ true
      → contains k (store_all key is_valid vs m) ≡ true
  unfolding store_all
  store_all-contains [] m k h = h
  store_all-contains (none ∷ vs) m k h = store_all-contains vs m k h
  store_all-contains (some v ∷ vs) m k h =
      store_all-contains vs (put (key v) v m) k (rw (contains-put (key v) k v m, h) (ground arith))

  -- What a bulk insert without an error has found.
  bulk_done :
      (v : Option V) (vs : List (Option V)) (m m' : Entries V)
      → insert_bulk key is_valid (v ∷ vs) m ≡ (ok tt, m')
      → (check_bulk key is_valid [] m (v ∷ vs) ≡ ok tt) × (store_all key is_valid (v ∷ vs) m ≡ m')
  unfolding insert_bulk
  bulk_done v vs m m' h = ground arith

  -- The first value of a batch that passed is valid.
  first_valid :
      (v : V) (vs : List (Option V)) (m : Entries V)
      → check_bulk key is_valid [] m (some v ∷ vs) ≡ ok tt
      → is_valid v ≡ true
  unfolding check_bulk
  first_valid v vs m h = ground arith

  refused_first :
      (v : V) (vs : List (Option V)) (m : Entries V)
      → is_valid v ≡ true
      → contains (key v) m ≡ true
      → insert_bulk key is_valid (some v ∷ vs) m ≡ (err Error.duplicate_key, m)
  unfolding insert_bulk check_bulk
  refused_first v vs m i c = ground arith

  -- A batch that is not empty and was inserted is refused as a duplicate from then on, and the store stays
  -- as it is.
  pub insert_bulk_again :
      (v : V) (vs : List (Option V)) (m m' : Entries V)
      → insert_bulk key is_valid (some v ∷ vs) m ≡ (ok tt, m')
      → insert_bulk key is_valid (some v ∷ vs) m' ≡ (err Error.duplicate_key, m')
  unfolding store_all
  insert_bulk_again v vs m m' h =
      let (passed, stored) = bulk_done (some v) vs m m' h in
      let here : contains (key v) (put (key v) v m) ≡ true =
        rw (contains-put (key v) (key v) v m) (ground (arith, same_text_iff (key v) (key v))) in
      let kept = store_all-contains vs (put (key v) v m) (key v) here in
      refused_first v vs m' (first_valid v vs m passed)
        (subst (λ t. contains (key v) t ≡ true) stored kept)
