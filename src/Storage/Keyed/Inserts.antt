-- ===== src/Storage/Keyed/Inserts.antt =====
-- Inserts and bulk inserts of the stores of internal/storage/memory, and the map that they leave.
use solana_token_lab.Base.{
  ◌≡◌, refl, sym, ap, ◌∙◌, Bool, true, false, ◌||◌, Bool-cases, inl, inr, ◌⊎◌, List, [], ◌∷◌, ◌++◌,
  Option, none, some, String, same_text, same_text_iff, if◌then◌else◌, arith,
}
use mathlib.Core.Path.{subst}
use solana_token_lab.Base.Lists.{All, All-imp, All-append, AllPairs, AllPairs-append}
use solana_token_lab.Result.{>>=-eq-ok, ok_injective, Result, ok, err, ◌>>=◌, Error}
use solana_token_lab.Storage.Keyed.{
  Entries, member, lookup, contains, put, select, insert, check_bulk, store_all, insert_bulk,
}

module _ {V : Type 0} where
  pub lookup-put :
      (k j : String) (v : V) (m : Entries V)
      → lookup j (put k v m) ≡ (if same_text k j then some v else lookup j m)
  unfolding lookup put
  lookup-put k j v [] = refl
  lookup-put k j v ((i, w) ∷ m) =
      ground (arith, same_text_iff k j, same_text_iff i k, same_text_iff i j, lookup-put k j v m)

  pub contains-put :
      (k j : String) (v : V) (m : Entries V)
      → contains j (put k v m) ≡ (same_text k j || contains j m)
  contains-put k j v m = rw (contains, lookup-put k j v m) (ground arith)

  -- A new key goes to the end.
  pub put_new :
      (k : String) (v : V) (m : Entries V) → contains k m ≡ false → put k v m ≡ m ++ ((k, v) ∷ [])
  unfolding put lookup
  put_new k v [] h = refl
  put_new k v ((j, w) ∷ m) h = elim (Bool-cases (same_text j k)) [
    | inl e ↦ absurd (ground arith)
    | inr e ↦ rw e (ap (λ t. (j, w) ∷ t) (put_new k v m (ground arith)))
  ]

  pub select-append :
      (p : V → Bool) (m n : Entries V) → select p (m ++ n) ≡ select p m ++ select p n
  unfolding select
  select-append p [] n = refl
  select-append p ((k, v) ∷ m) n = elim (Bool-cases (p v)) [
    | inl e ↦ rw e (ap (λ t. v ∷ t) (select-append p m n))
    | inr e ↦ rw e (select-append p m n)
  ]

  module _ (key : V → String) (is_valid : V → Bool) where
    -- The inserts of a list, one after the other, up to the first error.
    unfoldable pub insert_all : List (Option V) → Entries V → Result (Entries V)
    insert_all [] m = ok m
    insert_all (v ∷ vs) m = let (r, m') = insert key is_valid v m in r >>= λ done. insert_all vs m'

    -- The keys of the map that the inserts have grown, against the map and the batch.
    abbrev Grown : List String → Entries V → Entries V → Type 0
    Grown batch m m' = (k : String) → contains k m' ≡ (contains k m || member k batch)

    Grown-put :
        (batch : List String) (m m' : Entries V) (v : V)
        → Grown batch m m'
        → Grown (key v ∷ batch) m (put (key v) v m')
    unfolding member
    Grown-put batch m m' v h k = rw (contains-put (key v) k v m', h k) (ground arith)

    insert_all-check_bulk :
        (batch : List String) (m m' : Entries V) (vs : List (Option V))
        → Grown batch m m'
        → insert_all vs m'
          ≡ (check_bulk key is_valid batch m vs >>= λ passed. ok (store_all key is_valid vs m'))
    unfolding insert_all check_bulk store_all insert
    insert_all-check_bulk batch m m' [] h = refl
    insert_all-check_bulk batch m m' (none ∷ vs) h = refl
    insert_all-check_bulk batch m m' (some v ∷ vs) h = elim (Bool-cases (is_valid v)) [
      | inr e ↦ rw e refl
      | inl e ↦ elim (Bool-cases (contains (key v) m)) [
        | inl a ↦ rw (e, a, h (key v), a) refl
        | inr a ↦ elim (Bool-cases (member (key v) batch)) [
          | inl b ↦ rw (e, a, b, h (key v), a, b) refl
          | inr b ↦
              rw (e, a, b, h (key v), a, b)
                (insert_all-check_bulk (key v ∷ batch) m (put (key v) v m') vs
                  (Grown-put batch m m' v h))
        ]
      ]
    ]

    Grown-nil : (m : Entries V) → Grown [] m m
    unfolding member
    Grown-nil m k = ground arith

    -- How a call that must not stop half way ends.
    abbrev pub outcome : Entries V → Result (Entries V) → Result (Unit {0}) × Entries V
    outcome m (ok m') = (ok tt, m')
    outcome m (err e) = (err e, m)

    outcome->>= :
        (m s : Entries V) (r : Result (Unit {0}))
        → elim r [ ok passed ↦ (ok tt, s) | err e ↦ (err e, m) ] ≡ outcome m (r >>= λ passed. ok s)
    outcome->>= m s (ok tt) = refl
    outcome->>= m s (err e) = refl

    -- A bulk insert into an append-only store is atomic: it does what the inserts of its values, one
    -- after the other, do together, if none of them fails; and if one fails, it returns the error of
    -- the first that does and leaves the store as it was.
    pub insert_bulk-insert_all :
        (vs : List (Option V)) (m : Entries V)
        → insert_bulk key is_valid vs m ≡ outcome m (insert_all vs m)
    unfolding insert_bulk insert_all
    insert_bulk-insert_all [] m = refl
    insert_bulk-insert_all (v ∷ vs) m =
        outcome->>= m (store_all key is_valid (v ∷ vs) m) (check_bulk key is_valid [] m (v ∷ vs))
        ∙ ap (outcome m) (sym (insert_all-check_bulk [] m m (v ∷ vs) (Grown-nil m)))

    -- The store with one more value: reads find it under its key, and queries collect it last.
    pub record Inserted (v : V) (m m' : Entries V) : Type 0 where
      pub lookups :
          (j : String) → lookup j m' ≡ (if same_text (key v) j then some v else lookup j m)
      pub selects : (p : V → Bool) → select p m' ≡ select p m ++ (if p v then v ∷ [] else [])

    put-Inserted :
        (v : V) (m : Entries V) → contains (key v) m ≡ false → Inserted v m (put (key v) v m)
    unfolding select
    put-Inserted v m h = record {
      lookups = λ j. lookup-put (key v) j v m;
      selects = λ p. rw (put_new (key v) v m h) (select-append p m ((key v, v) ∷ []));
    }

    -- What an insert of a value does.
    abbrev pub Inserting : V → Entries V → Type 0
    Inserting v m =
        ((is_valid v ≡ false) × (insert key is_valid (some v) m ≡ (err Error.invalid_input, m)))
        ⊎ ((is_valid v ≡ true)
            × (contains (key v) m ≡ true)
            × (insert key is_valid (some v) m ≡ (err Error.duplicate_key, m)))
        ⊎ ((is_valid v ≡ true)
            × (contains (key v) m ≡ false)
            × ((m' : Entries V) × (insert key is_valid (some v) m ≡ (ok tt, m')) × Inserted v m m'))

    pub insert-Inserting : (v : V) (m : Entries V) → Inserting v m
    unfolding insert
    insert-Inserting v m = elim (Bool-cases (is_valid v)) [
      | inr e ↦ inl (e, rw e refl)
      | inl e ↦ elim (Bool-cases (contains (key v) m)) [
        | inl c ↦ inr (inl (e, c, rw (e, c) refl))
        | inr c ↦ inr (inr (e, c, (put (key v) v m, rw (e, c) refl, put-Inserted v m c)))
      ]
    ]

    -- An insert, on every branch: a nil pointer, and a value that is not valid, are refused as invalid input,
    -- a value whose key is taken as a duplicate, and the store stays as it was; any other value is added,
    -- under its key and to what the queries collect, and nothing else changes.
    pub insert_cases :
        (o : Option V) (m : Entries V)
        → ((o ≡ none) × (insert key is_valid o m ≡ (err Error.invalid_input, m)))
          ⊎ ((v : V) × (o ≡ some v) × Inserting v m)
    unfolding insert
    insert_cases none m = inl (refl, refl)
    insert_cases (some v) m = inr (v, refl, insert-Inserting v m)

    -- Each value stands under its own key, is valid, and no key comes twice.
    pub record IsConsistent (m : Entries V) : Type 0 where
      pub keyed : All (λ (e : String × V). (e.0 ≡ key e.1) × (is_valid e.1 ≡ true)) m
      pub distinct : AllPairs (λ (a b : String × V). same_text a.0 b.0 ≡ false) m

    apart_of_new :
        (k : String) (m : Entries V)
        → contains k m ≡ false
        → All (λ (e : String × V). same_text e.0 k ≡ false) m
    unfolding lookup
    apart_of_new k [] h = tt
    apart_of_new k ((j, w) ∷ m) h = elim (Bool-cases (same_text j k)) [
      | inl e ↦ absurd (ground arith)
      | inr e ↦ (e, apart_of_new k m (ground arith))
    ]

    insert-IsConsistent :
        (v : Option V) (m : Entries V) → IsConsistent m → IsConsistent (insert key is_valid v m).1
    unfolding insert
    insert-IsConsistent none m h = h
    insert-IsConsistent (some v) m h = elim (Bool-cases (is_valid v)) [
      | inr e ↦ rw e h
      | inl e ↦ elim (Bool-cases (contains (key v) m)) [
        | inl c ↦ rw (e, c) h
        | inr c ↦
            rw (e, c, put_new (key v) v m c)
              (record {
                keyed =
                    All-append (λ (e : String × V). (e.0 ≡ key e.1) × (is_valid e.1 ≡ true)) m
                      ((key v, v) ∷ []) h.keyed ((refl, e), tt);
                distinct =
                    AllPairs-append (λ (a b : String × V). same_text a.0 b.0 ≡ false) m
                      ((key v, v) ∷ []) h.distinct (tt, tt)
                      (All-imp (λ (e : String × V). same_text e.0 (key v) ≡ false)
                        (λ (x : String × V).
                          All (λ (b : String × V). same_text x.0 b.0 ≡ false) ((key v, v) ∷ []))
                        (λ x p. (p, tt)) m (apart_of_new (key v) m c));
              })
      ]
    ]

    insert_all-IsConsistent :
        (vs : List (Option V)) (m m' : Entries V)
        → IsConsistent m
        → insert_all vs m ≡ ok m'
        → IsConsistent m'
    unfolding insert_all
    insert_all-IsConsistent [] m m' h e = subst IsConsistent (ok_injective m m' e) h
    insert_all-IsConsistent (v ∷ vs) m m' h e =
        let (_, _, later) = >>=-eq-ok (insert key is_valid v m).0 _ e in
        insert_all-IsConsistent vs (insert key is_valid v m).1 m' (insert-IsConsistent v m h) later

    outcome-IsConsistent :
        (m : Entries V) (r : Result (Entries V))
        → IsConsistent m
        → ((m' : Entries V) → r ≡ ok m' → IsConsistent m')
        → IsConsistent (outcome m r).1
    outcome-IsConsistent m (ok m') h k = k m' refl
    outcome-IsConsistent m (err e) h k = h

    -- Inserts and bulk inserts, failing or not, keep a store consistent: each value stands under its
    -- own key, is valid, and no key comes twice.
    pub inserts-IsConsistent :
        (v : Option V) (vs : List (Option V)) (m : Entries V)
        → IsConsistent m
        → IsConsistent (insert key is_valid v m).1 × IsConsistent (insert_bulk key is_valid vs m).1
    inserts-IsConsistent v vs m h = (
      insert-IsConsistent v m h,
      subst (λ (r : Result (Unit {0}) × Entries V). IsConsistent r.1)
          (sym (insert_bulk-insert_all vs m))
          (outcome-IsConsistent m (insert_all vs m) h
            (λ m' e. insert_all-IsConsistent vs m m' h e)),
    )
