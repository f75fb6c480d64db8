-- ===== src/Storage/Keyed/Queries.antt =====
-- The queries of the stores of internal/storage/memory, and the order of the map.
use mathlib.Core.List.{Permᴰ}
use mathlib.Core.List.Permᴰ
use solana_token_lab.Base.{
  ◌≡◌, refl, ap, Bool, true, false, Bool-cases, inl, inr, List, [], ◌∷◌, map, String, same_text,
}
use solana_token_lab.Base.Lists.{keep, keep-perm, map-perm, All, AllPairs, AllPairs-perm}
use solana_token_lab.Base.Sort.{
  Apart, Before, IsStrictWeak, sort_slice-eq_of_perm, sort_slice-perm, sort_slice-Before,
}
use solana_token_lab.Storage.Keyed.{Entries, select, query}
use solana_token_lab.Storage.Keyed.Inserts.{IsConsistent}

module _ {V : Type 0} where
  abbrev pub values : Entries V → List V
  values = map λ e. e.1

  pub select-keep : (p : V → Bool) (m : Entries V) → select p m ≡ keep p (values m)
  unfolding select keep
  select-keep p [] = refl
  select-keep p ((k, v) ∷ m) = rw (← select-keep p m) refl

  pub select_all : (m : Entries V) → select (λ v. true) m ≡ values m
  unfolding select
  select_all [] = refl
  select_all ((k, v) ∷ m) = ap (λ t. v ∷ t) (select_all m)

  pub select-perm : (p : V → Bool) {m n : Entries V} → Permᴰ m n → Permᴰ (select p m) (select p n)
  select-perm p {m} {n} d =
      rw (select-keep p m, select-keep p n) (keep-perm p (map-perm (λ e. e.1) d))

  pub select-All :
      (p : V → Bool) (Q : String × V → Type 0) (S : V → Type 0)
      → ((e : String × V) → Q e → p e.1 ≡ true → S e.1)
      → (m : Entries V) → All Q m
      → All S (select p m)
  unfolding select
  select-All p Q S f [] h = tt
  select-All p Q S f ((k, v) ∷ m) (h, hs) = elim (Bool-cases (p v)) [
    | inl t ↦ rw t (f (k, v) h t, select-All p Q S f m hs)
    | inr t ↦ rw t (select-All p Q S f m hs)
  ]

  -- A relation between what is collected, from one between the entries.
  pub select-AllPairs :
      (p : V → Bool) (R : String × V → String × V → Type 0) (S : V → V → Type 0)
      → ((a b : String × V) → R a b → p a.1 ≡ true → p b.1 ≡ true → S a.1 b.1)
      → (m : Entries V) → AllPairs R m
      → AllPairs S (select p m)
  unfolding select
  select-AllPairs p R S f [] h = tt
  select-AllPairs p R S f ((k, v) ∷ m) (h, hs) = elim (Bool-cases (p v)) [
    | inl t ↦ rw t (
      select-All p (R (k, v)) (S v) (λ e r u. f (k, v) e r t u) m h,
      select-AllPairs p R S f m hs,
    )
    | inr t ↦ rw t (select-AllPairs p R S f m hs)
  ]

  AllPairs-zip :
      (Q : String × V → Type 0) (R T : String × V → String × V → Type 0)
      → ((a b : String × V) → Q a → Q b → R a b → T a b)
      → (m : Entries V) → All Q m
      → AllPairs R m
      → AllPairs T m
  AllPairs-zip Q R T f [] q h = tt
  AllPairs-zip Q R T f (a ∷ m) (qa, q) (h, hs) = (All-zip m q h, AllPairs-zip Q R T f m q hs)
    where
      All-zip : (n : Entries V) → All Q n → All (R a) n → All (T a) n
      All-zip [] u w = tt
      All-zip (b ∷ n) (u, us) (w, ws) = (f a b qa u w, All-zip n us ws)

  keys_apart :
      (key : V → String) (is_valid : V → Bool) {m : Entries V}
      → IsConsistent key is_valid m
      → AllPairs (λ (a b : String × V). same_text (key a.1) (key b.1) ≡ false) m
  keys_apart key is_valid {m} h =
      AllPairs-zip (λ e. (e.0 ≡ key e.1) × (is_valid e.1 ≡ true)) (λ a b. same_text a.0 b.0 ≡ false)
        (λ a b. same_text (key a.1) (key b.1) ≡ false) (λ a b u w e. rw (← u.0, ← w.0) e) m h.keyed
        h.distinct

  -- What is collected has keys that are all different.
  pub selected_keys :
      (key : V → String) (is_valid : V → Bool) (p : V → Bool) {m : Entries V}
      → IsConsistent key is_valid m
      → AllPairs (λ a b. same_text (key a) (key b) ≡ false) (select p m)
  selected_keys key is_valid p {m} h =
      select-AllPairs p (λ a b. same_text (key a.1) (key b.1) ≡ false) _ (λ a b e u w. e) m
        (keys_apart key is_valid h)

  -- A query over a consistent store whose order tells any two of the values apart that it collects and
  -- that have different keys: the result does not depend on the order in which the map is iterated
  -- over, and it is strictly sorted.
  pub query_deterministic :
      (key : V → String) (is_valid : V → Bool) (less : V → V → Bool) (p : V → Bool)
      → IsStrictWeak less
      → ((a b : V) → same_text (key a) (key b) ≡ false → p a ≡ true → p b ≡ true → Apart less a b)
      → {m n : Entries V} → IsConsistent key is_valid m
      → Permᴰ m n
      → (query less p m ≡ query less p n) × AllPairs (Before less) (query less p m)
  unfolding query
  query_deterministic key is_valid less p order apart {m} h d =
      let told =
        select-AllPairs p (λ a b. same_text (key a.1) (key b.1) ≡ false) (Apart less)
          (λ a b e u w. apart a.1 b.1 e u w) m (keys_apart key is_valid h) in
      (
        sort_slice-eq_of_perm less order (select-perm p d) told,
        sort_slice-Before less order (select p m) told,
      )

  -- What a query returns of a consistent store, and what it returns of the map in another order.
  pub query-AllPairs :
      (key : V → String) (is_valid : V → Bool) (less : V → V → Bool) (p : V → Bool)
      (R : V → V → Type 0)
      → ((a b : V) → R a b → R b a)
      → ((a b : V) → same_text (key a) (key b) ≡ false → p a ≡ true → p b ≡ true → R a b)
      → {m : Entries V} → IsConsistent key is_valid m
      → AllPairs R (query less p m)
  unfolding query
  query-AllPairs key is_valid less p R flip apart {m} h =
      AllPairs-perm R flip (Permᴰ.symm (sort_slice-perm less (select p m))) (
        select-AllPairs p (λ a b. same_text (key a.1) (key b.1) ≡ false) R
          (λ a b k u w. apart a.1 b.1 k u w) m (keys_apart key is_valid h))

  pub query-perm :
      (less : V → V → Bool) (p : V → Bool) {m n : Entries V}
      → Permᴰ m n
      → Permᴰ (query less p m) (query less p n)
  unfolding query
  query-perm less p d =
      Permᴰ.trans (sort_slice-perm less (select p _))
        (Permᴰ.trans (select-perm p d) (Permᴰ.symm (sort_slice-perm less (select p _))))
