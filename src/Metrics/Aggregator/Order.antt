-- ===== src/Metrics/Aggregator/Order.antt =====
-- The trades that internal/metrics/aggregator.go aggregates, and the order in which the store has them.
use mathlib.Core.List.{Permᴰ}
use mathlib.Core.List.Permᴰ
use mathlib.Core.Path.{subst}
use solana_token_lab.Base.{
  ◌≡◌, refl, sym, ap, ◌∙◌, Bool, true, false, ◌&&◌, Bool-cases, List-cases, inl, inr, List, [], ◌∷◌,
  String, same_text, same_text_iff, arith,
}
use solana_token_lab.Base.Int.{ℤ}
use solana_token_lab.Base.Lists.{
  length, length-perm, keep, keep-perm, keep-keep, AllPairs, AllPairs-imp,
}
use solana_token_lab.Base.Sort.{sort_slice, sort_slice-perm}
use solana_token_lab.Result.{ok, err, Result-cases}
use solana_token_lab.Float64.{Float64}
use solana_token_lab.Domain.{TradeRecord}
use solana_token_lab.Strategy.Input.{canonical_type}
use solana_token_lab.Storage.Keyed.{select, query}
use solana_token_lab.Storage.Keyed.Inserts.{IsConsistent}
use solana_token_lab.Storage.Keyed.Queries.{
  values, select-keep, select_all, select-perm, selected_keys,
}
use solana_token_lab.Storage.Candidates.{CandidateStore, get_by_id}
use solana_token_lab.Storage.Trades.{
  TradeRecordStore, trade_key, is_valid, by_entry, get_by_strategy_scenario, get_all,
}
use solana_token_lab.Metrics.{source_matches_entry_event_type}
use solana_token_lab.Metrics.Laws.{Distinct, compute_from_trades-perm}
use solana_token_lab.Metrics.Aggregator.{
  Aggregator, count_missing, filter_canonical, load_trades_by_canonical_strategy,
  filter_by_entry_event_type, aggregate_of, compute_aggregate,
}

-- The same trades, in another order.
perm_nil : {A : Type 0} {xs : List A} → Permᴰ [] xs → xs ≡ []
perm_nil {xs = []} d = refl
perm_nil {xs = x ∷ xs} d = let same : 0 ≡ length (x ∷ xs) = length-perm d in absurd (omega arith)

module _ {F : Type 0} (strategy_id scenario_id entry_event_type : String) where
  abbrev pub is_exact : TradeRecord F → Bool
  is_exact t = same_text t.strategy_id strategy_id && same_text t.scenario_id scenario_id

  abbrev pub is_canonical : TradeRecord F → Bool
  is_canonical t =
      same_text t.scenario_id scenario_id && same_text (canonical_type t.strategy_id) strategy_id

  -- A trade whose candidate is stored, with a source that matches.
  abbrev pub is_of_source : CandidateStore → TradeRecord F → Bool
  is_of_source candidates t = elim (get_by_id t.candidate_id candidates) [
    | err e ↦ false
    | ok candidate ↦ source_matches_entry_event_type candidate.source entry_event_type
  ]

  -- The test for the strategy: its very identifier, if the store has a trade with it, and else its type.
  abbrev pub strategy_test : List (TradeRecord F) → TradeRecord F → Bool
  strategy_test [] = is_canonical
  strategy_test (t ∷ ts) = is_exact

  abbrev pub is_of_strategy : TradeRecordStore F → TradeRecord F → Bool
  is_of_strategy s = strategy_test (select is_exact s)

  -- The stored trades that an aggregate is to summarise.
  abbrev pub wanted : Aggregator F → List (TradeRecord F)
  wanted a =
      select (λ t. is_of_strategy a.trade_record_store t && is_of_source a.candidate_store t)
        a.trade_record_store

  filter_canonical-keep :
      (ts : List (TradeRecord F))
      → filter_canonical strategy_id scenario_id ts ≡ keep is_canonical ts
  unfolding filter_canonical keep
  filter_canonical-keep [] = refl
  filter_canonical-keep (t ∷ ts) = rw (← filter_canonical-keep ts) (ground arith)

  filter_by-keep :
      (candidates : CandidateStore) (missing : List (String × ℤ)) (ts : List (TradeRecord F))
      → (filter_by_entry_event_type candidates entry_event_type missing ts).0
        ≡ keep (is_of_source candidates) ts
  unfolding filter_by_entry_event_type keep
  filter_by-keep candidates missing [] = refl
  filter_by-keep candidates missing (t ∷ ts) =
      let counted = filter_by-keep candidates (count_missing t.candidate_id missing) ts in
      let rest = filter_by-keep candidates missing ts in
      elim (Result-cases (get_by_id t.candidate_id candidates)) [
        | inl (e, r) ↦
            let no : is_of_source candidates t ≡ false = rw (is_of_source, r) refl in
            rw (no, filter_by_entry_event_type, r) counted
        | inr (c, r) ↦
            elim (Bool-cases (source_matches_entry_event_type c.source entry_event_type)) [
              | inl m ↦
                  let yes : is_of_source candidates t ≡ true = rw (is_of_source, r, m) refl in
                  rw (yes, filter_by_entry_event_type, r, m) (ap (λ us. t ∷ us) rest)
              | inr m ↦
                  let no : is_of_source candidates t ≡ false = rw (is_of_source, r, m) refl in
                  rw (no, filter_by_entry_event_type, r, m) rest
            ]
      ]

  sorted_nil :
      (less : TradeRecord F → TradeRecord F → Bool) (xs : List (TradeRecord F))
      → ¬ (xs ≡ [])
      → ¬ (sort_slice less xs ≡ [])
  sorted_nil less xs n e = n (perm_nil (subst (λ ys. Permᴰ ys xs) e (sort_slice-perm less xs)))

  exact_trades :
      (s : TradeRecordStore F)
      → get_by_strategy_scenario strategy_id scenario_id s ≡ sort_slice by_entry (select is_exact s)
  unfolding get_by_strategy_scenario query
  exact_trades s = refl

  load_exact :
      (a : Aggregator F)
      → ¬ (select is_exact a.trade_record_store ≡ [])
      → load_trades_by_canonical_strategy strategy_id scenario_id a
        ≡ sort_slice by_entry (select is_exact a.trade_record_store)
  unfolding load_trades_by_canonical_strategy
  load_exact a n =
      let s = a.trade_record_store in
      elim (List-cases (get_by_strategy_scenario strategy_id scenario_id s)) [
        | inl e ↦ absurd (sorted_nil by_entry (select is_exact s) n (sym (exact_trades s) ∙ e))
        | inr (t, ts, e) ↦ rw (load_trades_by_canonical_strategy, e) refl ∙ exact_trades s
      ]

  load_canonical :
      (a : Aggregator F)
      → select is_exact a.trade_record_store ≡ []
      → load_trades_by_canonical_strategy strategy_id scenario_id a
        ≡ filter_canonical strategy_id scenario_id (get_all a.trade_record_store)
  unfolding load_trades_by_canonical_strategy
  load_canonical a e =
      let s = a.trade_record_store in
      let none_here : get_by_strategy_scenario strategy_id scenario_id s ≡ [] =
        exact_trades s ∙ ap (sort_slice by_entry) e in
      rw (load_trades_by_canonical_strategy, none_here) refl

  all_trades-perm : (s : TradeRecordStore F) → Permᴰ (get_all s) (values s)
  unfolding get_all query
  all_trades-perm s =
      Permᴰ.trans (sort_slice-perm by_entry (select (λ t. true) s))
        (subst (λ ts. Permᴰ (select (λ t. true) s) ts) (select_all s) (Permᴰ.refl _))

  load-perm :
      (a : Aggregator F)
      → Permᴰ
          (load_trades_by_canonical_strategy strategy_id scenario_id a)
          (select (is_of_strategy a.trade_record_store) a.trade_record_store)
  load-perm a =
      let s = a.trade_record_store in
      elim (List-cases (select is_exact s)) [
        | inl e ↦
            let test : is_of_strategy s ≡ is_canonical = ap strategy_test e in
            rw
              (
                load_canonical a e,
                test,
                filter_canonical-keep (get_all s),
                select-keep is_canonical s,
              )
              (keep-perm is_canonical (all_trades-perm s))
        | inr (t, ts, e) ↦
            let test : is_of_strategy s ≡ is_exact = ap strategy_test e in
            rw (load_exact a (λ n. cc), test) (sort_slice-perm by_entry (select is_exact s))
      ]

  wanted-perm :
      (a : Aggregator F)
      → Permᴰ
          (filter_by_entry_event_type a.candidate_store entry_event_type a.missing_candidates
            (load_trades_by_canonical_strategy strategy_id scenario_id a)).0
          (wanted a)
  wanted-perm a =
      let s = a.trade_record_store in
      let base = is_of_strategy s in
      let source = is_of_source a.candidate_store in
      let same : keep source (select base s) ≡ wanted a =
        ap (keep source) (select-keep base s)
        ∙ keep-keep base source (values s)
        ∙ sym (select-keep (λ t. base t && source t) s) in
      subst (λ ts. Permᴰ ts (wanted a)) (sym (filter_by-keep a.candidate_store _ _))
        (subst
          (λ ts.
            Permᴰ (keep source (load_trades_by_canonical_strategy strategy_id scenario_id a)) ts)
          same (keep-perm source (load-perm a)))

  strategy_test-perm :
      (xs ys : List (TradeRecord F)) → Permᴰ xs ys → strategy_test xs ≡ strategy_test ys
  strategy_test-perm [] ys d = rw (perm_nil d) refl
  strategy_test-perm (x ∷ xs) [] d = let none_here : x ∷ xs ≡ [] = perm_nil (Permᴰ.symm d) in cc
  strategy_test-perm (x ∷ xs) (y ∷ ys) d = refl

  wanted-Distinct :
      (a : Aggregator F)
      → IsConsistent trade_key is_valid a.trade_record_store
      → AllPairs Distinct (wanted a)
  wanted-Distinct a h =
      AllPairs-imp (λ (t u : TradeRecord F). same_text t.trade_id u.trade_id ≡ false) Distinct
        (λ t u apart (_, same). ground (arith, same_text_iff t.trade_id u.trade_id)) (wanted a)
        (selected_keys trade_key is_valid _ h)

  wanted_reordered :
      (a : Aggregator F) {s : TradeRecordStore F}
      → Permᴰ a.trade_record_store s
      → Permᴰ (wanted a) (wanted record a { trade_record_store = s })
  wanted_reordered a {s} d =
      let tests : is_of_strategy a.trade_record_store ≡ is_of_strategy s =
        strategy_test-perm _ _ (select-perm is_exact d) in
      subst
        (λ (p : TradeRecord F → Bool).
          Permᴰ (wanted a) (select (λ t. p t && is_of_source a.candidate_store t) s))
        tests (select-perm _ d)

  module _ ⦃d : Float64 F⦄ where
    aggregate_of-perm :
        {xs ys : List (TradeRecord F)}
        → Permᴰ xs ys
        → AllPairs Distinct xs
        → aggregate_of strategy_id scenario_id entry_event_type xs
          ≡ aggregate_of strategy_id scenario_id entry_event_type ys
    unfolding aggregate_of
    aggregate_of-perm {xs = []} {ys} p h = rw (perm_nil p) refl
    aggregate_of-perm {xs = x ∷ xs} {ys = []} p h =
        let none_here : x ∷ xs ≡ [] = perm_nil (Permᴰ.symm p) in cc
    aggregate_of-perm {xs = x ∷ xs} {ys = y ∷ ys} p h =
        rw (compute_from_trades-perm entry_event_type p h) refl

    -- The aggregate is that of exactly the stored trades that are wanted: those of the scenario with the
    -- strategy's very identifier or, where the store has none, of its canonical type, and whose candidate
    -- is stored and has the source of the entry event; it does not depend on the order in which the
    -- map of the trade store, which is consistent, is iterated over.
    pub compute_aggregate-wanted :
        (a : Aggregator F) {s : TradeRecordStore F}
        → IsConsistent trade_key is_valid a.trade_record_store
        → Permᴰ a.trade_record_store s
        → ((compute_aggregate strategy_id scenario_id entry_event_type a).0
            ≡ aggregate_of strategy_id scenario_id entry_event_type (wanted a))
          × ((compute_aggregate strategy_id scenario_id entry_event_type a).0
              ≡ (compute_aggregate strategy_id scenario_id entry_event_type
                  record a { trade_record_store = s }).0)
    unfolding compute_aggregate
    compute_aggregate-wanted a {s} h p =
        let b : Aggregator F = record a { trade_record_store = s } in
        let distinct = wanted-Distinct a h in
        let first = sym (aggregate_of-perm (Permᴰ.symm (wanted-perm a)) distinct) in
        let again =
          aggregate_of-perm (Permᴰ.trans (wanted_reordered a p) (Permᴰ.symm (wanted-perm b)))
            distinct in
        (first, first ∙ again)
