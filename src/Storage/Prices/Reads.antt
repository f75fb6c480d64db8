-- ===== src/Storage/Prices/Reads.antt =====
-- What PriceTimeseriesStore of internal/storage/memory returns: the reads of a series, and the range of
-- all timestamps.
use mathlib.Core.List.{Permᴰ}
use mathlib.Core.Path.{ap₂}
use solana_token_lab.Base.{
  ◌≡◌, refl, sym, ◌∙◌, ◌⊎◌, inl, inr, true, false, Bool-cases, ◌&&◌, List, [], ◌∷◌, map, String,
  same_text, same_text_iff, if◌then◌else◌, arith,
}
use solana_token_lab.Base.Int.{ℤ, pos, ltb_ℤ, leb_ℤ, ◌≤ℤ◌, compare_ℤ}
use solana_token_lab.Base.ThreeWay.{IsThreeWay, on-IsThreeWay, compare_ℤ-IsThreeWay}
use solana_token_lab.Base.Lists.{All, AllPairs}
use solana_token_lab.Base.Sort.{Apart, Before, less_of-IsStrictWeak, Apart-iff}
use solana_token_lab.Position.{ℤ_eq}
use solana_token_lab.Domain.{PriceTimeseriesPoint}
use solana_token_lab.Storage.Keyed.{select}
use solana_token_lab.Storage.Keyed.Inserts.{IsConsistent}
use solana_token_lab.Storage.Keyed.Queries.{select_all, query_deterministic}
use solana_token_lab.Storage.Prices.{
  PriceTimeseriesStore, price_key, key_of, is_valid, by_time, widen, range_of,
  get_global_time_range, get_by_candidate_id, get_by_time_range,
}

≤ℤ-trans : (a b c : ℤ) → a ≤ℤ b → b ≤ℤ c → a ≤ℤ c
≤ℤ-trans a b c h k = omega arith

-- The lower and the higher of two.
lower_of :
    (low t : ℤ)
    → let l = if ltb_ℤ t low then t else low in (l ≤ℤ low) × (l ≤ℤ t) × ((l ≡ low) ⊎ (l ≡ t))
lower_of low t = elim (Bool-cases (ltb_ℤ t low)) [
  | inl e ↦ rw e (ground arith, ground arith, inr refl)
  | inr e ↦ rw e (ground arith, ground arith, inl refl)
]

higher_of :
    (high t : ℤ)
    → let h = if ltb_ℤ high t then t else high in (high ≤ℤ h) × (t ≤ℤ h) × ((h ≡ high) ⊎ (h ≡ t))
higher_of high t = elim (Bool-cases (ltb_ℤ high t)) [
  | inl e ↦ rw e (ground arith, ground arith, inr refl)
  | inr e ↦ rw e (ground arith, ground arith, inl refl)
]

module _ {F : Type 0} where
  by_time-IsThreeWay :
      IsThreeWay λ (a b : PriceTimeseriesPoint F). compare_ℤ a.timestamp_ms b.timestamp_ms
  by_time-IsThreeWay = on-IsThreeWay (λ p. p.timestamp_ms) compare_ℤ-IsThreeWay

  -- Points of one candidate that have different keys are apart in time.
  Apart-by_time :
      (candidate_id : String) (a b : PriceTimeseriesPoint F)
      → same_text (key_of a) (key_of b) ≡ false
      → same_text a.candidate_id candidate_id ≡ true
      → same_text b.candidate_id candidate_id ≡ true
      → Apart by_time a b
  Apart-by_time c a b h u w = (Apart-iff by_time-IsThreeWay a b).1 λ e.
      let times = ℤ_eq a.timestamp_ms b.timestamp_ms e in
      let ids = (same_text_iff a.candidate_id c).0 u ∙ sym ((same_text_iff b.candidate_id c).0 w) in
      let keys = ap₂ price_key ids times in cc ((same_text_iff (key_of a) (key_of b)).1 keys)

  -- The points of a candidate that a consistent store returns, all of them or those of a time range,
  -- stand in strictly ascending order of time and do not depend on the order in which the map of the
  -- store is iterated over.
  pub reads_deterministic :
      (candidate_id : String) (start end_time : ℤ) {s s' : PriceTimeseriesStore F}
      → IsConsistent key_of is_valid s
      → Permᴰ s s'
      → ((get_by_candidate_id candidate_id s ≡ get_by_candidate_id candidate_id s')
          × AllPairs (Before by_time) (get_by_candidate_id candidate_id s))
        × (get_by_time_range candidate_id start end_time s
            ≡ get_by_time_range candidate_id start end_time s')
        × AllPairs (Before by_time) (get_by_time_range candidate_id start end_time s)
  unfolding get_by_candidate_id get_by_time_range
  reads_deterministic c start end_time h d =
      let order = less_of-IsStrictWeak by_time-IsThreeWay in
      let (same, sorted) =
        query_deterministic key_of is_valid by_time
          (λ p.
            same_text p.candidate_id c
            && leb_ℤ start p.timestamp_ms
            && leb_ℤ p.timestamp_ms end_time)
          order (λ a b e u w. Apart-by_time c a b e (ground arith) (ground arith)) h d in
      (query_deterministic key_of is_valid by_time _ order (Apart-by_time c) h d, same, sorted)

  abbrev pub Attains : ℤ → List (PriceTimeseriesPoint F) → Type 0
  Attains t [] = ⊥
  Attains t (p ∷ ps) = (p.timestamp_ms ≡ t) ⊎ Attains t ps

  -- Bounds that the timestamps of some points keep, and that two of the points attain.
  pub record Bounds (ps : List (PriceTimeseriesPoint F)) (range : ℤ × ℤ) : Type 0 where
    pub within : All (λ p. (range.0 ≤ℤ p.timestamp_ms) × (p.timestamp_ms ≤ℤ range.1)) ps
    pub least : Attains range.0 ps
    pub greatest : Attains range.1 ps

  -- What `widen` does to bounds of the points before.
  record Widened (low high : ℤ) (ps : List (PriceTimeseriesPoint F)) (range : ℤ × ℤ) : Type 0 where
    down : range.0 ≤ℤ low
    up : high ≤ℤ range.1
    within : All (λ p. (range.0 ≤ℤ p.timestamp_ms) × (p.timestamp_ms ≤ℤ range.1)) ps
    least : (low ≡ range.0) ⊎ Attains range.0 ps
    greatest : (high ≡ range.1) ⊎ Attains range.1 ps

  widen_lem :
      (low high : ℤ) (ps : List (PriceTimeseriesPoint F)) → Widened low high ps (widen low high ps)
  unfolding widen
  widen_lem low high [] = record {
    down = ground arith;
    up = ground arith;
    within = tt;
    least = inl refl;
    greatest = inl refl;
  }
  widen_lem low high (p ∷ ps) =
      let t = p.timestamp_ms in
      let low' = if ltb_ℤ t low then t else low in
      let high' = if ltb_ℤ high t then t else high in
      let rest = widen_lem low' high' ps in
      let range = widen low' high' ps in
      let (l, lt, l_one) = lower_of low t in
      let (h, ht, h_one) = higher_of high t in
      record {
        down = ≤ℤ-trans range.0 low' low rest.down l;
        up = ≤ℤ-trans high high' range.1 h rest.up;
        within = (
          (≤ℤ-trans range.0 low' t rest.down lt, ≤ℤ-trans t high' range.1 ht rest.up),
          rest.within,
        );
        least = elim rest.least [
          | inr found ↦ inr (inr found)
          | inl e ↦ elim l_one [ inl k ↦ inl (sym k ∙ e) | inr k ↦ inr (inl (sym k ∙ e)) ]
        ];
        greatest = elim rest.greatest [
          | inr found ↦ inr (inr found)
          | inl e ↦ elim h_one [ inl k ↦ inl (sym k ∙ e) | inr k ↦ inr (inl (sym k ∙ e)) ]
        ];
      }

  -- The range of all timestamps: of an empty store zero twice, of any other the least and the greatest
  -- timestamp of its points, each of which a stored point has.
  pub get_global_time_range-Bounds :
      (s : PriceTimeseriesStore F)
      → ((s ≡ []) × (get_global_time_range s ≡ (pos 0, pos 0)))
        ⊎ Bounds (map (λ e. e.1) s) (get_global_time_range s)
  unfolding get_global_time_range range_of select
  get_global_time_range-Bounds [] = inl (refl, refl)
  get_global_time_range-Bounds ((k, p) ∷ s) =
      let w = widen_lem p.timestamp_ms p.timestamp_ms (map (λ e. e.1) s) in
      let bounds : Bounds (map (λ e. e.1) ((k, p) ∷ s))
          (widen p.timestamp_ms p.timestamp_ms (map (λ e. e.1) s)) =
        record { within = ((w.down, w.up), w.within); least = w.least; greatest = w.greatest } in
      inr (rw (select_all s) bounds)
