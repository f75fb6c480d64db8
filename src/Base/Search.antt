-- ===== src/Base/Search.antt =====
-- Go's `sort.Search`: the binary search of the standard library, on fuel, and what it finds.
use Prim.Native.Nat.{ℕ, zero, suc, ◌+◌, ◌/◌, ◌≤◌, ◌<◌}
use mathlib.Core.Path.{◌≡◌}
use mathlib.Core.Bool.{Bool, true, false}
use mathlib.Core.Logic.{inl, inr}
use native.Mathlib.Omega.{arith}
use solana_token_lab.Base.Tests.{Bool-cases, ltb}

-- `for i < j { h := (i+j)/2; if !f(h) { i = h + 1 } else { j = h } }`
unfoldable pub search_loop : ℕ → (ℕ → Bool) → ℕ → ℕ → ℕ
search_loop zero f i j = i
search_loop (suc fuel) f i j = elim (ltb i j) [
  | false ↦ i
  | true ↦ elim (f ((i + j) / 2)) [
    | false ↦ search_loop fuel f (suc ((i + j) / 2)) j
    | true ↦ search_loop fuel f i ((i + j) / 2)
  ]
]

-- Each round shortens the interval, so `n` rounds are enough.
unfoldable pub search : ℕ → (ℕ → Bool) → ℕ
unfolding search_loop
search n f = search_loop n f 0 n

-- The test fails below `r` and holds from there on, up to `n`.
pub record IsBoundary (n : ℕ) (f : ℕ → Bool) (r : ℕ) : Type 0 where
  pub within : r ≤ n
  pub fails : (k : ℕ) → k < r → f k ≡ false
  pub holds : (k : ℕ) → r ≤ k → k < n → f k ≡ true

module _ (n : ℕ) (f : ℕ → Bool) (up : (i j : ℕ) → i ≤ j → j < n → f i ≡ true → f j ≡ true) where
  below : (k m : ℕ) → k ≤ m → m < n → f m ≡ false → f k ≡ false
  below k m h w e = elim (Bool-cases (f k)) [ inr o ↦ o | inl t ↦ let t' = up k m h w t in cc ]

  search_loop-IsBoundary :
      (fuel i j : ℕ)
      → i ≤ j
      → j ≤ n
      → j ≤ i + fuel
      → ((k : ℕ) → k < i → f k ≡ false)
      → ((k : ℕ) → j ≤ k → k < n → f k ≡ true)
      → IsBoundary n f (search_loop fuel f i j)
  unfolding search_loop
  search_loop-IsBoundary zero i j h w e low high = record {
    within = omega arith;
    fails = low;
    holds = λ k a b. high k (omega arith) b;
  }
  search_loop-IsBoundary (suc fuel) i j h w e low high =
      let mid = (i + j) / 2 in
      elim (Bool-cases (ltb i j)) [
        | inr o ↦
            rw (search_loop, o)
              record { within = omega arith; fails = low; holds = λ k a b. high k (ground arith) b }
        | inl o ↦ elim (Bool-cases (f mid)) [
          | inl t ↦
              rw (search_loop, o, t)
                (search_loop-IsBoundary fuel i mid (ground arith) (ground arith) (ground arith) low
                  (λ k a b. up mid k a b t))
          | inr t ↦
              rw (search_loop, o, t)
                (search_loop-IsBoundary fuel (suc mid) j (ground arith) w (ground arith)
                  (λ k a. below k mid (ground arith) (ground arith) t) high)
        ]
      ]

  -- The binary search finds the boundary of a test that does not fail again once it holds.
  pub search-IsBoundary : IsBoundary n f (search n f)
  unfolding search
  search-IsBoundary =
      search_loop-IsBoundary n 0 n (omega arith) (omega arith) (omega arith)
        (λ k a. absurd (omega arith)) (λ k a b. absurd (omega arith))
