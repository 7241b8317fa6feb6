-- ===== src/Ranges/Search.antt =====
-- The binary search of Keys (#at of lib/ranges.js).
use hypergraph.Prelude.{
  ℕ, zero, suc, ◌≡◌, ◌≤◌, ◌+◌, refl, Bool, true, ◌&&◌, List, [], ◌∷◌, arith, if◌then◌else◌, ltb,
  all, length, Bool-cases, inl, inr,
}
use hypergraph.Ranges.{half, is_before, at_from, at}

-- Ascending, no key twice.
abbrev pub ascending : List ℕ → Bool
ascending [] = true
ascending (x ∷ xs) = all (λ y. ltb x y) xs && ascending xs

-- How many of the keys are before `key`.
unfoldable pub count_below : ℕ → List ℕ → ℕ
count_below key [] = 0
count_below key (x ∷ xs) = let rest = count_below key xs in if ltb x key then suc rest else rest

none_below :
    (key x : ℕ) (xs : List ℕ) → key ≤ x → all (λ y. ltb x y) xs ≡ true → count_below key xs ≡ 0
unfolding count_below
none_below key x [] l h = refl
none_below key x (y ∷ xs) l h = ground (arith, none_below key x xs l)

count_below-length : (key : ℕ) (xs : List ℕ) → count_below key xs ≤ length xs
unfolding count_below
count_below-length key [] = ground arith
count_below-length key (x ∷ xs) = ground (arith, count_below-length key xs)

is_before-count_below :
    (key i : ℕ) (xs : List ℕ)
    → ascending xs ≡ true
    → is_before xs i key ≡ ltb i (count_below key xs)
unfolding is_before count_below
is_before-count_below key i [] h = ground arith
is_before-count_below key zero (x ∷ xs) h = ground (arith, none_below key x xs)
is_before-count_below key (suc i) (x ∷ xs) h =
    ground (arith, none_below key x xs, is_before-count_below key i xs)

half_between : (n : ℕ) → (half n + half n ≤ n) × (n ≤ suc (half n + half n))
unfolding half
half_between zero = ground arith
half_between (suc zero) = ground arith
half_between (suc (suc n)) = ground (arith, half_between n)

at_from-count_below :
    (fuel : ℕ) (xs : List ℕ) (key lo hi : ℕ)
    → ascending xs ≡ true
    → lo ≤ count_below key xs
    → count_below key xs ≤ hi
    → hi ≤ lo + fuel
    → at_from fuel xs key lo hi ≡ count_below key xs
unfolding at_from
at_from-count_below zero xs key lo hi s l h f = ground arith
at_from-count_below (suc fuel) xs key lo hi s l h f = elim (Bool-cases (ltb lo hi)) [
  | inr e ↦ ground arith
  | inl e ↦ elim (Bool-cases (is_before xs (half (lo + hi)) key)) [
    | inl b ↦ ground (
      arith,
      half_between (lo + hi),
      is_before-count_below key (half (lo + hi)) xs s,
      at_from-count_below fuel xs key (suc (half (lo + hi))) hi s,
    )
    | inr b ↦ ground (
      arith,
      half_between (lo + hi),
      is_before-count_below key (half (lo + hi)) xs s,
      at_from-count_below fuel xs key lo (half (lo + hi)) s,
    )
  ]
]

pub at-count_below : (xs : List ℕ) (key : ℕ) → ascending xs ≡ true → at xs key ≡ count_below key xs
unfolding at
at-count_below xs key s =
    at_from-count_below (length xs) xs key 0 (length xs) s (ground arith)
      (count_below-length key xs) (ground arith)
