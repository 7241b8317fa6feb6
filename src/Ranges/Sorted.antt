-- ===== src/Ranges/Sorted.antt =====
-- Putting a key in the sorted list of Keys (lib/ranges.js) and taking one out.
use hypergraph.Prelude.{
  ℕ, zero, suc, ◌≡◌, ◌≤◌, refl, true, false, List, [], ◌∷◌, arith, ◌==◌, if◌then◌else◌, ltb, all,
  includes, Bool-cases, inl, inr,
}
use hypergraph.Ranges.{holds_at, insert_at, remove_at}
use hypergraph.Ranges.Search.{ascending, count_below}

-- The sorted list with a key put where it belongs.
all-insert_at :
    (x n key : ℕ) (xs : List ℕ)
    → ltb x key ≡ true
    → all (λ y. ltb x y) xs ≡ true
    → all (λ y. ltb x y) (insert_at n key xs) ≡ true
unfolding insert_at
all-insert_at x n key [] l h = ground arith
all-insert_at x zero key (y ∷ ys) l h = ground arith
all-insert_at x (suc n) key (y ∷ ys) l h = ground (arith, all-insert_at x n key ys l)

all_above :
    (key x : ℕ) (xs : List ℕ)
    → key ≤ x
    → all (λ y. ltb x y) xs ≡ true
    → all (λ y. ltb key y) xs ≡ true
all_above key x [] l h = refl
all_above key x (y ∷ ys) l h = ground (arith, all_above key x ys l)

none_below_all : (key : ℕ) (xs : List ℕ) → all (λ y. ltb key y) xs ≡ true → count_below key xs ≡ 0
unfolding count_below
none_below_all key [] h = refl
none_below_all key (y ∷ ys) h = ground (arith, none_below_all key ys)

pub ascending-insert_at :
    (key : ℕ) (xs : List ℕ)
    → ascending xs ≡ true
    → includes key xs ≡ false
    → ascending (insert_at (count_below key xs) key xs) ≡ true
unfolding insert_at count_below
ascending-insert_at key [] s n = ground arith
ascending-insert_at key (x ∷ xs) s n = elim (Bool-cases (ltb x key)) [
  | inl b ↦
      ground (arith, all-insert_at x (count_below key xs) key xs b, ascending-insert_at key xs)
  | inr b ↦ ground (arith, all_above key x xs, none_below_all key xs)
]

pub includes-insert_at :
    (key n j : ℕ) (xs : List ℕ)
    → includes j (insert_at n key xs) ≡ (if key == j then true else includes j xs)
unfolding insert_at
includes-insert_at key n j [] = ground arith
includes-insert_at key zero j (x ∷ xs) = ground arith
includes-insert_at key (suc n) j (x ∷ xs) = ground (arith, includes-insert_at key n j xs)

all-remove_at :
    (x n : ℕ) (xs : List ℕ)
    → all (λ y. ltb x y) xs ≡ true
    → all (λ y. ltb x y) (remove_at n xs) ≡ true
unfolding remove_at
all-remove_at x n [] h = refl
all-remove_at x zero (y ∷ ys) h = ground arith
all-remove_at x (suc n) (y ∷ ys) h = ground (arith, all-remove_at x n ys)

pub ascending-remove_at :
    (n : ℕ) (xs : List ℕ) → ascending xs ≡ true → ascending (remove_at n xs) ≡ true
unfolding remove_at
ascending-remove_at n [] h = refl
ascending-remove_at zero (x ∷ xs) h = ground arith
ascending-remove_at (suc n) (x ∷ xs) h =
    ground (arith, all-remove_at x n xs, ascending-remove_at n xs)

not_in_above :
    (x j : ℕ) (xs : List ℕ) → all (λ y. ltb x y) xs ≡ true → j ≤ x → includes j xs ≡ false
not_in_above x j [] h l = refl
not_in_above x j (y ∷ ys) h l = ground (arith, not_in_above x j ys)

pub includes-remove_at :
    (key j : ℕ) (xs : List ℕ)
    → ascending xs ≡ true
    → includes key xs ≡ true
    → includes j (remove_at (count_below key xs) xs) ≡ (if key == j then false else includes j xs)
unfolding remove_at count_below
includes-remove_at key j [] s h = ground arith
includes-remove_at key j (x ∷ xs) s h = elim (Bool-cases (ltb x key)) [
  | inl b ↦ ground (arith, includes-remove_at key j xs)
  | inr b ↦
      ground (
        arith,
        none_below_all key xs,
        all_above key x xs,
        not_in_above x key xs,
        not_in_above x j xs,
      )
]

pub holds_at-count_below :
    (key : ℕ) (xs : List ℕ)
    → ascending xs ≡ true
    → holds_at xs (count_below key xs) key ≡ includes key xs
unfolding count_below
holds_at-count_below key [] s = ground arith
holds_at-count_below key (x ∷ xs) s = elim (Bool-cases (ltb x key)) [
  | inl b ↦ ground (arith, holds_at-count_below key xs)
  | inr b ↦ ground (arith, none_below_all key xs, all_above key x xs, not_in_above x key xs)
]
