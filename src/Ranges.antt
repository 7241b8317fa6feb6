-- ===== src/Ranges.antt =====
-- The keys held, with their lengths and their digest: Keys of lib/ranges.js. A key is its 32 bytes
-- read as a number, which b4a.compare orders as it does the bytes. A digest is its bits; `hash` is
-- itemOf, hypercore-crypto's hash of a key and a length.
pub mod Search
pub mod Sorted
pub mod Digest
pub mod Tests
use hypergraph.Prelude.{
  ℕ, zero, suc, ◌+◌, Bool, true, false, not, Option, none, some, List, [], ◌∷◌, ◌==◌, if◌then◌else◌,
  ltb, length, get, put, remove,
}

abbrev pub Bits : Type 0
Bits = ℕ → Bool

abbrev pub xor_bit : Bool → Bool → Bool
xor_bit true b = not b
xor_bit false b = b

-- xor
abbrev pub xor : Bits → Bits → Bits
xor d b = λ i. xor_bit (d i) (b i)

pub record Item : Type 0 where
  pub length : ℕ
  pub item : Bits

pub record Keys : Type 0 where
  pub sorted : List ℕ
  pub entries : List (ℕ × Item)
  pub digest : Bits

unfoldable pub new_keys : Keys
new_keys = record { sorted = []; entries = []; digest = λ i. false }

-- n >> 1
unfoldable pub half : ℕ → ℕ
half zero = zero
half (suc zero) = zero
half (suc (suc n)) = suc (half n)

-- Is the key at an index before `key`? Asked of indexes in the list only.
unfoldable pub is_before : List ℕ → ℕ → ℕ → Bool
is_before [] i key = false
is_before (x ∷ xs) zero key = ltb x key
is_before (x ∷ xs) (suc i) key = is_before xs i key

-- The loop of #at: a round of fuel for each place between the bounds.
unfoldable pub at_from : ℕ → List ℕ → ℕ → ℕ → ℕ → ℕ
unfolding is_before half
at_from zero sorted key lo hi = lo
at_from (suc fuel) sorted key lo hi =
    let mid = half (lo + hi) in
    let right = is_before sorted mid key in
    let found =
      at_from fuel sorted key (if right then suc mid else lo) (if right then hi else mid) in
    if ltb lo hi then found else lo

-- #at
unfoldable pub at : List ℕ → ℕ → ℕ
unfolding at_from
at sorted key = at_from (length sorted) sorted key 0 (length sorted)

abbrev pub holds_at : List ℕ → ℕ → ℕ → Bool
holds_at [] i key = false
holds_at (x ∷ xs) zero key = x == key
holds_at (x ∷ xs) (suc i) key = holds_at xs i key

unfoldable pub has : Keys → ℕ → Bool
unfolding at
has ks key = holds_at ks.sorted (at ks.sorted key) key

-- -1 is none
unfoldable pub length_of : Keys → ℕ → Option ℕ
length_of ks key = elim (get ks.entries key) [ none ↦ none | some e ↦ some e.length ]

-- sorted.splice(i, 0, key)
unfoldable pub insert_at : ℕ → ℕ → List ℕ → List ℕ
insert_at i key [] = key ∷ []
insert_at zero key (x ∷ xs) = key ∷ x ∷ xs
insert_at (suc i) key (x ∷ xs) = x ∷ insert_at i key xs

-- sorted.splice(i, 1)
unfoldable pub remove_at : ℕ → List ℕ → List ℕ
remove_at i [] = []
remove_at zero (x ∷ xs) = xs
remove_at (suc i) (x ∷ xs) = x ∷ remove_at i xs

module _ (hash : ℕ → ℕ → Bits) where
  abbrev put_item : Keys → ℕ → ℕ → Keys
  put_item ks key length =
      let item = hash key length in
      record ks {
        entries = put ks.entries key (record { length = length; item = item });
        digest = xor ks.digest item;
      }

  -- set, given the entry before
  unfoldable pub set_by : Keys → ℕ → ℕ → Option Item → Keys
  unfolding at insert_at
  set_by ks key length none =
      put_item (record ks { sorted = insert_at (at ks.sorted key) key ks.sorted }) key length
  set_by ks key length (some e) =
      if e.length == length
      then ks
      else put_item (record ks { digest = xor ks.digest e.item }) key length

  unfoldable pub set : Keys → ℕ → ℕ → Keys
  unfolding set_by
  set ks key length = set_by ks key length (get ks.entries key)

unfoldable pub delete_by : Keys → ℕ → Option Item → Keys
unfolding at remove_at
delete_by ks key none = ks
delete_by ks key (some e) = record {
  sorted = remove_at (at ks.sorted key) ks.sorted;
  entries = remove ks.entries key;
  digest = xor ks.digest e.item;
}

unfoldable pub delete : Keys → ℕ → Keys
unfolding delete_by
delete ks key = delete_by ks key (get ks.entries key)
