-- ===== src/Ranges/Digest.antt =====
-- What Keys of lib/ranges.js keeps true of its list, its map and its digest.
use hypergraph.Prelude.{
  ℕ, ◌≡◌, refl, sym, ◌∙◌, ap, subst, Bool, true, false, not, ◌&&◌, Option, none, some, List, [],
  ◌∷◌, arith, ◌==◌, if◌then◌else◌, is_some, includes, get, put, remove, get-put, get-remove,
  Bool-cases, inl, inr, if_splits,
}
use hypergraph.Ranges.{
  Bits, xor_bit, xor, Item, Keys, new_keys, at, holds_at, has, length_of, insert_at, set_by, set,
  delete_by, delete,
}
use hypergraph.Ranges.Search.{ascending, at-count_below}
use hypergraph.Ranges.Sorted.{
  ascending-insert_at, includes-insert_at, ascending-remove_at, includes-remove_at,
  holds_at-count_below,
}

-- Each key of the map once.
unfoldable pub unique : List (ℕ × Item) → Bool
unique [] = true
unique ((k, e) ∷ m) = not (is_some (get m k)) && unique m

unique-put : (m : List (ℕ × Item)) (k : ℕ) (e : Item) → unique m ≡ true → unique (put m k e) ≡ true
unfolding unique put get
unique-put [] k e h = refl
unique-put ((j, f) ∷ m) k e h = ground (arith, unique-put m k e, get-put m k j e)

unique-remove : (m : List (ℕ × Item)) (k : ℕ) → unique m ≡ true → unique (remove m k) ≡ true
unfolding unique remove get
unique-remove [] k h = refl
unique-remove ((j, f) ∷ m) k h = ground (arith, unique-remove m k, get-remove m k j)

module _ (hash : ℕ → ℕ → Bits) where
  -- One bit of the XOR of the hashes of every key with its length.
  unfoldable pub total : List (ℕ × Item) → ℕ → Bool
  total [] i = false
  total ((k, e) ∷ m) i = xor_bit (hash k e.length i) (total m i)

  abbrev old_bit : Option Item → ℕ → ℕ → Bool
  old_bit none k i = false
  old_bit (some e) k i = hash k e.length i

  abbrev item_bit : Option Item → ℕ → Bool
  item_bit none i = false
  item_bit (some e) i = e.item i

  equal : (j k : ℕ) → (j == k) ≡ true → j ≡ k
  equal j k h = ground arith

  total-put :
      (m : List (ℕ × Item)) (k i : ℕ) (e : Item)
      → total (put m k e) i
        ≡ xor_bit (hash k e.length i) (xor_bit (old_bit (get m k) k i) (total m i))
  unfolding total put get
  total-put [] k i e = ground arith
  total-put ((j, f) ∷ m) k i e = elim (Bool-cases (j == k)) [
    | inl b ↦ ground (arith, ap (λ x. hash x f.length i) (equal j k b))
    | inr b ↦ ground (arith, total-put m k i e)
  ]

  total-remove :
      (m : List (ℕ × Item)) (k i : ℕ)
      → unique m ≡ true
      → total (remove m k) i ≡ xor_bit (old_bit (get m k) k i) (total m i)
  unfolding total remove get unique
  total-remove [] k i u = ground arith
  total-remove ((j, f) ∷ m) k i u = elim (Bool-cases (j == k)) [
    | inl b ↦ ground (
      arith,
      total-remove m k i,
      ap (λ x. hash x f.length i) (equal j k b),
      ap (λ x. get m x) (equal j k b),
    )
    | inr b ↦ ground (arith, total-remove m k i)
  ]

  -- What holds of the keys held.
  pub record IsKeys (ks : Keys) : Type 0 where
    pub order : ascending ks.sorted ≡ true
    pub same : (k : ℕ) → includes k ks.sorted ≡ is_some (get ks.entries k)
    pub unique_keys : unique ks.entries ≡ true
    pub items : (k i : ℕ) → item_bit (get ks.entries k) i ≡ old_bit (get ks.entries k) k i
    pub digest : (i : ℕ) → ks.digest i ≡ total ks.entries i

  put_item-IsKeys :
      (ks : Keys) (sorted : List ℕ) (digest : Bits) (k n : ℕ)
      → IsKeys ks
      → ascending sorted ≡ true
      → ((j : ℕ) → includes j sorted ≡ (if k == j then true else includes j ks.sorted))
      → ((i : ℕ) → digest i ≡ xor_bit (old_bit (get ks.entries k) k i) (total ks.entries i))
      → IsKeys (record {
        sorted = sorted;
        entries = put ks.entries k (record { length = n; item = hash k n });
        digest = xor digest (hash k n);
      })
  put_item-IsKeys ks sorted digest k n h s inc d = record {
    order = s;
    same = λ j.
        ground
          (arith, inc j, h.same j, get-put ks.entries k j (record { length = n; item = hash k n }));
    unique_keys = unique-put ks.entries k (record { length = n; item = hash k n }) h.unique_keys;
    items = λ j i. elim (Bool-cases (k == j)) [
      | inl b ↦ ground (
        arith,
        get-put ks.entries k j (record { length = n; item = hash k n }),
        ap (λ x. hash x n i) (equal k j b),
      )
      | inr b ↦
          ground
            (arith, h.items j i, get-put ks.entries k j (record { length = n; item = hash k n }))
    ];
    digest =
        λ i. ground (arith, d i, total-put ks.entries k i (record { length = n; item = hash k n }));
  }

  -- The keys as before but for one, which has this length or is not held.
  abbrev Changed : Keys → ℕ → Option ℕ → Keys → Type 0
  Changed ks k v after =
      IsKeys after × ((j : ℕ) → length_of after j ≡ (if k == j then v else length_of ks j))

  set_by-Changed :
      (ks : Keys) (k n : ℕ) (o : Option Item)
      → IsKeys ks
      → get ks.entries k ≡ o
      → Changed ks k (some n) (set_by hash ks k n o)
  unfolding set_by length_of
  set_by-Changed ks k n none h e = (
    put_item-IsKeys ks (insert_at (at ks.sorted k) k ks.sorted) ks.digest k n h
        (subst (λ i. ascending (insert_at i k ks.sorted) ≡ true)
          (sym (at-count_below ks.sorted k h.order))
          (ascending-insert_at k ks.sorted h.order (ground (arith, h.same k))))
        (λ j. includes-insert_at k (at ks.sorted k) j ks.sorted) (λ i. ground (arith, h.digest i)),
    λ j. ground (arith, get-put ks.entries k j (record { length = n; item = hash k n })),
  )
  set_by-Changed ks k n (some f) h e =
      if_splits (f.length == n) (Changed ks k (some n))
        (λ b. (
          h,
          λ j. elim (Bool-cases (k == j)) [
            | inl c ↦ ground (arith, ap (λ x. get ks.entries x) (equal k j c))
            | inr c ↦ ground arith
          ],
        ))
        (λ b. (
          put_item-IsKeys ks ks.sorted (xor ks.digest f.item) k n h h.order
              (λ j. elim (Bool-cases (k == j)) [
                | inl c ↦ ground (arith, h.same k, ap (λ x. includes x ks.sorted) (equal k j c))
                | inr c ↦ ground arith
              ])
              (λ i. ground (arith, h.digest i, h.items k i)),
          λ j. ground (arith, get-put ks.entries k j (record { length = n; item = hash k n })),
        ))

  -- Let the list of keys ascend and hold what the map holds, and the digest be the XOR of the
  -- hashes of every key with its length. Setting a key's length keeps all this, whatever the hash,
  -- and changes that key's length only.
  pub set-IsKeys :
      (ks : Keys) (k n : ℕ)
      → IsKeys ks
      → IsKeys (set hash ks k n)
        × ((j : ℕ) → length_of (set hash ks k n) j ≡ (if k == j then some n else length_of ks j))
  unfolding set
  set-IsKeys ks k n h = set_by-Changed ks k n (get ks.entries k) h refl

  delete_by-Changed :
      (ks : Keys) (k : ℕ) (o : Option Item)
      → IsKeys ks
      → get ks.entries k ≡ o
      → Changed ks k none (delete_by ks k o)
  unfolding delete_by length_of
  delete_by-Changed ks k none h e = (
    h,
    λ j. elim (Bool-cases (k == j)) [
      | inl c ↦ ground (arith, ap (λ x. get ks.entries x) (equal k j c))
      | inr c ↦ ground arith
    ],
  )
  delete_by-Changed ks k (some f) h e = (
    record {
      order = ascending-remove_at (at ks.sorted k) ks.sorted h.order;
      same = λ j. ground (
        arith,
        at-count_below ks.sorted k h.order,
        h.same j,
        h.same k,
        includes-remove_at k j ks.sorted h.order,
        get-remove ks.entries k j,
      );
      unique_keys = unique-remove ks.entries k h.unique_keys;
      items = λ j i. ground (arith, get-remove ks.entries k j, h.items j i);
      digest =
          λ i. ground (arith, h.digest i, h.items k i, total-remove ks.entries k i h.unique_keys);
    },
    λ j. ground (arith, get-remove ks.entries k j),
  )

  -- Let the list of keys ascend and hold what the map holds, and the digest be the XOR of the
  -- hashes of every key with its length. Taking a key out keeps all this, whatever the hash, and
  -- takes out that key only.
  pub delete-IsKeys :
      (ks : Keys) (k : ℕ)
      → IsKeys ks
      → IsKeys (delete ks k)
        × ((j : ℕ) → length_of (delete ks k) j ≡ (if k == j then none else length_of ks j))
  unfolding delete
  delete-IsKeys ks k h = delete_by-Changed ks k (get ks.entries k) h refl

  -- Where the list of keys ascends and holds what the map holds, the binary search finds a key if
  -- and only if the map holds it.
  pub has-get : (ks : Keys) (k : ℕ) → IsKeys ks → has ks k ≡ is_some (get ks.entries k)
  unfolding has
  has-get ks k h =
      ap (λ i. holds_at ks.sorted i k) (at-count_below ks.sorted k h.order)
      ∙ holds_at-count_below k ks.sorted h.order
      ∙ h.same k

  pub new_keys-IsKeys : IsKeys new_keys
  unfolding new_keys get unique total
  new_keys-IsKeys = record {
    order = refl;
    same = λ k. refl;
    unique_keys = refl;
    items = λ k i. refl;
    digest = λ i. refl;
  }
