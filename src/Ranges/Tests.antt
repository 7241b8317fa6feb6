-- ===== src/Ranges/Tests.antt =====
-- Two keys held, one put between them and one taken out.
use hypergraph.Prelude.{ℕ, ◌≡◌, ◌+◌, none, some, if◌then◌else◌, ◌==◌}
use hypergraph.Ranges.{Bits, Keys, new_keys, set, delete, length_of}
use hypergraph.Ranges.Digest.{IsKeys, new_keys-IsKeys, set-IsKeys, delete-IsKeys}

abbrev hash : ℕ → ℕ → Bits
hash key length = λ i. i == key + length

abbrev held : Keys
held = set hash (set hash new_keys 5 3) 2 9

held-IsKeys : IsKeys hash held
held-IsKeys =
    (set-IsKeys hash (set hash new_keys 5 3) 2 9
      ((set-IsKeys hash new_keys 5 3 (new_keys-IsKeys hash)).0)).0

set-IsKeys_example :
    IsKeys hash (set hash held 4 1)
    × ((j : ℕ) → length_of (set hash held 4 1) j ≡ (if 4 == j then some 1 else length_of held j))
set-IsKeys_example = set-IsKeys hash held 4 1 held-IsKeys

delete-IsKeys_example :
    IsKeys hash (delete held 5)
    × ((j : ℕ) → length_of (delete held 5) j ≡ (if 5 == j then none else length_of held j))
delete-IsKeys_example = delete-IsKeys hash held 5 held-IsKeys
