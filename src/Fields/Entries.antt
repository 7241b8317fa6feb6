-- ===== src/Fields/Entries.antt =====
-- Bytes as the entries of lib/fields.js: the loops of unknownOf and decode come to an end.
use mathlib.Core.List.{append_assoc}
use hypergraph.Prelude.{
  none_not, some_inj, ℕ, ◌≡◌, ◌<◌, refl, sym, ap, ◌∙◌, subst, true, none, some, List, [], ◌∷◌, ◌++◌,
  if◌then◌else◌, leb, leb→le, length, take, is_some, arith, length-append, Bool-cases, Option-cases,
  inl, inr,
}
use hypergraph.Encodings.Bytes.{drop, take_before, take-append, drop-append, take-drop, length-take}
use hypergraph.Encodings.Codec.{Bytes, Plain}
use hypergraph.Fields.Kinds.{Codecs, FieldList, by_number}
use hypergraph.Fields.Codec.{next_entry}

-- c.uint reads at least a byte, and looks at no byte after those that it reads.
abbrev pub IsLocal : Plain ℕ → Type 0
IsLocal p =
    (b rest : Bytes) (n : ℕ)
    → p.dec b ≡ some (n, rest)
    → (own : Bytes) × (b ≡ own ++ rest)
      × (0 < length own)
      × ((more : Bytes) → p.dec (own ++ more) ≡ some (n, more))

abbrev pub Entry : Type 0
Entry = ℕ × Bytes × Bytes

module _ (c : Codecs) where
  -- The bytes of one entry, whatever follows them.
  pub record IsEntry (e : Entry) : Type 0 where
    pub is_filled : 0 < length e.2
    pub reads : (more : Bytes) → next_entry c (e.2 ++ more) ≡ some (e.0, e.1, e.2, more)

  -- The bytes are these entries, one after the other.
  pub data Entries : Bytes → List Entry → Type 0 where
    done : Entries [] []
    more :
        {b : Bytes} {es : List Entry} (e : Entry)
        → IsEntry e
        → Entries b es
        → Entries (e.2 ++ b) (e ∷ es)

  -- After some entries, bytes that are no entry.
  pub record IsBroken (b : Bytes) : Type 0 where
    pub good : Bytes
    pub entries : List Entry
    pub bad : Bytes
    pub are_entries : Entries good entries
    pub is_split : b ≡ good ++ bad
    pub is_left : 0 < length bad
    pub is_bad : next_entry c bad ≡ none

  -- The own bytes of the entries that a list of fields does not have.
  abbrev pub unknown_in : FieldList → List Entry → List Bytes
  unknown_in fields [] = []
  unknown_in fields (e ∷ es) =
      if is_some (by_number fields e.0) then unknown_in fields es else e.2 ∷ unknown_in fields es

-- What c.uint reads from its own bytes, whatever follows.
abbrev pub Numbers : Codecs → Bytes → ℕ → Type 0
Numbers c own n = (more : Bytes) → c.wire.uint.dec (own ++ more) ≡ some (n, more)

module _ (c : Codecs) (a b v : Bytes) (n : ℕ) (p : Numbers c a n) (q : Numbers c b (length v)) where
  -- A head and a value read as an entry.
  pub entry_reads :
      (rest : Bytes) → next_entry c (((a ++ b) ++ v) ++ rest) ≡ some (n, v, (a ++ b) ++ v, rest)
  unfolding next_entry
  entry_reads rest =
      let whole : ((a ++ b) ++ v) ++ rest ≡ a ++ (b ++ (v ++ rest)) =
        append_assoc (a ++ b) v rest ∙ append_assoc a b (v ++ rest) in
      let first : c.wire.uint.dec (((a ++ b) ++ v) ++ rest) ≡ some (n, b ++ (v ++ rest)) =
        rw whole (p (b ++ (v ++ rest))) in
      let fits : leb (length v) (length (v ++ rest)) ≡ true =
        ground (arith, length-append v rest) in
      rw
        (
          first,
          q (v ++ rest),
          fits,
          take-append v rest,
          drop-append v rest,
          take_before ((a ++ b) ++ v) rest,
        )
        refl

  pub uints-IsEntry : 0 < length a → IsEntry c (n, v, (a ++ b) ++ v)
  uints-IsEntry h = record {
    is_filled = omega (arith, length-append (a ++ b) v, length-append a b);
    reads = entry_reads;
  }

split_at : (a d v w b r s : Bytes) → b ≡ a ++ r → r ≡ d ++ s → s ≡ v ++ w → b ≡ ((a ++ d) ++ v) ++ w
split_at a d v w b r s h k j =
    h
    ∙ ap (λ x. a ++ x) (k ∙ ap (λ y. d ++ y) j)
    ∙ sym (append_assoc (a ++ d) v w ∙ append_assoc a d (v ++ w))

module _ (c : Codecs) (local : IsLocal c.wire.uint) where
  abbrev pub IsNext : Bytes → ℕ × Bytes × Bytes × Bytes → Type 0
  IsNext b (n, value, raw, rest) = IsEntry c (n, value, raw) × (b ≡ raw ++ rest)

  pub next_entry-IsNext :
      (b : Bytes) (e : ℕ × Bytes × Bytes × Bytes) → next_entry c b ≡ some e → IsNext b e
  unfolding next_entry
  next_entry-IsNext b e h = elim (Option-cases (c.wire.uint.dec b)) [
    | inl k ↦ absurd (none_not e (rw (next_entry, k) at h))
    | inr ((n, r), k) ↦ elim (Option-cases (c.wire.uint.dec r)) [
      | inl j ↦ absurd (none_not e (rw (next_entry, k, j) at h))
      | inr ((len, s), j) ↦ elim (Bool-cases (leb len (length s))) [
        | inr m ↦ absurd (none_not e (rw (next_entry, k, j, m) at h))
        | inl m ↦
            let (a, ea, fa, ra) = local b r n k in
            let (d, ed, fd, rd) = local r s len j in
            let v = take len s in
            let q : Numbers c d (length v) =
              subst (λ m. Numbers c d m) (sym (length-take len s (leb→le len (length s) m))) rd in
            let split : b ≡ ((a ++ d) ++ v) ++ drop len s =
              split_at a d v (drop len s) b r s ea ed (sym (take-drop len s)) in
            let found : next_entry c b ≡ some (n, v, (a ++ d) ++ v, drop len s) =
              rw split (entry_reads c a d v n ra q (drop len s)) in
            subst (IsNext b) (some_inj (n, v, (a ++ d) ++ v, drop len s) e (sym found ∙ h))
              (uints-IsEntry c a d v n ra q fa, split)
      ]
    ]
  ]
