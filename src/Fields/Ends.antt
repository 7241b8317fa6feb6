-- ===== src/Fields/Ends.antt =====
-- The loop of unknownOf in lib/fields.js comes to an end, on all bytes.
use mathlib.Core.List.{append_assoc}
use hypergraph.Prelude.{
  ℕ, zero, suc, ◌+◌, ◌≡◌, ◌≤◌, ◌<◌, refl, sym, ap, ◌∙◌, subst, Bool, true, false, none, some, List,
  [], ◌∷◌, ◌++◌, if◌then◌else◌, length, is_some, arith, length-append, Option-cases, inl, inr, ◌⊎◌,
}
use hypergraph.Encodings.Codec.{Bytes}
use hypergraph.Fields.Kinds.{Codecs, FieldList, by_number}
use hypergraph.Fields.Codec.{next_entry, unknown_from, unknown_of, keep_raw}
use hypergraph.Fields.Entries.{
  Entries, Entry, IsBroken, IsEntry, IsLocal, done, more, next_entry-IsNext, unknown_in,
}

module _ (c : Codecs) (fields : FieldList) where
  unknown_next :
      (fuel : ℕ) (b value raw rest : Bytes) (n : ℕ)
      → 0 < length b
      → next_entry c b ≡ some (n, value, raw, rest)
      → unknown_from c (suc fuel) fields b
        ≡ keep_raw c (is_some (by_number fields n)) raw (unknown_from c fuel fields rest)
  unfolding unknown_from
  unknown_next fuel [] value raw rest n p h = absurd (omega arith)
  unknown_next fuel (x ∷ b) value raw rest n p h = rw (unknown_from, h) refl

  unknown_bad :
      (fuel : ℕ) (b : Bytes)
      → 0 < length b
      → next_entry c b ≡ none
      → unknown_from c fuel fields b ≡ none
  unfolding unknown_from
  unknown_bad fuel [] p h = absurd (omega arith)
  unknown_bad zero (x ∷ b) p h = refl
  unknown_bad (suc fuel) (x ∷ b) p h = rw (unknown_from, h) refl

  kept :
      (known : Bool) (raw : Bytes) (later : List Bytes)
      → keep_raw c known raw (some later) ≡ some (if known then later else raw ∷ later)
  kept true raw later = refl
  kept false raw later = refl

  -- Rounds enough for the bytes, the loop of unknownOf gives what is unknown of their entries.
  pub unknown_from-Entries :
      (fuel : ℕ) (b : Bytes) (es : List Entry)
      → Entries c b es
      → length b ≤ fuel
      → unknown_from c fuel fields b ≡ some (unknown_in c fields es)
  unfolding unknown_from
  unknown_from-Entries fuel b es done h = refl
  unknown_from-Entries zero b es (more {b = rest} e i next) h =
      absurd (omega (arith, i.is_filled, length-append e.2 rest))
  unknown_from-Entries (suc fuel) b es (more {b = rest} {es = es'} e i next) h =
      let less : length rest ≤ fuel = omega (arith, i.is_filled, length-append e.2 rest) in
      unknown_next fuel (e.2 ++ rest) e.1 e.2 rest e.0
        (omega (arith, i.is_filled, length-append e.2 rest)) (i.reads rest)
      ∙ ap (λ o. keep_raw c (is_some (by_number fields e.0)) e.2 o)
          (unknown_from-Entries fuel rest es' next less)
      ∙ kept (is_some (by_number fields e.0)) e.2 (unknown_in c fields es')

  kept_none : (known : Bool) (raw : Bytes) → keep_raw c known raw none ≡ none
  kept_none true raw = refl
  kept_none false raw = refl

  none_next :
      (fuel : ℕ) (b value raw rest : Bytes) (n : ℕ)
      → 0 < length b
      → next_entry c b ≡ some (n, value, raw, rest)
      → ((f : ℕ) → unknown_from c f fields rest ≡ none)
      → unknown_from c fuel fields b ≡ none
  unfolding unknown_from
  none_next fuel [] value raw rest n p h later = absurd (omega arith)
  none_next zero (x ∷ b) value raw rest n p h later = refl
  none_next (suc fuel) (x ∷ b) value raw rest n p h later =
      unknown_next fuel (x ∷ b) value raw rest n p h
      ∙ ap (λ o. keep_raw c (is_some (by_number fields n)) raw o) (later fuel)
      ∙ kept_none (is_some (by_number fields n)) raw

  -- Where an entry is broken the loop gives none, with any number of rounds.
  unknown_from-broken :
      (good bad : Bytes) (es : List Entry)
      → Entries c good es
      → 0 < length bad
      → next_entry c bad ≡ none
      → (fuel : ℕ) → unknown_from c fuel fields (good ++ bad) ≡ none
  unfolding unknown_from
  unknown_from-broken good bad es done p h fuel = unknown_bad fuel bad p h
  unknown_from-broken good bad es (more {b = rest} {es = es'} e i next) p h fuel =
      rw (append_assoc e.2 rest bad) (
        none_next fuel (e.2 ++ (rest ++ bad)) e.1 e.2 (rest ++ bad) e.0
          (omega (arith, i.is_filled, length-append e.2 (rest ++ bad))) (i.reads (rest ++ bad))
          (unknown_from-broken rest bad es' next p h))

module _ (c : Codecs) (local : IsLocal c.wire.uint) where
  append-IsBroken : (e : Entry) (b : Bytes) → IsEntry c e → IsBroken c b → IsBroken c (e.2 ++ b)
  append-IsBroken e b i k = record {
    good = e.2 ++ k.good;
    entries = e ∷ k.entries;
    bad = k.bad;
    are_entries = more e i k.are_entries;
    is_split = ap (λ x. e.2 ++ x) k.is_split ∙ sym (append_assoc e.2 k.good k.bad);
    is_left = k.is_left;
    is_bad = k.is_bad;
  }

  -- Bytes are entries to their end, or broken.
  entries_or_IsBroken :
      (fuel : ℕ) (b : Bytes) → length b ≤ fuel → ((es : List Entry) × Entries c b es) ⊎ IsBroken c b
  entries_or_IsBroken fuel [] h = inl ([], done)
  entries_or_IsBroken zero (x ∷ b) h = absurd (omega arith)
  entries_or_IsBroken (suc fuel) (x ∷ b) h = elim (Option-cases (next_entry c (x ∷ b))) [
    | inl k ↦ inr (record {
      good = [];
      entries = [];
      bad = x ∷ b;
      are_entries = done;
      is_split = refl;
      is_left = omega arith;
      is_bad = k;
    })
    | inr (e, k) ↦
        let (i, split) = next_entry-IsNext c local (x ∷ b) e k in
        let rest = e.3 in
        let sizes : length (x ∷ b) ≡ length e.2 + length rest =
          ap length split ∙ length-append e.2 rest in
        let less : length rest ≤ fuel = omega (arith, i.is_filled) in
        elim (entries_or_IsBroken fuel rest less) [
          | inl (es, good) ↦ inl (
            (e.0, e.1, e.2) ∷ es,
            subst (λ y. Entries c y ((e.0, e.1, e.2) ∷ es)) (sym split)
                (more (e.0, e.1, e.2) i good),
          )
          | inr bad ↦
              inr (subst (IsBroken c) (sym split) (append-IsBroken (e.0, e.1, e.2) rest i bad))
        ]
  ]

  -- The loop of unknownOf comes to an end on all bytes, one round for each byte being enough: they
  -- are entries to their end, and it gives those of fields not declared, or after some entries
  -- there is a broken one, and it throws; if c.uint reads at least a byte, and looks at none after
  -- those that it reads.
  pub unknown_of-ends :
      (fields : FieldList) (b : Bytes)
      → ((es : List Entry) × Entries c b es
          × (unknown_of c fields b ≡ some (unknown_in c fields es)))
        ⊎ (IsBroken c b × (unknown_of c fields b ≡ none))
  unfolding unknown_of
  unknown_of-ends fields b = elim (entries_or_IsBroken (length b) b (omega arith)) [
    | inl (es, good) ↦
        inl (es, good, unknown_from-Entries c fields (length b) b es good (omega arith))
    | inr k ↦ inr (
      k,
      subst (λ x. unknown_from c (length b) fields x ≡ none) (sym k.is_split)
          (unknown_from-broken c fields k.good k.bad k.entries k.are_entries k.is_left k.is_bad
            (length b)),
    )
  ]
