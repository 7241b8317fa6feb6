-- ===== src/Fields/Unknown.antt =====
-- An edit by an app that does not know all fields of the version that it replaces (encode of the
-- codec of lib/fields.js).
use hypergraph.Prelude.{
  none_not, some_inj, ℕ, ◌≡◌, refl, sym, ap, ◌∙◌, subst, some, List, [], ◌∷◌, ◌++◌, arith, length,
  Option-cases, inl, inr,
}
use hypergraph.Encodings.Codec.{Bytes}
use hypergraph.Encodings.RoundTrip.{IsWire}
use hypergraph.Types.{Named}
use hypergraph.Types.Validate.{Js}
use hypergraph.Fields.Kinds.{Codecs, FieldList, Links, link_at}
use hypergraph.Fields.Codec.{encode_from, unknown_of, concat, Version, write_fields}
use hypergraph.Fields.Ends.{unknown_from-Entries, unknown_of-ends}
use hypergraph.Fields.Entries.{IsLocal, Entry, Entries, unknown_in}
use hypergraph.Fields.Written.{encode_from-Written}
use hypergraph.Fields.Kept.{
  link_at-append, Entries-append, unknown_in-append, unknown_entries, unknown_entries-Entries,
  Written-Entries, Written-known, Written-Grows,
}

module _ (c : Codecs) (local : IsLocal c.wire.uint) where
  -- Bytes whose unknown fields were read are entries.
  pub unknown_of-Entries :
      (fields : FieldList) (b : Bytes) (u : List Bytes)
      → unknown_of c fields b ≡ some u
      → (es : List Entry) × Entries c b es × (u ≡ unknown_in c fields es)
  unknown_of-Entries fields b u h = elim (unknown_of-ends c local fields b) [
    | inl (es, good, e) ↦ (es, good, some_inj u (unknown_in c fields es) (sym h ∙ e))
    | inr (k, e) ↦ absurd (none_not u (sym e ∙ h))
  ]

  -- Of entries that are known, then those that are kept, the latter are unknown.
  unknown_of-kept :
      (fields : FieldList) (b : Bytes) (known kept : List Entry) (u : List Bytes)
      → Entries c b known
      → unknown_in c fields known ≡ []
      → Entries c (concat c u) kept
      → unknown_in c fields kept ≡ u
      → unknown_of c fields (b ++ concat c u) ≡ some u
  unfolding unknown_of
  unknown_of-kept fields b known kept u p k q e =
      unknown_from-Entries c fields (length (b ++ concat c u)) (b ++ concat c u) (known ++ kept)
        (Entries-append c b (concat c u) known kept p q) (omega arith)
      ∙ ap some
          (unknown_in-append c fields known kept ∙ ap (λ l. l ++ unknown_in c fields kept) k ∙ e)

  module _ (laws : IsWire c.wire) where
    -- Over codecs that keep what compact-encoding documents, where c.uint reads at least a byte
    -- and looks at none after those that it reads: if the version that an edit replaces has fields
    -- that this app does not declare, what the edit writes has those fields with the same bytes in
    -- the same order, and each link of that version at the same place in its links.
    pub unknown_kept :
        (fields : FieldList) (values : Named Js) (keep : Version c) (o : Bytes × Links) (x : Bytes)
        (more : List Bytes) (n : ℕ) (id : Bytes)
        → unknown_of c fields keep.0 ≡ some (x ∷ more)
        → link_at keep.1 n ≡ some id
        → write_fields c fields values [] (some keep) ≡ some o
        → (unknown_of c fields o.0 ≡ some (x ∷ more)) × (link_at o.1 n ≡ some id)
    unfolding write_fields
    unknown_kept fields values keep o x more n id h at w =
        elim (Option-cases (encode_from c 1 fields values keep.1)) [
          | inl k ↦ absurd (none_not o (rw (write_fields, h, k) at w))
          | inr ((b, last), k) ↦
              let (known, p) =
                encode_from-Written c local laws 1 fields values keep.1 (b, last) k in
              let (es, q, e) = unknown_of-Entries fields keep.0 (x ∷ more) h in
              let (r, s) = unknown_entries-Entries c fields keep.0 es q in
              let (later, g) = Written-Grows c p in
              let out : (b ++ concat c (x ∷ more), last) ≡ o =
                some_inj (b ++ concat c (x ∷ more), last) o (rw (write_fields, h, k) at w) in
              subst
                (λ (y : Bytes × Links).
                  (unknown_of c fields y.0 ≡ some (x ∷ more)) × (link_at y.1 n ≡ some id))
                out
                (
                  unknown_of-kept fields b known (unknown_entries c fields es) (x ∷ more)
                      (Written-Entries c values p)
                      (Written-known c values fields [] 1 fields keep.1 last b known refl refl p)
                      (subst (λ u. Entries c (concat c u) (unknown_entries c fields es)) (sym e) r)
                      (s ∙ sym e),
                  subst (λ l. link_at l n ≡ some id) (sym g) (link_at-append keep.1 later n id at),
                )
        ]
