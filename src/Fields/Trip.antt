-- ===== src/Fields/Trip.antt =====
-- What the codec of lib/fields.js writes, the same app and apps of other versions read.
use mathlib.Core.List.{append-nil}
use hypergraph.Prelude.{
  none_not, some_inj, ◌≡◌, refl, sym, subst, true, Option, none, some, List, [], ◌∷◌, ◌++◌, all,
  length, arith, Option-cases, inl, inr,
}
use hypergraph.Encodings.Codec.{Bytes}
use hypergraph.Types.{Named}
use hypergraph.Types.Validate.{Js}
use hypergraph.Fields.Kinds.{Codecs, FieldList, Links}
use hypergraph.Fields.Codec.{
  unknown_to_keep, kept_links, concat, Version, encode_from, read_fields, write_fields,
}
use hypergraph.Fields.Written.{encode_from-Written}
use hypergraph.Fields.Unknown.{unknown_of-Entries}
use hypergraph.Fields.Values.{IsCodecs, is_short}
use hypergraph.Fields.Names.{AllFresh, Distinct}
use hypergraph.Fields.Reading.{
  read_as, Shares, ReadsTo, reads_end, unknown_in-ReadsTo, Written-ReadsTo,
}

Shares-self : (fields : FieldList) → Shares fields fields
Shares-self [] = tt
Shares-self (f ∷ fields) = (refl, Shares-self fields)

fresh_first : (hs : FieldList) → AllFresh [] hs
fresh_first [] = tt
fresh_first (f ∷ hs) = (refl, fresh_first hs)

module _ (c : Codecs) (laws : IsCodecs c) where
  -- What was written, with what is passed over after it.
  read_written :
      (fs hs : FieldList) (values : Named Js) (links last : Links) (b tail : Bytes)
      → Shares fs hs
      → Distinct hs
      → all (λ e. is_short e.1) values ≡ true
      → encode_from c 1 fs values links ≡ some (b, last)
      → ReadsTo c hs last tail (read_as c values fs hs) (read_as c values fs hs)
      → read_fields c hs (b ++ tail) last ≡ some (read_as c values fs hs)
  unfolding read_fields
  read_written fs hs values links last b tail s d short h r =
      let (es, w) = encode_from-Written c laws.local laws.wire 1 fs values links (b, last) h in
      Written-ReadsTo c laws values short hs last tail (read_as c values fs hs) 1 [] fs hs [] links
        last [] b es refl refl s (fresh_first hs) d (sym (append-nil last)) w r (length (b ++ tail))
        (omega arith)

  kept-ReadsTo :
      (fields : FieldList) (keep : Option (Version c)) (u : List Bytes) (links : Links)
      (out : Named Js)
      → unknown_to_keep c fields keep ≡ some u
      → ReadsTo c fields links (concat c u) out out
  kept-ReadsTo fields none u links out h =
      subst (λ v. ReadsTo c fields links (concat c v) out out) (some_inj [] u h)
        (reads_end c fields links out)
  kept-ReadsTo fields (some keep) u links out h =
      let (es, p, e) = unknown_of-Entries c laws.local fields keep.0 u h in
      subst (λ v. ReadsTo c fields links (concat c v) out out) (sym e)
        (unknown_in-ReadsTo c fields links keep.0 es out p)

  -- What write_fields gives, as what it writes and what it keeps.
  abbrev IsWritten :
      FieldList → Named Js → Links → Option (Version c) → List Bytes → Bytes × Links → Type 0
  IsWritten fields values links keep u o =
      (b : Bytes) × (encode_from c 1 fields values (kept_links c u keep links) ≡ some (b, o.1))
      × (o.0 ≡ b ++ concat c u)

  write_fields-IsWritten :
      (fields : FieldList) (values : Named Js) (links : Links) (keep : Option (Version c))
      (o : Bytes × Links)
      → write_fields c fields values links keep ≡ some o
      → (u : List Bytes) × (unknown_to_keep c fields keep ≡ some u)
        × IsWritten fields values links keep u o
  unfolding write_fields
  write_fields-IsWritten fields values links keep o h =
      elim (Option-cases (unknown_to_keep c fields keep)) [
        | inl k ↦ absurd (none_not o (rw (write_fields, k) at h))
        | inr (u, k) ↦
            elim (Option-cases (encode_from c 1 fields values (kept_links c u keep links))) [
              | inl j ↦ absurd (none_not o (rw (write_fields, k, j) at h))
              | inr ((b, last), j) ↦ (
                u,
                k,
                subst (IsWritten fields values links keep u)
                    (some_inj (b ++ concat c u, last) o (rw (write_fields, k, j) at h))
                    (b, j, refl),
              )
            ]
      ]

  -- Over codecs that keep what compact-encoding documents: the fields that an app wrote, whose
  -- names are different and whose references have at most 0x100000 addresses, it reads as it wrote
  -- them, an integer without the sign of -0, or below -2^52 as c.int gives it back, keys and ids
  -- as z32 writes them, and as null those that had no value; also where it kept fields that it
  -- does not know from the version that it replaced.
  pub read_fields-write_fields :
      (fields : FieldList) (values : Named Js) (links : Links) (keep : Option (Version c))
      (o : Bytes × Links)
      → Distinct fields
      → all (λ e. is_short e.1) values ≡ true
      → write_fields c fields values links keep ≡ some o
      → read_fields c fields o.0 o.1 ≡ some (read_as c values fields fields)
  read_fields-write_fields fields values links keep o d short h =
      let (u, k, (b, j, e)) = write_fields-IsWritten fields values links keep o h in
      rw e (
        read_written fields fields values (kept_links c u keep links) o.1 b (concat c u)
          (Shares-self fields) d short j
          (kept-ReadsTo fields keep u o.1 (read_as c values fields fields) k))

  -- Over codecs that keep what compact-encoding documents, where the fields of one version of a
  -- type go on from those of another: what an app of either version wrote, with nothing kept from
  -- before, an app of the other reads as its own app does in the fields that they share, and as
  -- null the fields that only the reader declares; if the reader's names are different and
  -- references have at most 0x100000 addresses.
  pub versions_read :
      (fs hs : FieldList) (values : Named Js) (links : Links) (o : Bytes × Links)
      → Shares fs hs
      → Distinct hs
      → all (λ e. is_short e.1) values ≡ true
      → write_fields c fs values links none ≡ some o
      → read_fields c hs o.0 o.1 ≡ some (read_as c values fs hs)
  versions_read fs hs values links o s d short h =
      let (u, k, (b, j, e)) = write_fields-IsWritten fs values links none o h in
      rw e (
        read_written fs hs values (kept_links c u none links) o.1 b (concat c u) s d short j (
          subst
            (λ v. ReadsTo c hs o.1 (concat c v) (read_as c values fs hs) (read_as c values fs hs))
            (some_inj [] u k) (reads_end c hs o.1 (read_as c values fs hs))))
