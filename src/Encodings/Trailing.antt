-- ===== src/Encodings/Trailing.antt =====
-- Decisions of lib/encodings.js: what was written reads back, also by a later version that has more
-- fields at the end.
use mathlib.Core.List.{append_assoc}
use hypergraph.Prelude.{
  ℕ, ◌≡◌, refl, ap, ◌∙◌, subst, Option, none, some, List, [], ◌∷◌, ◌++◌, String, str_eq, eq_iff,
  arith, if_splits,
}
use hypergraph.Encodings.Codec.{
  Bytes, null, Object, end, field, Codec, trailing, Fields, no_more, has, Wire, both, with_field,
  field_of, encode, decode, encode_fields, decode_fields, norm, norm_fields,
}
use hypergraph.Encodings.RoundTrip.{
  IsWire, ShortFields, both-some, decode-encode, decode_fields-encode_fields, fields_step,
  IsShort-field,
}
use hypergraph.Encodings.Decision.{
  decisions, index_of, nth, Entry, write_body, with_stamp, read_stamp, read_body, read_type, one_up,
  encode_decision, decode_decision,
}

-- The place found has the type and its fields.
abbrev Found : List (String × Fields) → String → Option (ℕ × Fields) → Type 0
Found table type none = Unit
Found table type (some (i, fs)) = nth table i ≡ some (type, fs)

one_up-Found :
    (table : List (String × Fields)) (entry : String × Fields) (type : String)
    (o : Option (ℕ × Fields))
    → Found table type o
    → Found (entry ∷ table) type (one_up o)
unfolding nth
one_up-Found table entry type none h = tt
one_up-Found table entry type (some (i, fs)) h = h

index_of-Found :
    (table : List (String × Fields)) (type : String) → Found table type (index_of table type)
unfolding index_of nth
index_of-Found [] type = tt
index_of-Found ((name, fs) ∷ table) type =
    if_splits (str_eq name type) (Found ((name, fs) ∷ table) type)
      (λ e. ap (λ n. some (n, fs)) ((eq_iff name type).0 e))
      (λ e. one_up-Found table (name, fs) type (index_of table type) (index_of-Found table type))

module _ (w : Wire) (laws : IsWire w) where
  -- Over codecs that keep what compact-encoding documents, a decision of a known type that could
  -- be encoded, no array of which has more than 0x100000 items, decodes to its type, its stamp and
  -- its fields, whatever bytes follow it. An empty buffer reads back as null, and only the fields
  -- of its type are read back.
  pub decision_roundtrip :
      (d : Entry) (i : ℕ) (fs : Fields) (b rest : Bytes)
      → index_of decisions d.type ≡ some (i, fs)
      → ShortFields d.body
      → encode_decision w d ≡ some b
      → decode_decision w (b ++ rest) ≡ some (record d { body = norm_fields fs d.body }, rest)
  unfolding encode_decision decode_decision
  decision_roundtrip d i fs b rest x s h =
      let written : write_body w d.stamp (some (i, fs)) d.body ≡ some b =
        subst (λ o. write_body w d.stamp o d.body ≡ some b) x h in
      let (p, q, f, g, e) =
        both-some (w.uint.enc i) (both (w.uint.enc d.stamp) (encode_fields w fs d.body)) b
          written in
      let (p', q', f', g', e') = both-some (w.uint.enc d.stamp) (encode_fields w fs d.body) q g in
      ap (λ l. read_type w (w.uint.dec (l ++ rest))) e
      ∙ ap (λ l. read_type w (w.uint.dec l)) (append_assoc p q rest)
      ∙ ap (read_type w) (laws.uint i p (q ++ rest) f)
      ∙ ap (λ o. read_body w o (q ++ rest))
          (subst (Found decisions d.type) x (index_of-Found decisions d.type))
      ∙ ap (λ l. read_stamp w d.type fs (w.uint.dec (l ++ rest))) e'
      ∙ ap (λ l. read_stamp w d.type fs (w.uint.dec l)) (append_assoc p' q' rest)
      ∙ ap (read_stamp w d.type fs) (laws.uint d.stamp p' (q' ++ rest) f')
      ∙ ap (with_stamp w d.type d.stamp) (decode_fields-encode_fields w laws fs d.body q' rest s g')

  -- Fields added at the end since.
  abbrev pub later_fields : List (String × Codec) → Fields
  later_fields [] = no_more
  later_fields ((name, c) ∷ more) = has name (trailing c) (later_fields more)

  abbrev pub join : Fields → Fields → Fields
  join no_more more = more
  join (has name c fs) more = has name c (join fs more)

  abbrev pub nulls : List (String × Codec) → Object
  nulls [] = end
  nulls ((name, c) ∷ more) = field name null (nulls more)

  abbrev pub followed_by : Object → Object → Object
  followed_by end more = more
  followed_by (field name v o) more = field name v (followed_by o more)

  later_fields-nulls :
      (more : List (String × Codec))
      → decode_fields w (later_fields more) [] ≡ some (nulls more, [])
  unfolding decode_fields decode
  later_fields-nulls [] = refl
  later_fields-nulls ((name, c) ∷ more) = ap (with_field name null) (later_fields-nulls more)

  -- Over codecs that keep what compact-encoding documents, what an earlier version wrote with
  -- fewer fields, no array having more than 0x100000 items, a later version with trailing fields
  -- added at the end reads as what was written, with null for every added field.
  pub trailing_absent :
      (fs : Fields) (more : List (String × Codec)) (o : Object) (b : Bytes)
      → ShortFields o
      → encode_fields w fs o ≡ some b
      → decode_fields w (join fs (later_fields more)) b
        ≡ some (followed_by (norm_fields fs o) (nulls more), [])
  unfolding encode_fields norm_fields
  trailing_absent no_more more o b s h =
      let e : b ≡ [] = ground arith in
      ap (decode_fields w (later_fields more)) e ∙ later_fields-nulls more
  trailing_absent (has name c fs) more o b s h =
      let (p, q, f, g, e) = both-some (encode w c (field_of o name)) (encode_fields w fs o) b h in
      ap (decode_fields w (has name c (join fs (later_fields more)))) e
      ∙ fields_step w laws name c (join fs (later_fields more)) (p ++ q) q []
          (norm c (field_of o name)) (followed_by (norm_fields fs o) (nulls more))
          (decode-encode w laws c (field_of o name) p q (IsShort-field o name s) f)
          (trailing_absent fs more o q s g)
