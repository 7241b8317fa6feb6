-- ===== src/Gate/Records.antt =====
-- checkRecord of lib/gate.js: a block of a log, decoded and checked against its type (decode of
-- lib/types.js). `unseal` is that of a private space; a record it opens may be marked unreadable.
use hypergraph.Prelude.{
  ℕ, ◌≡◌, ◌≤◌, refl, Bool, true, false, not, Option, none, some, [], ◌∷◌, ◌==◌, if◌then◌else◌,
  is_some, leb, all, get_text, arith,
}
use hypergraph.Encodings.Codec.{Bytes, bytes, Values, nil, cons}
use hypergraph.Encodings.RoundTrip.{count, max_items}
use hypergraph.Encodings.Records.{
  Record, delete_kind, encode_record, decode_record, target_is_id, all_ids,
}
use hypergraph.Encodings.RecordTrip.{target_filled, all_filled, decode_record-encode_record}
use hypergraph.Types.{Named, Declared}
use hypergraph.Types.Validate.{Js}
use hypergraph.Fields.Kinds.{Codecs, FieldList, Links, codec}
use hypergraph.Fields.Codec.{Version, read_fields, write_fields}
use hypergraph.Fields.Names.{Distinct}
use hypergraph.Fields.Values.{IsCodecs, is_short}
use hypergraph.Fields.Reading.{read_as}
use hypergraph.Fields.Trip.{read_fields-write_fields}

-- What unseal gives: null, false, or the record opened and whether it is unreadable.
pub data Unsealed : Type 0 where
  locked does_not_open : Unsealed
  opened : Record → Bool → Unsealed

-- The reasons of a refusal; or the record and its values, which are none where they are not decoded.
pub data Checked : Type 0 where
  malformed bad_target locked does_not_open fields_do_not_decode : Checked
  accepted : Record → Option (Named Js) → Checked

abbrev pub put_kind : ℕ
put_kind = 0

-- (record.kind === PUT) === !!record.target
abbrev pub is_bad_target : Record → Bool
is_bad_target r = if r.kind == put_kind then is_some r.target else not (is_some r.target)

abbrev pub as_links : Values → Links
as_links nil = []
as_links (cons (bytes b) vs) = b ∷ as_links vs
as_links (cons _ vs) = as_links vs

module _ (c : Codecs) (types : Named Declared) where
  -- the codec of a type
  abbrev codec_of : Option Declared → Option FieldList
  codec_of none = none
  codec_of (some t) = codec t.fields

  -- types.decode: none where it throws
  unfoldable pub decode_values : Record → Option (Named Js)
  unfolding read_fields
  decode_values r = elim (codec_of (get_text types r.type)) [
    | none ↦ none
    | some fields ↦ read_fields c fields r.fields (as_links r.links)
  ]

  abbrev with_values : Record → Option (Named Js) → Checked
  with_values r none = fields_do_not_decode
  with_values r (some values) = accepted r (some values)

  abbrev check_opened : Record → Checked
  check_opened r =
      if not (is_some (get_text types r.type))
      then accepted r none
      else if r.kind == delete_kind
      then accepted r (some [])
      else with_values r (decode_values r)

  abbrev after_unseal : Unsealed → Checked
  after_unseal locked = locked
  after_unseal does_not_open = does_not_open
  after_unseal (opened r true) = accepted r none
  after_unseal (opened r false) = check_opened r

  abbrev unsealed : Option (Record → Unsealed) → Record → Checked
  unsealed none r = check_opened r
  unsealed (some unseal) r = after_unseal (unseal r)

  unfoldable pub check_record : Option (Record → Unsealed) → Bytes → Checked
  unfolding decode_values decode_record
  check_record unseal b = elim (decode_record c.wire b) [
    | none ↦ malformed
    | some r ↦ if is_bad_target r then bad_target else unsealed unseal r
  ]

module _ (c : Codecs) (laws : IsCodecs c) (types : Named Declared) (r : Record) where
  decode_values-write_fields :
      (t : Declared) (fields : FieldList) (values : Named Js) (keep : Option (Version c))
      → get_text types r.type ≡ some t
      → codec t.fields ≡ some fields
      → Distinct fields
      → all (λ e. is_short e.1) values ≡ true
      → write_fields c fields values [] keep ≡ some (r.fields, as_links r.links)
      → decode_values c types r ≡ some (read_as c values fields fields)
  unfolding decode_values
  decode_values-write_fields t fields values keep g k d short w =
      rw (decode_values, g, k)
        (read_fields-write_fields c laws fields values [] keep (r.fields, as_links r.links) d short
          w)

  -- Over codecs that keep what compact-encoding documents: a put or an edit whose fields and links
  -- an app encoded by its type, and that could itself be encoded, is accepted by that app from its
  -- bytes, with the values that its codec reads of what it wrote; if a put has no target and an
  -- edit has one, the target and the links, at most 0x100000, are record ids and not empty, the
  -- type's fields have different names, and references have at most 0x100000 addresses.
  pub check_record-encode_record :
      (t : Declared) (fields : FieldList) (values : Named Js) (keep : Option (Version c))
      (b : Bytes)
      → get_text types r.type ≡ some t
      → codec t.fields ≡ some fields
      → Distinct fields
      → all (λ e. is_short e.1) values ≡ true
      → write_fields c fields values [] keep ≡ some (r.fields, as_links r.links)
      → leb r.kind 1 ≡ true
      → is_bad_target r ≡ false
      → target_filled r.target ≡ true
      → all_filled r.links ≡ true
      → count r.links ≤ max_items
      → target_is_id c.wire r.target ≡ true
      → all_ids c.wire r.links ≡ true
      → encode_record c.wire r ≡ some b
      → check_record c types none b ≡ accepted r (some (read_as c values fields fields))
  unfolding check_record
  check_record-encode_record t fields values keep b g k d short w kind bad tf lf n ti li e =
      let read = decode_record-encode_record c.wire laws.wire r b (ground arith) tf lf n ti li e in
      let back = decode_values-write_fields t fields values keep g k d short w in
      let change : (r.kind == delete_kind) ≡ false = ground arith in
      rw (check_record, read, bad, g, change, back) refl
