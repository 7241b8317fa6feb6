-- ===== src/Fields/Codec.antt =====
-- uints and codec of lib/fields.js: a type's fields are entries of bytes, each a number, a length and
-- a value; those of other versions of the type are skipped when read, and kept when written.
use hypergraph.Prelude.{
  ℕ, zero, suc, ◌-◌, Bool, true, false, ◌||◌, Option, none, some, List, [], ◌∷◌, ◌++◌, String,
  if◌then◌else◌, leb, length, take, is_some, get_text, put_text,
}
use hypergraph.Encodings.Bytes.{drop}
use hypergraph.Encodings.Codec.{Bytes, both}
use hypergraph.Encodings.Ids.{id_from_string}
use hypergraph.Types.{Named}
use hypergraph.Types.Validate.{Js, is_undefined, is_null}
use hypergraph.Fields.Kinds.{
  link, Codecs, FieldList, FieldKind, Links, add_link, by_number, decode_value, encode_value, link,
}

module _ (c : Codecs) where
  abbrev pub uints : ℕ → ℕ → Option Bytes
  uints a b = both (c.wire.uint.enc a) (c.wire.uint.enc b)

  abbrev pub with_links : Links → Option Bytes → Option (Bytes × Links)
  with_links links none = none
  with_links links (some b) = some (b, links)

  abbrev pub encode_link : Option Bytes → Links → Option (Bytes × Links)
  encode_link none links = none
  encode_link (some id) links =
      with_links ((add_link id links).1) (c.wire.uint.enc ((add_link id links).0))

  abbrev pub link_id : Js → Option Bytes
  link_id (Js.text s) = id_from_string c.texts s
  link_id _ = none

  -- the bytes of a value, and the links with the one it adds
  unfoldable pub encode_field : FieldKind → Js → Links → Option (Bytes × Links)
  unfolding encode_value
  encode_field link v links = encode_link (link_id v) links
  encode_field kind v links = with_links links (encode_value c kind v)

  -- the entry: head and bytes
  abbrev pub entry : ℕ → Option (Bytes × Links) → Option (Bytes × Links)
  entry n none = none
  entry n (some (b, links)) = with_links links (both (uints n (length b)) (some b))

  abbrev pub before : Bytes → Option (Bytes × Links) → Option (Bytes × Links)
  before b none = none
  before b (some (more, links)) = some (b ++ more, links)

  abbrev pub then_entries :
      Option (Bytes × Links) → (Links → Option (Bytes × Links)) → Option (Bytes × Links)
  then_entries none more = none
  then_entries (some (b, links)) more = before b (more links)

  abbrev pub or_undefined : Option Js → Js
  or_undefined none = Js.undefined
  or_undefined (some v) = v

  abbrev pub is_missing : Js → Bool
  is_missing v = is_undefined v || is_null v

  -- The entries of the fields from number n on.
  unfoldable pub encode_from : ℕ → FieldList → Named Js → Links → Option (Bytes × Links)
  unfolding encode_field
  encode_from n [] values links = some ([], links)
  encode_from n ((name, kind) ∷ fields) values links =
      let v = or_undefined (get_text values name) in
      if is_missing v
      then encode_from (suc n) fields values links
      else then_entries (entry n (encode_field kind v links)) (encode_from (suc n) fields values)

  -- The first entry of bytes: its number, value and own bytes, and what follows it. none where
  -- decoding throws or the value runs past the end.
  abbrev pub cut : Bytes → ℕ → Option (ℕ × Bytes) → Option (ℕ × Bytes × Bytes × Bytes)
  cut b n none = none
  cut b n (some (len, rest)) =
      if leb len (length rest)
      then some (n, take len rest, take (length b - length (drop len rest)) b, drop len rest)
      else none

  abbrev pub after_number : Bytes → Option (ℕ × Bytes) → Option (ℕ × Bytes × Bytes × Bytes)
  after_number b none = none
  after_number b (some (n, rest)) = cut b n (c.wire.uint.dec rest)

  unfoldable pub next_entry : Bytes → Option (ℕ × Bytes × Bytes × Bytes)
  next_entry b = after_number b (c.wire.uint.dec b)

  abbrev pub keep_raw : Bool → Bytes → Option (List Bytes) → Option (List Bytes)
  keep_raw known raw none = none
  keep_raw true raw (some more) = some more
  keep_raw false raw (some more) = some (raw ∷ more)

  -- The loop of unknownOf, with rounds to go.
  unfoldable pub unknown_from : ℕ → FieldList → Bytes → Option (List Bytes)
  unfolding next_entry
  unknown_from fuel fields [] = some []
  unknown_from zero fields (x ∷ b) = none
  unknown_from (suc fuel) fields (x ∷ b) = elim (next_entry (x ∷ b)) [
    | none ↦ none
    | some (n, value, raw, rest) ↦
        keep_raw (is_some (by_number fields n)) raw (unknown_from fuel fields rest)
  ]

  unfoldable pub unknown_of : FieldList → Bytes → Option (List Bytes)
  unfolding unknown_from
  unknown_of fields b = unknown_from (length b) fields b

  -- a field's value, where its number is known
  abbrev pub assign_field :
      Option (String × FieldKind) → Bytes → Links → Named Js → Option (Named Js)
  assign_field none value links out = some out
  assign_field (some (name, kind)) value links out = elim (decode_value c kind value links) [
    | none ↦ none
    | some v ↦ some (put_text out name v)
  ]

  -- The loop of decode, with rounds to go.
  unfoldable pub decode_from : ℕ → FieldList → Links → Bytes → Named Js → Option (Named Js)
  unfolding next_entry decode_value put_text
  decode_from fuel fields links [] out = some out
  decode_from zero fields links (x ∷ b) out = none
  decode_from (suc fuel) fields links (x ∷ b) out = elim (next_entry (x ∷ b)) [
    | none ↦ none
    | some (n, value, raw, rest) ↦ elim (assign_field (by_number fields n) value links out) [
      | none ↦ none
      | some next ↦ decode_from fuel fields links rest next
    ]
  ]

  abbrev pub nulls : FieldList → Named Js
  nulls [] = []
  nulls ((name, kind) ∷ fields) = (name, Js.null) ∷ nulls fields

  unfoldable pub read_fields : FieldList → Bytes → Links → Option (Named Js)
  unfolding decode_from
  read_fields fields b links = decode_from (length b) fields links b (nulls fields)

  -- { fields, links } of the version that an edit replaces
  abbrev pub Version : Type 0
  Version = Bytes × Links

  abbrev pub concat : List Bytes → Bytes
  concat [] = []
  concat (b ∷ bs) = b ++ concat bs

  abbrev pub unknown_to_keep : FieldList → Option Version → Option (List Bytes)
  unknown_to_keep fields none = some []
  unknown_to_keep fields (some keep) = unknown_of fields (keep.0)

  -- links.push(...keep.links), if some of its fields are kept
  abbrev pub kept_links : List Bytes → Option Version → Links → Links
  kept_links (b ∷ unknown) (some keep) links = links ++ keep.1
  kept_links _ _ links = links

  abbrev pub then_unknown : List Bytes → Option (Bytes × Links) → Option (Bytes × Links)
  then_unknown unknown none = none
  then_unknown unknown (some (b, links)) = some (b ++ concat unknown, links)

  unfoldable pub write_fields :
      FieldList → Named Js → Links → Option Version → Option (Bytes × Links)
  unfolding encode_from unknown_of
  write_fields fields values links keep = elim (unknown_to_keep fields keep) [
    | none ↦ none
    | some unknown ↦
        then_unknown unknown (encode_from 1 fields values (kept_links unknown keep links))
  ]
