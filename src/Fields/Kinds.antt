-- ===== src/Fields/Kinds.antt =====
-- KINDS of lib/fields.js, with the codecs ref and spaceKey, and toKey: a value of each kind, written and
-- read; a link is an index into the links of a record. Values are those that validate of
-- lib/types.js gives.
use hypergraph.Prelude.{
  ℕ, zero, suc, Bool, true, false, ◌||◌, Option, none, some, List, [], ◌∷◌, ◌++◌, String, str_eq,
  ◌==◌, if◌then◌else◌, length,
}
use hypergraph.Encodings.Bytes.{eq_bytes}
use hypergraph.Encodings.Codec.{Bytes, Plain}
use hypergraph.Encodings.Ids.{Texts}
use hypergraph.Types.Validate.{Js, size, size_or_zero}
use hypergraph.Fields.Ref.{Ref, encode_ref, decode_ref}

-- z32 and the codecs of compact-encoding, with c.int of a sign and a size, and c.float64.
pub record Codecs : Type 0 where
  pub texts : Texts
  pub open texts use *
  pub int : Plain (Bool × ℕ)
  pub float : Plain Js

-- KINDS; `string` is for strings and texts.
pub data FieldKind : Type 0 where
  string int uint float bool bytes ref space link : FieldKind

-- none: unknown field kind
abbrev pub kind_of : String → Option FieldKind
kind_of kind =
    if str_eq kind "string" || str_eq kind "text"
    then some FieldKind.string
    else if str_eq kind "int"
    then some FieldKind.int
    else if str_eq kind "uint"
    then some FieldKind.uint
    else if str_eq kind "float"
    then some FieldKind.float
    else if str_eq kind "bool"
    then some FieldKind.bool
    else if str_eq kind "bytes"
    then some FieldKind.bytes
    else if str_eq kind "ref"
    then some FieldKind.ref
    else if str_eq kind "space"
    then some FieldKind.space
    else if str_eq kind "link"
    then some FieldKind.link
    else none

-- byName and byNumber: the fields in declaration order, the first has the number 1. A type's fields
-- have different names.
abbrev pub FieldList : Type 0
FieldList = List (String × FieldKind)

abbrev then_known : String → Option FieldKind → Option FieldList → Option FieldList
then_known name none rest = none
then_known name (some kind) none = none
then_known name (some kind) (some rest) = some ((name, kind) ∷ rest)

abbrev pub codec : List (String × String) → Option FieldList
codec [] = some []
codec ((name, kind) ∷ fields) = then_known name (kind_of kind) (codec fields)

-- byNumber.get(n)
abbrev pub by_number : FieldList → ℕ → Option (String × FieldKind)
by_number [] n = none
by_number (f ∷ fields) zero = none
by_number (f ∷ fields) (suc zero) = some f
by_number (f ∷ fields) (suc (suc n)) = by_number fields (suc n)

abbrev pub Links : Type 0
Links = List Bytes

-- links.findIndex, none for -1
abbrev pub index_in : Bytes → Links → Option ℕ
index_in id [] = none
index_in id (l ∷ links) =
    if eq_bytes l id
    then some 0
    else elim (index_in id links) [ none ↦ none | some n ↦ some (suc n) ]

abbrev pub link_at : Links → ℕ → Option Bytes
link_at [] n = none
link_at (l ∷ links) zero = some l
link_at (l ∷ links) (suc n) = link_at links n

-- The index of a link, and the links with it.
abbrev pub add_link : Bytes → Links → ℕ × Links
add_link id links = elim (index_in id links) [
  | none ↦ (length links, links ++ (id ∷ []))
  | some at ↦ (at, links)
]

abbrev pub as_text : Option String → Option Js
as_text none = none
as_text (some s) = some (Js.text s)

abbrev pub as_bytes : Option Bytes → Option Js
as_bytes none = none
as_bytes (some b) = some (Js.bytes b)

abbrev pub as_ref : Option Ref → Option Js
as_ref none = none
as_ref (some (src, n, type, digest, mutable)) = some (Js.ref src (size n) type digest mutable)

-- c.decode: what follows the value is not looked at
abbrev pub first : {A : Type 0} → Option (A × Bytes) → Option A
first none = none
first (some (a, rest)) = some a

abbrev pub as_uint : Option ℕ → Option Js
as_uint none = none
as_uint (some n) = some (Js.integer false n)

abbrev pub as_int : Option (Bool × ℕ) → Option Js
as_int none = none
as_int (some (negative, n)) = some (Js.integer negative n)

abbrev pub as_flag : Option Bool → Option Js
as_flag none = none
as_flag (some b) = some (Js.flag b)

module _ (c : Codecs) where
  -- toKey of a text: none where it throws
  abbrev pub to_key : Option Bytes → Option Bytes
  to_key none = none
  to_key (some b) = if length b == 32 then some b else none

  abbrev pub encode_key : Option Bytes → Option Bytes
  encode_key none = none
  encode_key (some b) = c.wire.fixed32.enc b

  -- -0 is written as 0
  abbrev pub encode_uint : Bool → ℕ → Option Bytes
  encode_uint true (suc n) = none
  encode_uint negative n = c.wire.uint.enc n

  abbrev pub encode_float : Js → Option Bytes
  encode_float (Js.integer negative n) = c.float.enc (Js.integer negative n)
  encode_float (Js.number s) = c.float.enc (Js.number s)
  encode_float _ = none

  -- c.encode of a kind's codec, other than a link's
  unfoldable pub encode_value : FieldKind → Js → Option Bytes
  unfolding encode_ref
  encode_value string (Js.text s) = c.wire.string.enc s
  encode_value int (Js.integer negative n) = c.int.enc (negative, n)
  encode_value uint (Js.integer negative n) = encode_uint negative n
  encode_value float v = encode_float v
  encode_value bool (Js.flag b) = c.wire.boolean.enc b
  encode_value bytes (Js.bytes b) = c.wire.raw.enc b
  encode_value ref (Js.ref src n type digest mutable) =
      encode_ref c.wire (src, size_or_zero n, type, digest, mutable)
  encode_value space (Js.text s) = encode_key (to_key (c.decode s))
  encode_value _ _ = none

  -- c.decode of a kind's codec; a link's gives its index
  abbrev pub linked : Option Bytes → Option Js
  linked none = none
  linked (some id) = some (Js.text (c.encode id))

  abbrev pub follow : Links → Option ℕ → Option Js
  follow links none = none
  follow links (some at) = linked (link_at links at)

  abbrev pub key_text : Option Bytes → Option Js
  key_text none = none
  key_text (some b) = some (Js.text (c.encode b))

  unfoldable pub decode_value : FieldKind → Bytes → Links → Option Js
  unfolding decode_ref
  decode_value string b links = as_text (first (c.wire.string.dec b))
  decode_value int b links = as_int (first (c.int.dec b))
  decode_value uint b links = as_uint (first (c.wire.uint.dec b))
  decode_value float b links = first (c.float.dec b)
  decode_value bool b links = as_flag (first (c.wire.boolean.dec b))
  decode_value bytes b links = as_bytes (first (c.wire.raw.dec b))
  decode_value ref b links = as_ref (decode_ref c.wire b)
  decode_value space b links = key_text (first (c.wire.fixed32.dec b))
  decode_value link b links = follow links (first (c.wire.uint.dec b))
