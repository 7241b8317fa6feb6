-- ===== src/Fields/Ref.antt =====
-- The codec `ref` of lib/fields.js: a reference { src, size, type, digest, mutable }.
use hypergraph.Prelude.{ℕ, Bool, Option, none, some, List, [], ◌∷◌, String}
use hypergraph.Encodings.Codec.{
  Bytes, Value, num, text, flag, list, object, Values, nil, cons, end, field, Codec, uint, string,
  boolean, array, struct, has, no_more, Wire, encode, decode,
}

abbrev pub ref_codec : Codec
ref_codec = struct (
    has "src" (array string)
      (has "size" uint (has "type" string (has "digest" string (has "mutable" boolean no_more)))))

abbrev pub values_of : List String → Values
values_of [] = nil
values_of (s ∷ texts) = cons (text s) (values_of texts)

-- none for a value that is no text
abbrev text_before : Value → Option (List String) → Option (List String)
text_before (text s) (some texts) = some (s ∷ texts)
text_before _ _ = none

abbrev pub texts_of : Values → Option (List String)
texts_of nil = some []
texts_of (cons v vs) = text_before v (texts_of vs)

abbrev pub Ref : Type 0
Ref = List String × ℕ × String × String × Bool

abbrev pub ref_object : Ref → Value
ref_object (src, size, type, digest, mutable) = object (
    field "src" (list (values_of src)) (
      field "size" (num size) (
        field "type" (text type)
          (field "digest" (text digest) (field "mutable" (flag mutable) end)))))

abbrev pub with_src : ℕ → String → String → Bool → Option (List String) → Option Ref
with_src size type digest mutable none = none
with_src size type digest mutable (some src) = some (src, size, type, digest, mutable)

abbrev pub object_ref : Value → Option Ref
object_ref
      (object (
        field _ (list src) (
          field _
            (num size)
            (field _ (text type) (field _ (text digest) (field _ (flag m) end)))))) =
    with_src size type digest m (texts_of src)
object_ref _ = none

abbrev pub of_object : Option (Value × Bytes) → Option Ref
of_object none = none
of_object (some (v, rest)) = object_ref v

module _ (w : Wire) where
  unfoldable pub encode_ref : Ref → Option Bytes
  unfolding encode
  encode_ref r = encode w ref_codec (ref_object r)

  unfoldable pub decode_ref : Bytes → Option Ref
  unfolding decode
  decode_ref b = of_object (decode w ref_codec b)
