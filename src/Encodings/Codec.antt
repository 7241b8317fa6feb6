-- ===== src/Encodings/Codec.antt =====
-- Codecs and `struct` of lib/encodings.js. A JavaScript value is a `Value`, with null for what is
-- absent; bytes are a list. The codecs of compact-encoding are the parameter `Wire`: encoding gives
-- the bytes, or none where it throws; decoding gives the value and the bytes that follow it.
use hypergraph.Prelude.{
  ℕ, Bool, true, false, Option, none, some, List, [], ◌∷◌, ◌++◌, String, str_eq, if◌then◌else◌,
}

abbrev pub Bytes : Type 0
Bytes = List ℕ

mutual
  pub data Value : Type 0 where
    null : Value
    num : ℕ → Value
    text : String → Value
    flag : Bool → Value
    bytes : List ℕ → Value
    list : Values → Value
    object : Object → Value

  pub data Values : Type 0 where
    nil : Values
    cons : Value → Values → Values

  pub data Object : Type 0 where
    end : Object
    field : String → Value → Object → Object

-- `opt` has a flag before the value: optFixed32, optString, optWriteLimit. `trailing` may be absent
-- at the end of the bytes: optTrailingStrings, optTrailingString, optTrailingBool.
mutual
  pub data Codec : Type 0 where
    uint fixed32 string buffer boolean : Codec
    array : Codec → Codec
    opt : Codec → Codec
    trailing : Codec → Codec
    struct : Fields → Codec

  pub data Fields : Type 0 where
    no_more : Fields
    has : String → Codec → Fields → Fields

-- A codec of compact-encoding.
pub record Plain (A : Type 0) : Type 0 where
  pub enc : A → Option Bytes
  pub dec : Bytes → Option (A × Bytes)

-- c.uint, c.fixed32, c.string, c.bool, c.raw; c.buffer, which takes null too; c.array of a codec.
pub record Wire : Type 0 where
  pub uint : Plain ℕ
  pub fixed32 : Plain Bytes
  pub string : Plain String
  pub boolean : Plain Bool
  pub raw : Plain Bytes
  pub buffer : Plain (Option Bytes)
  pub enc_array : (Value → Option Bytes) → Values → Option Bytes
  pub dec_array : (Bytes → Option (Value × Bytes)) → Bytes → Option (Values × Bytes)

-- one after the other
abbrev pub both : Option Bytes → Option Bytes → Option Bytes
both none b = none
both (some a) none = none
both (some a) (some b) = some (a ++ b)

-- what was read, as a value
abbrev pub read_as : {A : Type 0} → (A → Value) → Option (A × Bytes) → Option (Value × Bytes)
read_as f none = none
read_as f (some (a, rest)) = some (f a, rest)

abbrev pub buffer_value : Option Bytes → Value
buffer_value none = null
buffer_value (some b) = bytes b

abbrev pub is_null : Value → Bool
is_null null = true
is_null _ = false

-- v[name]: null if there is none
abbrev pub field_of : Object → String → Value
field_of end name = null
field_of (field key v o) name = if str_eq key name then v else field_of o name

-- the field read, and those after it
abbrev pub with_field : String → Value → Option (Object × Bytes) → Option (Object × Bytes)
with_field name v none = none
with_field name v (some (o, rest)) = some (field name v o, rest)

abbrev pub read_field :
    String → (Bytes → Option (Object × Bytes)) → Option (Value × Bytes) → Option (Object × Bytes)
read_field name more none = none
read_field name more (some (v, rest)) = with_field name v (more rest)

module _ (w : Wire) where
  -- a flag, and the value if it is there
  abbrev pub enc_opt : (Value → Option Bytes) → Value → Option Bytes
  enc_opt e v = if is_null v then w.boolean.enc false else both (w.boolean.enc true) (e v)

  abbrev pub dec_opt : (Bytes → Option (Value × Bytes)) → Bytes → Option (Value × Bytes)
  dec_opt d bs = elim (w.boolean.dec bs) [
    | none ↦ none
    | some (there, rest) ↦ if there then d rest else some (null, rest)
  ]

  unfoldable mutual
    pub encode : Codec → Value → Option Bytes
    encode uint (num n) = w.uint.enc n
    encode uint _ = none
    encode fixed32 (bytes b) = w.fixed32.enc b
    encode fixed32 _ = none
    encode string (text s) = w.string.enc s
    encode string _ = none
    encode buffer (bytes b) = w.buffer.enc (some b)
    encode buffer null = w.buffer.enc none
    encode buffer _ = none
    encode boolean (flag b) = w.boolean.enc b
    encode boolean _ = none
    encode (array c) (list vs) = w.enc_array (encode c) vs
    encode (array c) _ = none
    encode (opt c) v = enc_opt (encode c) v
    encode (trailing c) v = enc_opt (encode c) v
    encode (struct fs) (object o) = encode_fields fs o
    encode (struct fs) _ = none

    pub encode_fields : Fields → Object → Option Bytes
    encode_fields no_more o = some []
    encode_fields (has name c fs) o = both (encode c (field_of o name)) (encode_fields fs o)

  unfoldable mutual
    pub decode : Codec → Bytes → Option (Value × Bytes)
    decode uint bs = read_as num (w.uint.dec bs)
    decode fixed32 bs = read_as bytes (w.fixed32.dec bs)
    decode string bs = read_as text (w.string.dec bs)
    decode buffer bs = read_as buffer_value (w.buffer.dec bs)
    decode boolean bs = read_as flag (w.boolean.dec bs)
    decode (array c) bs = read_as list (w.dec_array (decode c) bs)
    decode (opt c) bs = dec_opt (decode c) bs
    decode (trailing c) [] = some (null, [])
    decode (trailing c) (b ∷ bs) = dec_opt (decode c) (b ∷ bs)
    decode (struct fs) bs = read_as object (decode_fields fs bs)

    pub decode_fields : Fields → Bytes → Option (Object × Bytes)
    decode_fields no_more bs = some (end, bs)
    decode_fields (has name c fs) bs = read_field name (decode_fields fs) (decode c bs)

-- What is read back of a value: an object's fields in the codec's order, null for an empty buffer.
abbrev pub map_values : (Value → Value) → Values → Values
map_values f nil = nil
map_values f (cons v vs) = cons (f v) (map_values f vs)

unfoldable mutual
  pub norm : Codec → Value → Value
  norm buffer (bytes []) = null
  norm (array c) (list vs) = list (map_values (norm c) vs)
  norm (opt c) v = if is_null v then null else norm c v
  norm (trailing c) v = if is_null v then null else norm c v
  norm (struct fs) (object o) = object (norm_fields fs o)
  norm _ v = v

  pub norm_fields : Fields → Object → Object
  norm_fields no_more o = end
  norm_fields (has name c fs) o = field name (norm c (field_of o name)) (norm_fields fs o)
