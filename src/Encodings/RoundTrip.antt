-- ===== src/Encodings/RoundTrip.antt =====
-- What a codec of lib/encodings.js encodes, it decodes.
use mathlib.Core.List.{append_assoc}
use hypergraph.Prelude.{
  ℕ, suc, ◌≡◌, ◌≤◌, refl, ap, ◌∙◌, Bool, true, false, Option, none, some, [], ◌∷◌, ◌++◌, String,
  str_eq, arith, length-append, if◌then◌else◌, length, Bool-cases, inl, inr,
}
use hypergraph.Encodings.Codec.{
  Bytes, Value, null, num, text, flag, bytes, list, object, Values, nil, cons, Object, end, field,
  Codec, uint, fixed32, string, buffer, boolean, array, opt, trailing, struct, Fields, no_more, has,
  Plain, Wire, both, read_as, buffer_value, is_null, field_of, with_field, read_field, enc_opt,
  dec_opt, encode, encode_fields, decode, decode_fields, map_values, norm, norm_fields,
}

-- No array has more items than compact-encoding reads.
abbrev pub max_items : ℕ
max_items = 0x100000

abbrev pub count : Values → ℕ
count nil = 0
count (cons v vs) = suc (count vs)

abbrev mutual
  pub IsShort : Value → Type 0
  IsShort (list vs) = (count vs ≤ max_items) × AllShort vs
  IsShort (object o) = ShortFields o
  IsShort _ = Unit

  pub AllShort : Values → Type 0
  AllShort nil = Unit
  AllShort (cons v vs) = IsShort v × AllShort vs

  pub ShortFields : Object → Type 0
  ShortFields end = Unit
  ShortFields (field key v o) = IsShort v × ShortFields o

-- What was encoded reads back, with what follows left.
abbrev pub Reads : {A : Type 0} → Plain A → (A → A) → Type 0
Reads {A} p f = (a : A) (b rest : Bytes) → p.enc a ≡ some b → p.dec (b ++ rest) ≡ some (f a, rest)

abbrev pub drop_empty : Option Bytes → Option Bytes
drop_empty none = none
drop_empty (some []) = none
drop_empty (some (x ∷ xs)) = some (x ∷ xs)

-- What compact-encoding documents of its codecs.
pub record IsWire (w : Wire) : Type 0 where
  pub uint : Reads w.uint (λ n. n)
  pub fixed32 : Reads w.fixed32 (λ b. b)
  pub thirty_two : (b x : Bytes) → w.fixed32.enc b ≡ some x → length x ≡ 32
  pub string : Reads w.string (λ s. s)
  pub boolean : Reads w.boolean (λ b. b)
  pub one_byte : (b : Bool) (x : Bytes) → w.boolean.enc b ≡ some x → length x ≡ 1
  pub buffer : Reads w.buffer drop_empty
  -- c.raw reads all that is left
  pub raw : (a b : Bytes) → w.raw.enc a ≡ some b → w.raw.dec b ≡ some (a, [])
  pub array :
      (e : Value → Option Bytes) (d : Bytes → Option (Value × Bytes)) (n : Value → Value)
      → ((v : Value) (b rest : Bytes) → IsShort v → e v ≡ some b → d (b ++ rest) ≡ some (n v, rest))
      → (vs : Values) (b rest : Bytes) → count vs ≤ max_items
      → AllShort vs
      → w.enc_array e vs ≡ some b
      → w.dec_array d (b ++ rest) ≡ some (map_values n vs, rest)

pub both-some :
    (x y : Option Bytes) (b : Bytes)
    → both x y ≡ some b
    → (p : Bytes) × (q : Bytes) × (x ≡ some p) × (y ≡ some q) × (b ≡ p ++ q)
both-some none y b h = cc
both-some (some p) none b h = cc
both-some (some p) (some q) b h = (p, q, refl, refl, ground arith)

pub IsShort-field : (o : Object) (name : String) → ShortFields o → IsShort (field_of o name)
IsShort-field end name h = tt
IsShort-field (field key v o) name h = elim (Bool-cases (str_eq key name)) [
  | inl e ↦ rw e h.0
  | inr e ↦ rw e (IsShort-field o name h.1)
]

buffer_norm : (b : Bytes) → buffer_value (drop_empty (some b)) ≡ norm buffer (bytes b)
unfolding norm
buffer_norm [] = refl
buffer_norm (x ∷ xs) = refl

module _ (w : Wire) (laws : IsWire w) where
  abbrev pub RoundTrips : Codec → Type 0
  RoundTrips c =
      (v : Value) (b rest : Bytes)
      → IsShort v
      → encode w c v ≡ some b
      → decode w c (b ++ rest) ≡ some (norm c v, rest)

  opt_absent :
      (c : Codec) (b rest : Bytes)
      → w.boolean.enc false ≡ some b
      → dec_opt w (decode w c) (b ++ rest) ≡ some (null, rest)
  opt_absent c b rest h = rw (laws.boolean false b rest h, dec_opt) refl

  opt_there :
      (c : Codec) (p rest : Bytes)
      → w.boolean.enc true ≡ some p
      → dec_opt w (decode w c) (p ++ rest) ≡ decode w c rest
  opt_there c p rest h = rw (laws.boolean true p rest h, dec_opt) refl

  -- `r` is what the codec inside does.
  opt_roundtrip :
      (c : Codec) (v : Value) (b rest : Bytes)
      → ((b' rest' : Bytes)
          → encode w c v ≡ some b'
          → decode w c (b' ++ rest') ≡ some (norm c v, rest'))
      → enc_opt w (encode w c) v ≡ some b
      → dec_opt w (decode w c) (b ++ rest) ≡ some ((if is_null v then null else norm c v), rest)
  opt_roundtrip c v b rest r h = elim (Bool-cases (is_null v)) [
    | inl e ↦ rw e (opt_absent c b rest (rw e at h))
    | inr e ↦
        let (p, q, f, g, eq) = both-some (w.boolean.enc true) (encode w c v) b (rw e at h) in
        rw (e, eq, append_assoc p q rest) (opt_there c p (q ++ rest) f ∙ r q rest g)
  ]

  opt_length :
      (c : Codec) (v : Value) (b : Bytes) → enc_opt w (encode w c) v ≡ some b → 1 ≤ length b
  opt_length c v b h = elim (Bool-cases (is_null v)) [
    | inl e ↦ omega (arith, laws.one_byte false b (rw e at h))
    | inr e ↦
        let (p, q, f, g, eq) = both-some (w.boolean.enc true) (encode w c v) b (rw e at h) in
        omega (arith, laws.one_byte true p f, ap length eq, length-append p q)
  ]

  trailing_opt :
      (c : Codec) (b rest : Bytes)
      → 1 ≤ length b
      → decode w (trailing c) (b ++ rest) ≡ dec_opt w (decode w c) (b ++ rest)
  unfolding decode
  trailing_opt c [] rest h = absurd (omega arith)
  trailing_opt c (x ∷ xs) rest h = refl

  pub fields_step :
      (name : String) (c : Codec) (fs : Fields) (bs r1 r2 : Bytes) (v : Value) (o : Object)
      → decode w c bs ≡ some (v, r1)
      → decode_fields w fs r1 ≡ some (o, r2)
      → decode_fields w (has name c fs) bs ≡ some (field name v o, r2)
  unfolding decode decode_fields
  fields_step name c fs bs r1 r2 v o e f =
      ap (read_field name (decode_fields w fs)) e ∙ ap (with_field name v) f

  mutual
    unfolding encode encode_fields decode decode_fields norm norm_fields

    pub decode-encode : (c : Codec) → RoundTrips c
    decode-encode uint (num n) b rest s h = ap (read_as num) (laws.uint n b rest h)
    decode-encode uint _ b rest s h = cc
    decode-encode fixed32 (bytes x) b rest s h = ap (read_as bytes) (laws.fixed32 x b rest h)
    decode-encode fixed32 _ b rest s h = cc
    decode-encode string (text x) b rest s h = ap (read_as text) (laws.string x b rest h)
    decode-encode string _ b rest s h = cc
    decode-encode buffer (bytes x) b rest s h =
        ap (read_as buffer_value) (laws.buffer (some x) b rest h)
        ∙ ap (λ v. some (v, rest)) (buffer_norm x)
    decode-encode buffer null b rest s h = ap (read_as buffer_value) (laws.buffer none b rest h)
    decode-encode buffer _ b rest s h = cc
    decode-encode boolean (flag x) b rest s h = ap (read_as flag) (laws.boolean x b rest h)
    decode-encode boolean _ b rest s h = cc
    decode-encode (array c) (list vs) b rest s h =
        ap (read_as list)
          (laws.array (encode w c) (decode w c) (norm c) (decode-encode c) vs b rest s.0 s.1 h)
    decode-encode (array c) _ b rest s h = cc
    decode-encode (opt c) v b rest s h =
        opt_roundtrip c v b rest (λ b' rest' h'. decode-encode c v b' rest' s h') h
    decode-encode (trailing c) v b rest s h =
        trailing_opt c b rest (opt_length c v b h)
        ∙ opt_roundtrip c v b rest (λ b' rest' h'. decode-encode c v b' rest' s h') h
    decode-encode (struct fs) (object o) b rest s h =
        ap (read_as object) (decode_fields-encode_fields fs o b rest s h)
    decode-encode (struct fs) _ b rest s h = cc

    pub decode_fields-encode_fields :
        (fs : Fields) (o : Object) (b rest : Bytes)
        → ShortFields o
        → encode_fields w fs o ≡ some b
        → decode_fields w fs (b ++ rest) ≡ some (norm_fields fs o, rest)
    decode_fields-encode_fields no_more o b rest s h = ground arith
    decode_fields-encode_fields (has name c fs) o b rest s h =
        let (p, q, f, g, eq) =
          both-some (encode w c (field_of o name)) (encode_fields w fs o) b h in
        fields_step name c fs (b ++ rest) (q ++ rest) rest (norm c (field_of o name))
          (norm_fields fs o)
          (rw (eq, append_assoc p q rest)
            (decode-encode c (field_of o name) p (q ++ rest) (IsShort-field o name s) f))
          (decode_fields-encode_fields fs o q rest s g)
