-- ===== src/Encodings/Tests.antt =====
-- A wire on which the codecs of lib/encodings.js run: one number for a number, a count before bytes
-- and arrays, and three texts. Then a decision, a record and a header written on it.
use mathlib.Core.List.{append_assoc}
use hypergraph.Prelude.{
  ℕ, zero, suc, ◌≡◌, ◌≤◌, inl, inr, refl, sym, ap, ◌∙◌, Bool, true, false, Option, none, some, List,
  [], ◌∷◌, ◌++◌, String, str_eq, eq_iff, arith, ◌==◌, if◌then◌else◌, leb, length, take,
  length-append, Bool-cases,
}
use hypergraph.Encodings.Bytes.{drop, take-append, drop-append}
use hypergraph.Encodings.Codec.{
  Bytes, Value, null, num, text, bytes, object, Values, nil, cons, Object, end, field, Wire, both,
  encode, decode, encode_fields, decode_fields, norm, norm_fields, map_values, Codec, boolean,
  array, opt, string, Fields, has, no_more,
}
use hypergraph.Encodings.RoundTrip.{
  IsWire, IsShort, AllShort, count, max_items, drop_empty, both-some,
}
use hypergraph.Encodings.Decision.{
  write_limit, Entry, index_of, settings_fields, encode_decision, decode_decision,
}
use hypergraph.Encodings.Trailing.{decision_roundtrip, trailing_absent}
use hypergraph.Encodings.Records.{Record, write_record, encode_record, decode_record, is_id}
use hypergraph.Encodings.RecordTrip.{decode_record-encode_record}
use hypergraph.Encodings.Header.{encode_header, decode_header, header_roundtrip}

abbrev split : ℕ → Bytes → Option (Bytes × Bytes)
split n bs = if leb n (length bs) then some (take n bs, drop n bs) else none

split-append : (b rest : Bytes) → split (length b) (b ++ rest) ≡ some (b, rest)
split-append b rest = ground (arith, length-append b rest, take-append b rest, drop-append b rest)

abbrev dec_one : Bytes → Option (ℕ × Bytes)
dec_one [] = none
dec_one (n ∷ bs) = some (n, bs)

abbrev enc_fixed : Bytes → Option Bytes
enc_fixed b = if length b == 32 then some b else none

abbrev enc_text : String → Option Bytes
enc_text s =
    if str_eq s "page"
    then some (0 ∷ [])
    else if str_eq s "auto"
    then some (1 ∷ [])
    else if str_eq s "settings/set"
    then some (2 ∷ [])
    else none

abbrev text_at : ℕ → Bytes → Option (String × Bytes)
text_at n bs = some ((if n == 0 then "page" else if n == 1 then "auto" else "settings/set"), bs)

abbrev dec_text : Bytes → Option (String × Bytes)
dec_text [] = none
dec_text (n ∷ bs) = text_at n bs

abbrev enc_flag : Bool → Option Bytes
enc_flag b = some ((if b then 1 else 0) ∷ [])

abbrev dec_flag : Bytes → Option (Bool × Bytes)
dec_flag [] = none
dec_flag (n ∷ bs) = some (n == 1, bs)

abbrev enc_buffer : Option Bytes → Option Bytes
enc_buffer none = some (0 ∷ [])
enc_buffer (some b) = some (length b ∷ b)

abbrev filled : Option (Bytes × Bytes) → Option (Option Bytes × Bytes)
filled none = none
filled (some (b, rest)) = some (some b, rest)

abbrev dec_buffer : Bytes → Option (Option Bytes × Bytes)
dec_buffer [] = none
dec_buffer (zero ∷ bs) = some (none, bs)
dec_buffer (suc n ∷ bs) = filled (split (suc n) bs)

enc_each : (Value → Option Bytes) → Values → Option Bytes
enc_each e nil = some []
enc_each e (cons v vs) = both (e v) (enc_each e vs)

abbrev then_item : Value → Option (Values × Bytes) → Option (Values × Bytes)
then_item v none = none
then_item v (some (vs, rest)) = some (cons v vs, rest)

abbrev read_item :
    (Bytes → Option (Values × Bytes)) → Option (Value × Bytes) → Option (Values × Bytes)
read_item more none = none
read_item more (some (v, rest)) = then_item v (more rest)

dec_each : (Bytes → Option (Value × Bytes)) → ℕ → Bytes → Option (Values × Bytes)
dec_each d zero bs = some (nil, bs)
dec_each d (suc n) bs = read_item (dec_each d n) (d bs)

unfoldable pub dec_count : (Bytes → Option (Value × Bytes)) → Bytes → Option (Values × Bytes)
unfolding dec_each
dec_count d [] = none
dec_count d (n ∷ bs) = dec_each d n bs

unfoldable pub enc_count : (Value → Option Bytes) → Values → Option Bytes
unfolding enc_each
enc_count e vs = both (some (count vs ∷ [])) (enc_each e vs)

abbrev pub wire : Wire
wire = record {
  uint = record { enc = λ n. some (n ∷ []); dec = dec_one };
  fixed32 = record { enc = enc_fixed; dec = split 32 };
  string = record { enc = enc_text; dec = dec_text };
  boolean = record { enc = enc_flag; dec = dec_flag };
  raw = record { enc = λ b. some b; dec = λ b. some (b, []) };
  buffer = record { enc = enc_buffer; dec = dec_buffer };
  enc_array = enc_count;
  dec_array = dec_count;
}

each_read :
    (e : Value → Option Bytes) (d : Bytes → Option (Value × Bytes)) (n : Value → Value)
    → ((v : Value) (b rest : Bytes) → IsShort v → e v ≡ some b → d (b ++ rest) ≡ some (n v, rest))
    → (vs : Values) (b rest : Bytes) → AllShort vs
    → enc_each e vs ≡ some b
    → dec_each d (count vs) (b ++ rest) ≡ some (map_values n vs, rest)
unfolding enc_each dec_each
each_read e d n h nil b rest s eq =
    let empty : b ≡ [] = ground arith in ap (λ l. some (nil, l ++ rest)) empty
each_read e d n h (cons v vs) b rest s eq =
    let (p, q, f, g, e') = both-some (e v) (enc_each e vs) b eq in
    ap (λ l. read_item (dec_each d (count vs)) (d (l ++ rest))) e'
    ∙ ap (λ l. read_item (dec_each d (count vs)) (d l)) (append_assoc p q rest)
    ∙ ap (read_item (dec_each d (count vs))) (h v p (q ++ rest) s.0 f)
    ∙ ap (then_item (n v)) (each_read e d n h vs q rest s.1 g)

text_read :
    (s : String) (b rest : Bytes) → enc_text s ≡ some b → dec_text (b ++ rest) ≡ some (s, rest)
text_read s [] rest h = ground arith
text_read s (n ∷ bs) rest h =
    ground (arith, eq_iff s "page", eq_iff s "auto", eq_iff s "settings/set")

flag_read :
    (a : Bool) (b rest : Bytes) → enc_flag a ≡ some b → dec_flag (b ++ rest) ≡ some (a, rest)
flag_read true [] rest h = ground arith
flag_read false [] rest h = ground arith
flag_read true (n ∷ bs) rest h = ground arith
flag_read false (n ∷ bs) rest h = ground arith

fixed_read : (a b rest : Bytes) → enc_fixed a ≡ some b → split 32 (b ++ rest) ≡ some (a, rest)
fixed_read a b rest h = elim (Bool-cases (length a == 32)) [
  | inr e ↦ ground arith
  | inl e ↦
      let same : a ≡ b = ground arith in
      let size : 32 ≡ length b = ground (arith, ap length same) in
      ap (λ n. split n (b ++ rest)) size ∙ split-append b rest ∙ ap (λ l. some (l, rest)) (sym same)
]

fixed_size : (a b : Bytes) → enc_fixed a ≡ some b → length b ≡ 32
fixed_size a b h = elim (Bool-cases (length a == 32)) [
  | inr e ↦ ground arith
  | inl e ↦ let same : a ≡ b = ground arith in ground (arith, ap length same)
]

uint_read :
    (a : ℕ) (b rest : Bytes)
    → ◌≡◌ {A = Option Bytes} (some (a ∷ [])) (some b)
    → dec_one (b ++ rest) ≡ some (a, rest)
uint_read a [] rest h = ground arith
uint_read a (x ∷ xs) rest h = ground arith

raw_read :
    (a b : Bytes) → some a ≡ some b → ◌≡◌ {A = Option (Bytes × Bytes)} (some (b, [])) (some (a, []))
raw_read a b h = let same : a ≡ b = ground arith in ap (λ l. some (l, [])) (sym same)

buffer_read :
    (a : Option Bytes) (b rest : Bytes)
    → enc_buffer a ≡ some b
    → dec_buffer (b ++ rest) ≡ some (drop_empty a, rest)
buffer_read none b rest h =
    let same : (0 ∷ []) ≡ b = ground arith in ap (λ l. dec_buffer (l ++ rest)) (sym same)
buffer_read (some []) b rest h =
    let same : (0 ∷ []) ≡ b = ground arith in ap (λ l. dec_buffer (l ++ rest)) (sym same)
buffer_read (some (x ∷ xs)) b rest h =
    let same : (length (x ∷ xs) ∷ (x ∷ xs)) ≡ b = ground arith in
    ap (λ l. dec_buffer (l ++ rest)) (sym same) ∙ ap filled (split-append (x ∷ xs) rest)

one_byte : (b : Bool) (x : Bytes) → enc_flag b ≡ some x → length x ≡ 1
one_byte b x h = let same : ((if b then 1 else 0) ∷ []) ≡ x = ground arith in sym (ap length same)

array_read :
    (e : Value → Option Bytes) (d : Bytes → Option (Value × Bytes)) (n : Value → Value)
    → ((v : Value) (b rest : Bytes) → IsShort v → e v ≡ some b → d (b ++ rest) ≡ some (n v, rest))
    → (vs : Values) (b rest : Bytes) → count vs ≤ max_items
    → AllShort vs
    → enc_count e vs ≡ some b
    → dec_count d (b ++ rest) ≡ some (map_values n vs, rest)
unfolding enc_count dec_count
array_read e d n h vs b rest c s eq =
    let (p, q, f, g, e') = both-some (some (count vs ∷ [])) (enc_each e vs) b eq in
    let first : (count vs ∷ []) ≡ p = ground arith in
    ap (λ l. dec_count d (l ++ rest)) e'
    ∙ ap (λ l. dec_count d ((l ++ q) ++ rest)) (sym first)
    ∙ each_read e d n h vs q rest s g

pub wire-IsWire : IsWire wire
wire-IsWire = record {
  uint = uint_read;
  fixed32 = fixed_read;
  thirty_two = fixed_size;
  string = text_read;
  boolean = flag_read;
  one_byte = one_byte;
  buffer = buffer_read;
  raw = raw_read;
  array = array_read;
}

-- settings of a write limit and a policy, in the first version's fields and in today's
abbrev settings : Object
settings =
    field "policy" (text "auto")
      (field "writeLimit" (object (field "records" (num 2) (field "periodMs" (num 1000) end))) end)

abbrev decided : Entry
decided = record { type = "settings/set"; stamp = 9; body = settings }

abbrev decided_bytes : Bytes
decided_bytes = 11 ∷ 9 ∷ 1 ∷ 1 ∷ 1 ∷ 2 ∷ 1000 ∷ 0 ∷ 0 ∷ 0 ∷ 0 ∷ []

decision_roundtrip_example :
    decode_decision wire (decided_bytes ++ 5 ∷ [])
    ≡ some (record decided { body = norm_fields settings_fields settings }, 5 ∷ [])
unfolding encode_decision encode_fields encode index_of
decision_roundtrip_example =
    decision_roundtrip wire wire-IsWire decided 11 settings_fields decided_bytes (5 ∷ []) refl
      (tt, ((tt, (tt, tt)), tt)) refl

abbrev first_fields : Fields
first_fields = has "policy" (opt string) (has "writeLimit" (opt write_limit) no_more)

abbrev since : List (String × Codec)
since =
    ("rules", array string)
    ∷ ("history", string)
    ∷ ("helpers", array string)
    ∷ ("public", boolean)
    ∷ []

trailing_absent_example :
    decode_fields wire settings_fields (1 ∷ 1 ∷ 1 ∷ 2 ∷ 1000 ∷ [])
    ≡ some (
      field "policy" (text "auto") (
          field "writeLimit" (object (field "records" (num 2) (field "periodMs" (num 1000) end))) (
            field "rules" null
              (field "history" null (field "helpers" null (field "public" null end))))),
      [],
    )
unfolding encode_fields encode norm_fields norm
trailing_absent_example =
    trailing_absent wire wire-IsWire first_fields since settings (1 ∷ 1 ∷ 1 ∷ 2 ∷ 1000 ∷ [])
      (tt, ((tt, (tt, tt)), tt)) refl

abbrev pub key : Bytes
key =
    1 ∷ 1 ∷ 1 ∷ 1 ∷ 1 ∷ 1 ∷ 1 ∷ 1 ∷ 2 ∷ 2 ∷ 2 ∷ 2 ∷ 2 ∷ 2 ∷ 2 ∷ 2 ∷ 3 ∷ 3 ∷ 3 ∷ 3 ∷ 3 ∷ 3 ∷ 3 ∷ 3
    ∷ 4 ∷ 4 ∷ 4 ∷ 4 ∷ 4 ∷ 4 ∷ 4 ∷ 4 ∷ []

abbrev id : Bytes
id = key ++ 5 ∷ []

-- an edit of the record `id`, with a link to it
abbrev edited : Record
edited = record {
  kind = 1;
  type = "page";
  stamp = 7;
  target = some id;
  links = cons (bytes id) nil;
  fields = 3 ∷ 4 ∷ [];
  sealed = true;
}

abbrev edited_bytes : Bytes
edited_bytes = 1 ∷ 0 ∷ 7 ∷ 3 ∷ 33 ∷ id ++ (1 ∷ 33 ∷ id ++ (3 ∷ 4 ∷ []))

decode_record-encode_record_example : decode_record wire edited_bytes ≡ some edited
unfolding is_id decode decode_fields encode_record write_record encode enc_count enc_each
decode_record-encode_record_example =
    decode_record-encode_record wire wire-IsWire edited edited_bytes refl refl refl (omega arith)
      refl refl refl

abbrev heading : Object
heading =
    field "version" (num 1) (
      field "space" (bytes key)
        (field "decisions" (bytes key) (field "proof" (bytes (8 ∷ [])) end)))

abbrev heading_bytes : Bytes
heading_bytes = 1 ∷ key ++ (key ++ (1 ∷ 8 ∷ key))

header_roundtrip_example : decode_header wire heading_bytes ≡ some (heading, some key)
unfolding encode_header encode_fields encode norm_fields norm
header_roundtrip_example =
    header_roundtrip wire wire-IsWire 1 key key (8 ∷ []) (some key) heading_bytes refl
