-- ===== src/Fields/Tests.antt =====
-- A post of an app whose later version has a link, written, read and edited by apps of both versions.
use hypergraph.Prelude.{
  ℕ, zero, suc, ◌≡◌, ◌⊎◌, refl, ap, Bool, true, false, not, ◌&&◌, Option, none, some, List, [], ◌∷◌,
  ◌++◌, ◌==◌, ◌∙◌, arith, get_text, put_text,
}
use hypergraph.Encodings.Codec.{Value, cons, nil, Bytes, encode, decode}
use hypergraph.Encodings.Records.{is_id, Record, encode_record, decode_record, write_record}
use hypergraph.Gate.Records.{check_record, accepted, check_record-encode_record, decode_values}
use hypergraph.Encodings.Ids.{id_from_string}
use hypergraph.Encodings.Tests.{wire-IsWire, enc_count, dec_count}
use hypergraph.Types.{Named, Declared, Rule}
use hypergraph.Types.Validate.{Js}
use hypergraph.Types.Tests.{texts, some_id}
use hypergraph.Fields.Ref.{encode_ref, decode_ref}
use hypergraph.Fields.Kinds.{Codecs, FieldKind, FieldList, encode_value, decode_value, link_at}
use hypergraph.Fields.Codec.{
  encode_field, encode_from, next_entry, unknown_from, unknown_of, decode_from, read_fields,
  write_fields, Version,
}
use hypergraph.Fields.Entries.{IsLocal, Entry, Entries, IsBroken, unknown_in}
use hypergraph.Fields.Ends.{unknown_of-ends}
use hypergraph.Fields.Unknown.{unknown_kept}
use hypergraph.Fields.Values.{IsCodecs, int_back}
use hypergraph.Fields.Trip.{read_fields-write_fields, versions_read}

program : Unit {0}
unfolding encode decode is_id id_from_string encode_ref decode_ref encode_value decode_value
    encode_field encode_from next_entry unknown_from unknown_of decode_from read_fields write_fields
    get_text put_text encode_record decode_record write_record check_record decode_values enc_count
    dec_count
program = tt

abbrev bit : Bool → ℕ
bit true = 1
bit false = 0

-- A sign and a size, as two numbers.
abbrev enc_int : Bool × ℕ → Option Bytes
enc_int p = some (bit (p.0 && not (p.1 == 0)) ∷ p.1 ∷ [])

abbrev dec_int : Bytes → Option ((Bool × ℕ) × Bytes)
dec_int (a ∷ n ∷ rest) = some ((a == 1, n), rest)
dec_int _ = none

-- The tests have no float but a whole number.
abbrev enc_float : Js → Option Bytes
enc_float (Js.integer negative n) = some (bit negative ∷ n ∷ [])
enc_float _ = none

abbrev dec_float : Bytes → Option (Js × Bytes)
dec_float (a ∷ n ∷ rest) = some (Js.integer (a == 1) n, rest)
dec_float _ = none

abbrev codecs : Codecs
codecs = record {
  texts = texts;
  int = record { enc = enc_int; dec = dec_int };
  float = record { enc = enc_float; dec = dec_float };
}

bit-is_one : (b : Bool) → (bit b == 1) ≡ b
bit-is_one true = refl
bit-is_one false = refl

some_bytes : (a b : Bytes) → some a ≡ some b → b ≡ a
some_bytes a b h = cc

pair_inj :
    (x n : ℕ) (b rest : Bytes)
    → ◌≡◌ {A = Option (ℕ × Bytes)} (some (x, b)) (some (n, rest))
    → (x ≡ n) × (b ≡ rest)
pair_inj x n b rest h = (cc, cc)

codecs-IsLocal : IsLocal codecs.wire.uint
codecs-IsLocal [] rest n h = cc
codecs-IsLocal (x ∷ b) rest n h =
    let (same, left) = pair_inj x n b rest h in
    (x ∷ [], ap (λ l. x ∷ l) left, omega arith, λ later. ap (λ m. some (m, later)) same)

int-Reads :
    (p : Bool × ℕ) (b rest : Bytes)
    → enc_int p ≡ some b
    → dec_int (b ++ rest) ≡ some ((p.0 && not (p.1 == 0), p.1), rest)
int-Reads p b rest h = rw (some_bytes _ b h) (rw (bit-is_one (p.0 && not (p.1 == 0))) refl)

float-Reads :
    (v : Js) (b rest : Bytes) → enc_float v ≡ some b → dec_float (b ++ rest) ≡ some (v, rest)
float-Reads (Js.integer negative n) b rest h = rw (some_bytes _ b h) (rw (bit-is_one negative) refl)
float-Reads _ b rest h = cc

int-Reads-back :
    (p : Bool × ℕ) (b rest : Bytes)
    → enc_int p ≡ some b
    → dec_int (b ++ rest) ≡ some (int_back codecs p, rest)
int-Reads-back p b rest h =
    int-Reads p b rest h ∙ ap (λ q. some (q, rest)) (rw (bit-is_one (p.0 && not (p.1 == 0))) refl)

codecs-IsCodecs : IsCodecs codecs
codecs-IsCodecs = record {
  wire = wire-IsWire;
  local = codecs-IsLocal;
  int = int-Reads-back;
  exact = λ p b rest k h. int-Reads p b rest h;
  float = float-Reads;
}

abbrev older : FieldList
older = ("title", FieldKind.string) ∷ ("size", FieldKind.uint) ∷ ("rank", FieldKind.int) ∷ []

abbrev newer : FieldList
newer = older ++ (("topic", FieldKind.link) ∷ [])

abbrev values : Named Js
values = ("title", Js.text "page") ∷ ("size", Js.integer false 7) ∷ ("topic", Js.text some_id) ∷ []

abbrev zeros : ℕ → Bytes
zeros zero = []
zeros (suc n) = 0 ∷ zeros n

abbrev posted : Version codecs
posted = ((1 ∷ 1 ∷ 0 ∷ []) ++ ((2 ∷ 1 ∷ 7 ∷ []) ++ (4 ∷ 1 ∷ 0 ∷ [])), zeros 33 ∷ [])

writes : write_fields codecs newer values [] none ≡ some posted
unfolding program
writes = refl

versions_read_example :
    read_fields codecs older posted.0 posted.1
    ≡ some (("title", Js.text "page") ∷ ("size", Js.integer false 7) ∷ ("rank", Js.null) ∷ [])
unfolding program
versions_read_example =
    versions_read codecs codecs-IsCodecs newer older values [] posted (refl, (refl, (refl, tt)))
      (refl, (refl, (refl, tt))) refl refl

abbrev changed : Named Js
changed = ("title", Js.text "auto") ∷ ("rank", Js.integer true 2) ∷ []

abbrev edited : Version codecs
edited = ((1 ∷ 1 ∷ 1 ∷ []) ++ ((3 ∷ 2 ∷ 1 ∷ 2 ∷ []) ++ (4 ∷ 1 ∷ 0 ∷ [])), zeros 33 ∷ [])

unknown_kept_example :
    (unknown_of codecs older edited.0 ≡ some ((4 ∷ 1 ∷ 0 ∷ []) ∷ []))
    × (link_at edited.1 0 ≡ some (zeros 33))
unfolding program
unknown_kept_example =
    unknown_kept codecs codecs-IsLocal wire-IsWire older changed posted edited (4 ∷ 1 ∷ 0 ∷ []) [] 0
      (zeros 33) refl refl refl

read_fields-write_fields_example :
    read_fields codecs older edited.0 edited.1
    ≡ some (("title", Js.text "auto") ∷ ("size", Js.null) ∷ ("rank", Js.integer true 2) ∷ [])
unfolding program
read_fields-write_fields_example =
    read_fields-write_fields codecs codecs-IsCodecs older changed [] (some posted) edited
      (refl, (refl, (refl, tt))) refl refl

unknown_of-ends_example :
    ((es : List Entry) × Entries codecs edited.0 es
      × (unknown_of codecs older edited.0 ≡ some (unknown_in codecs older es)))
    ⊎ (IsBroken codecs edited.0 × (unknown_of codecs older edited.0 ≡ none))
unfolding program
unknown_of-ends_example = unknown_of-ends codecs codecs-IsLocal older edited.0

abbrev page : Declared
page = record {
  fields = ("title", "text") ∷ ("size", "uint") ∷ ("rank", "int") ∷ ("topic", "link") ∷ [];
  links = [];
  one_per_member = false;
  target = none;
  editable = Rule.author;
  put = Rule.members;
  index = [];
}

abbrev post : Record
post = record {
  kind = 0;
  type = "page";
  stamp = 7;
  target = none;
  links = cons (Value.bytes (zeros 33)) nil;
  fields = posted.0;
  sealed = false;
}

abbrev post_bytes : Bytes
post_bytes = 0 ∷ 0 ∷ 7 ∷ 0 ∷ 1 ∷ 33 ∷ zeros 33 ++ posted.0

check_record-encode_record_example :
    check_record codecs (("page", page) ∷ []) none post_bytes
    ≡ accepted post (
        some (
          ("title", Js.text "page")
          ∷ ("size", Js.integer false 7)
          ∷ ("rank", Js.null)
          ∷ ("topic", Js.text some_id)
          ∷ []))
unfolding program
check_record-encode_record_example =
    check_record-encode_record codecs codecs-IsCodecs (("page", page) ∷ []) post page newer values
      none post_bytes refl refl (refl, (refl, (refl, (refl, tt)))) refl refl refl refl refl refl
      (omega arith) refl refl refl
