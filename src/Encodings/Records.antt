-- ===== src/Encodings/Records.antt =====
-- The blocks of a device log in lib/encodings.js: record ids, the header and records.
use Prim.Native.Nat.{bit_and}
use hypergraph.Prelude.{
  ℕ, ◌+◌, ◌*◌, Bool, true, false, not, ◌&&◌, Option, none, some, [], String, ◌==◌, if◌then◌else◌,
  is_some, length, leb,
}
use hypergraph.Encodings.Codec.{
  Bytes, Value, bytes, list, Values, nil, cons, Codec, uint, fixed32, buffer, array, struct,
  no_more, has, Wire, both, encode, decode,
}

abbrev pub max_record : ℕ
max_record = 64 * 1024

abbrev pub record_id : Codec
record_id = struct (has "log" fixed32 (has "seq" uint no_more))

abbrev pub delete_kind : ℕ
delete_kind = 2

-- `kind` is PUT, EDIT or DELETE: 0, 1, 2
pub record Record : Type 0 where
  pub kind : ℕ
  pub type : String
  pub stamp : ℕ
  pub target : Option Bytes
  pub links : Values
  pub fields : Bytes
  pub sealed : Bool

abbrev pub flags_of : Record → ℕ
flags_of r = (if is_some r.target then 1 else 0) + (if r.sealed then 2 else 0)

abbrev pub target_of : Value → Option Bytes
target_of (bytes b) = some b
target_of _ = none

abbrev pub as_target : Value → Bytes → Option (Option Bytes × Bytes)
as_target v rest = some (target_of v, rest)

abbrev pub links_of : Value → Values
links_of (list vs) = vs
links_of _ = nil

abbrev pub links_codec : Codec
links_codec = array buffer

-- A step of a decoder: what was read, and the bytes left.
infixl 5 ◌>>=◌
abbrev pub ◌>>=◌ : {A B : Type 0} → Option (A × Bytes) → (A → Bytes → Option B) → Option B
none >>= f = none
some (a, rest) >>= f = f a rest

module _ (w : Wire) where
  abbrev pub enc_target : Option Bytes → Option Bytes
  enc_target none = some []
  enc_target (some t) = encode w buffer (bytes t)

  -- the flags are one number: 1 for a target, 2 for sealed fields
  unfoldable pub write_record : Record → Option Bytes
  unfolding encode
  write_record r = both (w.uint.enc r.kind) (
      both (w.string.enc r.type) (
        both (w.uint.enc r.stamp) (
          both (w.uint.enc (flags_of r)) (
            both (enc_target r.target)
              (both (encode w links_codec (list r.links)) (w.raw.enc r.fields))))))

  abbrev pub dec_target : ℕ → Bytes → Option (Option Bytes × Bytes)
  dec_target flags rest =
      if bit_and flags 1 == 0 then some (none, rest) else decode w buffer rest >>= as_target

  abbrev pub read_rest : ℕ → String → ℕ → ℕ → Bytes → Option Record
  read_rest kind type stamp flags rest = dec_target flags rest >>= λ target rest.
      decode w links_codec rest >>= λ links rest. w.raw.dec rest >>= λ fields rest. some (record {
        kind = kind;
        type = type;
        stamp = stamp;
        target = target;
        links = links_of links;
        fields = fields;
        sealed = not (bit_and flags 2 == 0);
      })

  unfoldable pub read_record : Bytes → Option Record
  unfolding decode
  read_record bs = w.uint.dec bs >>= λ kind rest.
      if leb kind delete_kind
      then (w.string.dec rest >>= λ type rest. w.uint.dec rest >>= λ stamp rest.
          w.uint.dec rest >>= λ flags rest. read_rest kind type stamp flags rest)
      else none

  unfoldable pub encode_record : Record → Option Bytes
  unfolding write_record
  encode_record r = elim (write_record r) [
    | none ↦ none
    | some b ↦ if leb (length b) max_record then some b else none
  ]

  -- does c.decode(recordId, b) read it?
  unfoldable pub is_id : Value → Bool
  unfolding decode
  is_id (bytes b) = is_some (decode w record_id b)
  is_id _ = false

  abbrev pub all_ids : Values → Bool
  all_ids nil = true
  all_ids (cons v vs) = is_id v && all_ids vs

  abbrev pub target_is_id : Option Bytes → Bool
  target_is_id none = true
  target_is_id (some t) = is_id (bytes t)

  abbrev pub checked : Option Record → Option Record
  checked none = none
  checked (some r) = if target_is_id r.target && all_ids r.links then some r else none

  unfoldable pub decode_record : Bytes → Option Record
  unfolding read_record is_id
  decode_record b = if leb (length b) max_record then checked (read_record b) else none
