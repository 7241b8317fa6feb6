-- ===== src/Encodings/Decision.antt =====
-- The decisions of lib/encodings.js: their fields, and how one is written.
use hypergraph.Prelude.{
  ℕ, zero, suc, Option, none, some, List, [], ◌∷◌, String, str_eq, if◌then◌else◌,
}
use hypergraph.Encodings.Codec.{
  Bytes, Object, Codec, uint, fixed32, string, buffer, boolean, array, opt, trailing, struct,
  Fields, no_more, has, Wire, both, encode_fields, decode_fields,
}

abbrev pub cut_entry : Codec
cut_entry = struct (has "log" fixed32 (has "length" uint no_more))

abbrev pub listed_log : Codec
listed_log = struct (has "space" fixed32 (has "log" fixed32 no_more))

abbrev pub write_limit : Codec
write_limit = struct (has "records" uint (has "periodMs" uint no_more))

abbrev cut_field : Fields → Fields
cut_field = has "cut" (array cut_entry)

abbrev pub settings_fields : Fields
settings_fields = has "policy" (opt string) (
    has "writeLimit" (opt write_limit) (
      has "rules" (trailing (array string)) (
        has "history" (trailing string)
          (has "helpers" (trailing (array string)) (has "public" (trailing boolean) no_more)))))

-- DECISIONS: type → its fields after { type, stamp }
abbrev pub decisions : List (String × Fields)
decisions =
    (
      "space/init",
      has "name" string (
          has "parent" (opt fixed32) (
            has "private" boolean
              (has "policy" string (has "version" uint (has "proof" buffer no_more))))),
    )
    ∷ ("member/add", has "identity" fixed32 no_more)
    ∷ ("member/remove", has "identity" fixed32 (cut_field no_more))
    ∷ ("role/define", has "name" string (has "permissions" (array string) no_more))
    ∷ ("role/set", has "identity" fixed32 (has "role" string (cut_field no_more)))
    ∷ (
      "moderate",
      has "action" string (
          has "target" buffer
            (has "reason" string (cut_field (has "drop" (trailing string) no_more)))),
    )
    ∷ ("invite/create", has "invite" buffer no_more)
    ∷ ("invite/revoke", has "invite" buffer no_more)
    ∷ ("invite/redeem", has "redemption" buffer no_more)
    ∷ ("key/rotate", has "epoch" uint (has "commit" fixed32 no_more))
    ∷ (
      "subspace/create",
      has "key" fixed32
          (has "name" string (has "private" boolean (has "writeRoles" (array string) no_more))),
    )
    ∷ ("settings/set", settings_fields)
    ∷ ("writer/add", has "key" fixed32 (has "proof" buffer no_more))
    ∷ ("device/remove", has "device" fixed32 (has "cut" buffer (has "proof" buffer no_more)))
    ∷ ("scoped", has "space" fixed32 (has "decision" buffer no_more))
    ∷ ("logs/list", has "logs" (array listed_log) no_more)
    ∷ ("types/set", has "version" uint (has "types" string no_more))
    ∷ []

-- inviteBody, invite, redemption
abbrev pub invite_fields : Fields → Fields
invite_fields more = has "space" fixed32 (
    has "id" buffer (
      has "role" string (
        has "uses" uint
          (has "expires" uint (has "subspaces" (array fixed32) (has "maker" fixed32 more))))))

abbrev pub invite_body : Codec
invite_body = struct (invite_fields no_more)

abbrev pub invite : Codec
invite = struct (invite_fields (has "proof" buffer no_more))

abbrev pub redemption : Codec
redemption = struct (
    has "invite" invite
      (has "identity" fixed32 (has "writer" fixed32 (has "proof" buffer no_more))))

-- ranges, keys: the messages of lib/ranges.js
abbrev pub ranges : Codec
ranges = struct (
    has "prefix" buffer (
      has "bits" uint
        (has "parts" (array (struct (has "count" uint (has "digest" fixed32 no_more)))) no_more)))

abbrev pub keys : Codec
keys = struct (
    has "prefix" buffer (
      has "bits" uint
        (has "kind" uint (has "keys" (array fixed32) (has "lengths" (array uint) no_more)))))

abbrev pub one_up : Option (ℕ × Fields) → Option (ℕ × Fields)
one_up none = none
one_up (some (i, fs)) = some (suc i, fs)

-- DECISION_TYPES.indexOf and bodyOf
unfoldable pub index_of : List (String × Fields) → String → Option (ℕ × Fields)
index_of [] type = none
index_of ((name, fs) ∷ table) type =
    if str_eq name type then some (0, fs) else one_up (index_of table type)

unfoldable pub nth : List (String × Fields) → ℕ → Option (String × Fields)
nth [] i = none
nth (entry ∷ table) zero = some entry
nth (entry ∷ table) (suc i) = nth table i

-- { type, stamp, ...body }
pub record Entry : Type 0 where
  pub type : String
  pub stamp : ℕ
  pub body : Object

module _ (w : Wire) where
  abbrev pub write_body : ℕ → Option (ℕ × Fields) → Object → Option Bytes
  write_body stamp none body = none
  write_body stamp (some (i, fs)) body =
      both (w.uint.enc i) (both (w.uint.enc stamp) (encode_fields w fs body))

  unfoldable pub encode_decision : Entry → Option Bytes
  unfolding index_of
  encode_decision d = write_body d.stamp (index_of decisions d.type) d.body

  abbrev pub with_stamp : String → ℕ → Option (Object × Bytes) → Option (Entry × Bytes)
  with_stamp type stamp none = none
  with_stamp type stamp (some (o, rest)) =
      some (record { type = type; stamp = stamp; body = o }, rest)

  abbrev pub read_stamp : String → Fields → Option (ℕ × Bytes) → Option (Entry × Bytes)
  read_stamp type fs none = none
  read_stamp type fs (some (stamp, rest)) = with_stamp type stamp (decode_fields w fs rest)

  abbrev pub read_body : Option (String × Fields) → Bytes → Option (Entry × Bytes)
  read_body none rest = none
  read_body (some (type, fs)) rest = read_stamp type fs (w.uint.dec rest)

  abbrev pub read_type : Option (ℕ × Bytes) → Option (Entry × Bytes)
  read_type none = none
  read_type (some (i, rest)) = read_body (nth decisions i) rest

  unfoldable pub decode_decision : Bytes → Option (Entry × Bytes)
  unfolding nth
  decode_decision bs = read_type (w.uint.dec bs)
