-- ===== src/Encodings/Ids.antt =====
-- Record ids of lib/encodings.js, as texts, as bytes and in parts: idBytes, idToString, idFromString
-- and idParts.
use mathlib.Core.List.{append-nil}
use hypergraph.Prelude.{
  none_not, some_inj, ℕ, ap, true, false, Option, none, some, [], String, ◌&&◌, if◌then◌else◌, leb,
  length, ◌≡◌, refl, subst, str_eq, eq_iff, Bool-cases, Option-cases, inl, inr,
}
use hypergraph.Encodings.Codec.{
  Bytes, Value, bytes, num, object, end, field, Wire, encode, decode, norm,
}
use hypergraph.Encodings.RoundTrip.{IsWire, decode-encode}
use hypergraph.Encodings.Records.{is_id, record_id}

-- The codecs of compact-encoding, z32.decode (none where it throws) and z32.encode
pub record Texts : Type 0 where
  pub wire : Wire
  pub decode : String → Option Bytes
  pub encode : Bytes → String

module _ (t : Texts) where
  abbrev as_id : Option Bytes → Option Bytes
  as_id none = none
  as_id (some b) = if leb 33 (length b) && is_id t.wire (bytes b) then some b else none

  -- none: NOT_FOUND
  unfoldable pub id_from_string : String → Option Bytes
  unfolding is_id
  id_from_string s = as_id (t.decode s)

  abbrev written : Option Bytes → Option String
  written none = none
  written (some b) = some (t.encode b)

  -- idToString(idFromString(s))
  unfoldable pub id_of : String → Option String
  unfolding id_from_string
  id_of s = written (id_from_string s)

-- An id as idBytes takes it: a text, bytes, or { log, seq }.
data AnyId : Type 0 where
  of_text : String → AnyId
  of_bytes : Bytes → AnyId
  of_parts : Bytes → ℕ → AnyId

abbrev parts : Bytes → ℕ → Value
parts log seq = object (field "log" (bytes log) (field "seq" (num seq) end))

abbrev as_parts : Option (Value × Bytes) → Option (Bytes × ℕ)
as_parts (some (object (field _ (bytes log) (field _ (num seq) end)), rest)) = some (log, seq)
as_parts _ = none

module _ (t : Texts) where
  -- none where it throws
  unfoldable id_bytes : AnyId → Option Bytes
  unfolding id_from_string encode
  id_bytes (of_text s) = id_from_string t s
  id_bytes (of_bytes b) = some b
  id_bytes (of_parts log seq) = encode t.wire record_id (parts log seq)

  unfoldable id_to_string : AnyId → Option String
  unfolding id_bytes
  id_to_string id = written t (id_bytes id)

  abbrev parts_of : Option Bytes → Option (Bytes × ℕ)
  parts_of none = none
  parts_of (some b) = as_parts (decode t.wire record_id b)

  unfoldable id_parts : AnyId → Option (Bytes × ℕ)
  unfolding id_bytes decode
  id_parts id = parts_of (id_bytes id)

  -- The bytes of a log and a block number have that log and block number.
  id_parts-id_bytes :
      (log b : Bytes) (seq : ℕ)
      → IsWire t.wire
      → id_bytes (of_parts log seq) ≡ some b
      → id_parts (of_bytes b) ≡ some (log, seq)
  unfolding id_parts norm
  id_parts-id_bytes log b seq laws h = ap as_parts (
      subst (λ x. decode t.wire record_id x ≡ some (norm record_id (parts log seq), []))
        (append-nil b) (decode-encode t.wire laws record_id (parts log seq) b [] (tt, (tt, tt)) h))

-- z32 decodes what it encoded, and the empty text to no bytes.
pub record IsTexts (t : Texts) : Type 0 where
  pub same_key : (b : Bytes) → t.decode (t.encode b) ≡ some b
  pub empty : t.decode "" ≡ some []

module _ (t : Texts) (laws : IsTexts t) where
  -- Bytes read as an id are read again from the text that z32 writes of them.
  pub id_from_string-encode :
      (s : String) (b : Bytes)
      → id_from_string t s ≡ some b
      → id_from_string t (t.encode b) ≡ some b
  unfolding id_from_string
  id_from_string-encode s b h = elim (Option-cases (t.decode s)) [
    | inl k ↦ absurd (none_not b (rw (id_from_string, k) at h))
    | inr (x, k) ↦ elim (Bool-cases (leb 33 (length x) && is_id t.wire (bytes x))) [
      | inr e ↦ absurd (none_not b (rw (id_from_string, k, e) at h))
      | inl e ↦
          let same : x ≡ b = some_inj x b (rw (id_from_string, k, e) at h) in
          let read : leb 33 (length b) && is_id t.wire (bytes b) ≡ true =
            subst (λ y. leb 33 (length y) && is_id t.wire (bytes y) ≡ true) same e in
          rw (id_from_string, laws.same_key b, read) refl
    ]
  ]

  pub id_from_string-filled :
      (s : String) (b : Bytes) → id_from_string t s ≡ some b → str_eq (t.encode b) "" ≡ false
  unfolding id_from_string
  id_from_string-filled s b h = elim (Bool-cases (str_eq (t.encode b) "")) [
    | inr e ↦ e
    | inl e ↦
        let same : t.encode b ≡ "" = (eq_iff (t.encode b) "").0 e in
        let again = id_from_string-encode s b h in
        let none_left = subst (λ x. id_from_string t x ≡ some b) same again in
        absurd (none_not b (rw (id_from_string, laws.empty) at none_left))
  ]

  -- An id that was read and written is read and written as itself, and is not empty.
  pub id_of-id_of :
      (s id : String) → id_of t s ≡ some id → (id_of t id ≡ some id) × (str_eq id "" ≡ false)
  unfolding id_of
  id_of-id_of s id h = elim (Option-cases (id_from_string t s)) [
    | inl k ↦ absurd (none_not id (rw (id_of, k) at h))
    | inr (b, k) ↦
        subst (λ x. (id_of t x ≡ some x) × (str_eq x "" ≡ false))
          (some_inj (t.encode b) id (rw (id_of, k) at h))
          (rw (id_of, id_from_string-encode s b k) refl, id_from_string-filled s b k)
  ]
