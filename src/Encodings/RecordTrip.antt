-- ===== src/Encodings/RecordTrip.antt =====
-- Records of lib/encodings.js, written and read.
use Prim.Native.Nat.{bit_and}
use hypergraph.Prelude.{
  ℕ, ◌+◌, ◌≡◌, ◌≤◌, refl, ap, ◌∙◌, subst, Bool, true, false, not, Option, none, some, [], ◌∷◌, ◌++◌,
  ◌==◌, arith, if◌then◌else◌, is_some, length, leb, Bool-cases, Option-cases, inl, inr, ◌⊎◌, leb→le,
}
use hypergraph.Encodings.Codec.{
  Bytes, null, bytes, list, object, text, num, flag, Values, nil, cons, buffer, Wire, encode,
  decode, norm, map_values,
}
use hypergraph.Encodings.RoundTrip.{IsWire, max_items, count, AllShort, both-some, decode-encode}
use hypergraph.Encodings.Records.{
  max_record, delete_kind, Record, flags_of, as_target, links_codec, ◌>>=◌, enc_target, dec_target,
  write_record, read_rest, read_record, encode_record, all_ids, target_is_id, decode_record,
}

-- Each link is bytes, and not none of them.
abbrev pub all_filled : Values → Bool
all_filled nil = true
all_filled (cons (bytes (x ∷ xs)) vs) = all_filled vs
all_filled (cons _ vs) = false

abbrev pub target_filled : Option Bytes → Bool
target_filled (some []) = false
target_filled _ = true

filled_norm :
    (vs : Values) → all_filled vs ≡ true → (map_values (norm buffer) vs ≡ vs) × AllShort vs
unfolding norm
filled_norm nil h = (refl, tt)
filled_norm (cons (bytes (x ∷ xs)) vs) h =
    (ap (cons (bytes (x ∷ xs))) (filled_norm vs h).0, (tt, (filled_norm vs h).1))
filled_norm (cons (bytes []) vs) h = cc
filled_norm (cons null vs) h = cc
filled_norm (cons (num n) vs) h = cc
filled_norm (cons (text s) vs) h = cc
filled_norm (cons (flag b) vs) h = cc
filled_norm (cons (list l) vs) h = cc
filled_norm (cons (object o) vs) h = cc

module _ (w : Wire) (laws : IsWire w) where
  links_read :
      (vs : Values) (b rest : Bytes)
      → all_filled vs ≡ true
      → count vs ≤ max_items
      → encode w links_codec (list vs) ≡ some b
      → decode w links_codec (b ++ rest) ≡ some (list vs, rest)
  unfolding norm
  links_read vs b rest f c h =
      decode-encode w laws links_codec (list vs) b rest (c, (filled_norm vs f).1) h
      ∙ ap (λ l. some (list l, rest)) (filled_norm vs f).0

  target_read :
      (r : Record) (b rest : Bytes)
      → target_filled r.target ≡ true
      → enc_target w r.target ≡ some b
      → dec_target w (flags_of r) (b ++ rest) ≡ some (r.target, rest)
  unfolding norm
  target_read r b rest f h = by_target r.target r.sealed b f h
    where
      no_target :
          (b : Bytes)
          → some [] ≡ some b
          → ◌≡◌ {A = Option (Option Bytes × Bytes)} (some (none, b ++ rest)) (some (none, rest))
      no_target b h = let e : b ≡ [] = ground arith in ap (λ l. some (none, l ++ rest)) e

      with_target :
          (x : ℕ) (xs : Bytes) (b : Bytes)
          → encode w buffer (bytes (x ∷ xs)) ≡ some b
          → (decode w buffer (b ++ rest) >>= as_target) ≡ some (some (x ∷ xs), rest)
      with_target x xs b h =
          ap (λ o. o >>= as_target) (decode-encode w laws buffer (bytes (x ∷ xs)) b rest tt h)

      by_target :
          (t : Option Bytes) (s : Bool) (b : Bytes)
          → target_filled t ≡ true
          → enc_target w t ≡ some b
          → dec_target w ((if is_some t then 1 else 0) + (if s then 2 else 0)) (b ++ rest)
            ≡ some (t, rest)
      by_target none true b f h = no_target b h
      by_target none false b f h = no_target b h
      by_target (some []) s b f h = cc
      by_target (some (x ∷ xs)) true b f h = with_target x xs b h
      by_target (some (x ∷ xs)) false b f h = with_target x xs b h

  sealed_read : (r : Record) → not (bit_and (flags_of r) 2 == 0) ≡ r.sealed
  sealed_read r = by_flags r.target r.sealed
    where
      by_flags :
          (t : Option Bytes) (s : Bool)
          → not (bit_and ((if is_some t then 1 else 0) + (if s then 2 else 0)) 2 == 0) ≡ s
      by_flags none true = refl
      by_flags none false = refl
      by_flags (some t) true = refl
      by_flags (some t) false = refl

  -- from the target on
  rest_read :
      (r : Record) (t l b : Bytes)
      → target_filled r.target ≡ true
      → all_filled r.links ≡ true
      → count r.links ≤ max_items
      → enc_target w r.target ≡ some t
      → encode w links_codec (list r.links) ≡ some l
      → w.raw.enc r.fields ≡ some b
      → read_rest w r.kind r.type r.stamp (flags_of r) (t ++ (l ++ b)) ≡ some r
  rest_read r t l b tf lf c ht hl hb =
      rw
        (
          target_read r t (l ++ b) tf ht,
          links_read r.links l b lf c hl,
          laws.raw r.fields b hb,
          sealed_read r,
        )
        refl

  pub read_record-write_record :
      (r : Record) (b : Bytes)
      → leb r.kind delete_kind ≡ true
      → target_filled r.target ≡ true
      → all_filled r.links ≡ true
      → count r.links ≤ max_items
      → write_record w r ≡ some b
      → read_record w b ≡ some r
  unfolding write_record read_record
  read_record-write_record r b k tf lf c h =
      let (p1, q1, f1, g1, e1) = both-some (w.uint.enc r.kind) _ b h in
      let (p2, q2, f2, g2, e2) = both-some (w.string.enc r.type) _ q1 g1 in
      let (p3, q3, f3, g3, e3) = both-some (w.uint.enc r.stamp) _ q2 g2 in
      let (p4, q4, f4, g4, e4) = both-some (w.uint.enc (flags_of r)) _ q3 g3 in
      let (p5, q5, f5, g5, e5) = both-some (enc_target w r.target) _ q4 g4 in
      let (p6, q6, f6, g6, e6) = both-some (encode w links_codec (list r.links)) _ q5 g5 in
      rw
        (
          e1,
          laws.uint r.kind p1 q1 f1,
          k,
          e2,
          laws.string r.type p2 q2 f2,
          e3,
          laws.uint r.stamp p3 q3 f3,
          e4,
          laws.uint (flags_of r) p4 q4 f4,
          e5,
          e6,
        )
        (rest_read r p5 p6 q6 tf lf c f5 f6 g6)

  -- Over codecs that keep what compact-encoding documents, a put, edit or delete that could be
  -- encoded reads back as it was, its target and sealed flag included, if its target and its
  -- links, at most 0x100000, are record ids and not empty.
  pub decode_record-encode_record :
      (r : Record) (b : Bytes)
      → leb r.kind delete_kind ≡ true
      → target_filled r.target ≡ true
      → all_filled r.links ≡ true
      → count r.links ≤ max_items
      → target_is_id w r.target ≡ true
      → all_ids w r.links ≡ true
      → encode_record w r ≡ some b
      → decode_record w b ≡ some r
  unfolding encode_record decode_record
  decode_record-encode_record r b k tf lf c ti li h = elim (Option-cases (write_record w r)) [
    | inl e ↦ ground arith
    | inr (x, e) ↦ elim (Bool-cases (leb (length x) max_record)) [
      | inr m ↦ ground arith
      | inl m ↦
          let same : x ≡ b = ground arith in
          let read = read_record-write_record r b k tf lf c (e ∙ ap some same) in
          let small : leb (length b) max_record ≡ true =
            subst (λ l. leb (length l) max_record ≡ true) same m in
          rw (small, read) (rw (ti, li) refl)
    ]
  ]

  -- The bytes of a record that was encoded, and the bytes that decode to a record, are at most 64
  -- KB.
  pub record_bounds :
      (b : Bytes) (r : Record)
      → (encode_record w r ≡ some b) ⊎ (decode_record w b ≡ some r)
      → length b ≤ max_record
  unfolding encode_record decode_record
  record_bounds b r (inl h) = elim (Option-cases (write_record w r)) [
    | inl e ↦ ground arith
    | inr (x, e) ↦ elim (Bool-cases (leb (length x) max_record)) [
      | inr m ↦ ground arith
      | inl m ↦
          let same : x ≡ b = ground arith in
          subst (λ l. length l ≤ max_record) same (leb→le (length x) max_record m)
    ]
  ]
  record_bounds b r (inr h) = elim (Bool-cases (leb (length b) max_record)) [
    | inl m ↦ leb→le (length b) max_record m
    | inr m ↦ ground arith
  ]
