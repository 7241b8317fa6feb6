-- ===== src/Encodings/Header.antt =====
-- The header of a device log and the summary message of lib/encodings.js: each has a last field that
-- older versions did not write.
use mathlib.Core.List.{append-nil}
use hypergraph.Prelude.{ℕ, ◌≡◌, ap, ◌∙◌, Option, none, some, [], ◌∷◌, ◌++◌, arith}
use hypergraph.Encodings.Codec.{
  Bytes, Object, uint, fixed32, buffer, Fields, no_more, has, Wire, both, encode_fields,
  decode_fields, norm, norm_fields, Value, null, num, bytes, field, end,
}
use hypergraph.Encodings.RoundTrip.{IsWire, ShortFields, both-some, decode_fields-encode_fields}

abbrev pub header_fields : Fields
header_fields =
    has "version" uint (has "space" fixed32 (has "decisions" fixed32 (has "proof" buffer no_more)))

abbrev pub summary_fields : Fields
summary_fields = has "count" uint (has "digest" fixed32 no_more)

abbrev pub log_header : ℕ → Bytes → Bytes → Value → Object
log_header version space decisions proof =
    field "version" (num version)
      (field "space" (bytes space) (field "decisions" (bytes decisions) (field "proof" proof end)))

-- c.buffer reads no bytes as null.
abbrev pub bytes_or_null : Bytes → Value
bytes_or_null [] = null
bytes_or_null (b ∷ bs) = bytes (b ∷ bs)

module _ (w : Wire) where
  abbrev pub enc_admitted : Option Bytes → Option Bytes
  enc_admitted none = some []
  enc_admitted (some code) = w.fixed32.enc code

  unfoldable pub encode_header : Object → Option Bytes → Option Bytes
  encode_header h admitted = both (encode_fields w header_fields h) (enc_admitted admitted)

  abbrev pub as_code : Object → Option (Bytes × Bytes) → Option (Object × Option Bytes)
  as_code h none = none
  as_code h (some (code, rest)) = some (h, some code)

  -- state.start < state.end: is there a code?
  abbrev pub read_admitted : Option (Object × Bytes) → Option (Object × Option Bytes)
  read_admitted none = none
  read_admitted (some (h, [])) = some (h, none)
  read_admitted (some (h, b ∷ bs)) = as_code h (w.fixed32.dec (b ∷ bs))

  unfoldable pub decode_header : Bytes → Option (Object × Option Bytes)
  decode_header bs = read_admitted (decode_fields w header_fields bs)

  unfoldable pub encode_summary : Object → ℕ → Option Bytes
  encode_summary m records = both (encode_fields w summary_fields m) (w.uint.enc records)

  abbrev pub as_records : Object → Option (ℕ × Bytes) → Option (Object × ℕ)
  as_records m none = none
  as_records m (some (records, rest)) = some (m, records)

  abbrev pub read_records : Option (Object × Bytes) → Option (Object × ℕ)
  read_records none = none
  read_records (some (m, [])) = some (m, 0)
  read_records (some (m, b ∷ bs)) = as_records m (w.uint.dec (b ∷ bs))

  unfoldable pub decode_summary : Bytes → Option (Object × ℕ)
  decode_summary bs = read_records (decode_fields w summary_fields bs)

module _ (w : Wire) (laws : IsWire w) where
  code_read :
      (h : Object) (code x : Bytes)
      → w.fixed32.enc code ≡ some x
      → read_admitted w (some (h, x)) ≡ some (h, some code)
  code_read h code [] e = absurd (omega (arith, laws.thirty_two code [] e))
  code_read h code (b ∷ bs) e =
      ap (λ l. as_code w h (w.fixed32.dec l)) (append_none (b ∷ bs))
      ∙ ap (as_code w h) (laws.fixed32 code (b ∷ bs) [] e)
    where
      append_none : (l : Bytes) → l ≡ l ++ []
      append_none l = ground (arith, append-nil l)

  pub decode_header-encode_header :
      (h : Object) (admitted : Option Bytes) (b : Bytes)
      → ShortFields h
      → encode_header w h admitted ≡ some b
      → decode_header w b ≡ some (norm_fields header_fields h, admitted)
  unfolding encode_header decode_header
  decode_header-encode_header h none b s e =
      let (p, q, f, g, eq) = both-some (encode_fields w header_fields h) (some []) b e in
      let empty : q ≡ [] = ground arith in
      ap (λ l. read_admitted w (decode_fields w header_fields l)) eq
      ∙ ap (read_admitted w) (decode_fields-encode_fields w laws header_fields h p q s f)
      ∙ ap (λ l. read_admitted w (some (norm_fields header_fields h, l))) empty
  decode_header-encode_header h (some code) b s e =
      let (p, q, f, g, eq) = both-some (encode_fields w header_fields h) (w.fixed32.enc code) b e in
      ap (λ l. read_admitted w (decode_fields w header_fields l)) eq
      ∙ ap (read_admitted w) (decode_fields-encode_fields w laws header_fields h p q s f)
      ∙ code_read (norm_fields header_fields h) code q g

  -- Over codecs that keep what compact-encoding documents, a log header that could be encoded, of
  -- a version, a space, a decision log and a proof, decodes to the same four, an empty proof as
  -- null, with its admission code if it has one and none if it has not.
  pub header_roundtrip :
      (version : ℕ) (space decisions proof : Bytes) (admitted : Option Bytes) (b : Bytes)
      → encode_header w (log_header version space decisions (bytes proof)) admitted ≡ some b
      → decode_header w b
        ≡ some (log_header version space decisions (bytes_or_null proof), admitted)
  unfolding norm_fields norm
  header_roundtrip version space decisions [] admitted b e =
      decode_header-encode_header (log_header version space decisions (bytes [])) admitted b
        (tt, (tt, (tt, (tt, tt)))) e
  header_roundtrip version space decisions (x ∷ proof) admitted b e =
      decode_header-encode_header (log_header version space decisions (bytes (x ∷ proof))) admitted
        b (tt, (tt, (tt, (tt, tt)))) e
