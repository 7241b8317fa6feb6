-- ===== src/Fields/Values.antt =====
-- A value that the codec of lib/fields.js writes, read back.
use mathlib.Core.List.{append-nil}
use hypergraph.Prelude.{
  ℕ, zero, suc, ◌≡◌, ◌≤◌, refl, sym, ap, ◌∙◌, subst, Bool, true, false, not, ◌&&◌, Option, none,
  some, List, [], ◌∷◌, ◌++◌, String, ◌==◌, length, leb, leb→le, Bool-cases, inl, inr, if◌then◌else◌,
}
use hypergraph.Encodings.Codec.{Bytes, Plain, Values, norm, map_values}
use hypergraph.Encodings.Codec
use hypergraph.Encodings.RoundTrip.{IsWire, Reads, max_items, AllShort, decode-encode}
use hypergraph.Encodings.RoundTrip
use hypergraph.Encodings.Ids.{id_from_string}
use hypergraph.Types.Validate.{Js, size, size_or_zero}
use hypergraph.Fields.Ref.{
  ref_codec, ref_object, values_of, texts_of, encode_ref, decode_ref, of_object, with_src,
}
use hypergraph.Fields.Kinds.{
  Codecs, FieldKind, string, int, uint, float, bool, bytes, ref, space, link, Links, link_at,
  add_link, linked, follow, key_text, to_key, encode_key, encode_uint, encode_float, encode_value,
  decode_value, as_int, first,
}
use hypergraph.Fields.Codec.{encode_link, encode_field, with_links}
use hypergraph.Fields.Entries.{IsLocal}
use hypergraph.Fields.Kept.{link_at-append, link_at-add_link}

-- The integers that c.int keeps: it counts 2n - 1 for -n and 2n for n, in doubles.
abbrev pub is_exact : Bool × ℕ → Bool
is_exact (true, n) = leb n 4503599627370496
is_exact (false, n) = leb n 9007199254740991

abbrev or_else : Bool × ℕ → Option ((Bool × ℕ) × Bytes) → Bool × ℕ
or_else p none = p
or_else p (some (q, rest)) = q

abbrev of_bytes : Codecs → Bool × ℕ → Option Bytes → Bool × ℕ
of_bytes c p none = p
of_bytes c p (some b) = or_else p (c.int.dec b)

-- What c.int reads of what it wrote for an integer.
abbrev pub int_back : Codecs → Bool × ℕ → Bool × ℕ
int_back c p = of_bytes c p (c.int.enc p)

-- What compact-encoding documents: c.int writes -0 as 0, and need not keep an integer below -2^52.
pub record IsCodecs (c : Codecs) : Type 0 where
  pub wire : IsWire c.wire
  pub local : IsLocal c.wire.uint
  pub int : Reads c.int (int_back c)
  pub exact :
      (p : Bool × ℕ) (b rest : Bytes)
      → is_exact p ≡ true
      → c.int.enc p ≡ some b
      → c.int.dec (b ++ rest) ≡ some ((p.0 && not (p.1 == 0), p.1), rest)
  pub float : Reads c.float (λ v. v)

abbrev or_null : Option Js → Js
or_null none = Js.null
or_null (some v) = v

abbrev int_as_js : Bool × ℕ → Js
int_as_js (negative, n) = Js.integer negative n

-- What a value reads back as: an integer without the sign of -0, or below -2^52 as c.int gives it back,
-- a reference with its size, a key and an id as z32 writes them, and any other value as it is.
abbrev pub read_back : Codecs → FieldKind → Js → Js
read_back c int (Js.integer negative n) =
    if is_exact (negative, n)
    then Js.integer (negative && not (n == 0)) n
    else int_as_js (int_back c (negative, n))
read_back c uint (Js.integer negative n) = Js.integer false n
read_back c ref (Js.ref src n type digest mutable) =
    Js.ref src (size (size_or_zero n)) type digest mutable
read_back c space (Js.text s) = or_null (key_text c (to_key c (c.decode s)))
read_back c link (Js.text s) = or_null (linked c (id_from_string c.texts s))
read_back c _ v = v

-- No reference has more addresses than compact-encoding reads.
abbrev pub is_short : Js → Bool
is_short (Js.ref src n type digest mutable) = leb (length src) max_items
is_short _ = true

pub Reads-all :
    {A : Type 0} (p : Plain A) (f : A → A) (a : A) (b : Bytes)
    → Reads p f
    → p.enc a ≡ some b
    → p.dec b ≡ some (f a, [])
Reads-all p f a b r h = subst (λ x. p.dec x ≡ some (f a, [])) (append-nil b) (r a b [] h)

texts_of-values_of :
    (src : List String) → texts_of (map_values (norm Codec.string) (values_of src)) ≡ some src
unfolding norm
texts_of-values_of [] = refl
texts_of-values_of (s ∷ src) = rw (texts_of-values_of src) refl

short_texts :
    (src : List String) → (RoundTrip.count (values_of src) ≡ length src) × AllShort (values_of src)
short_texts [] = (refl, tt)
short_texts (s ∷ src) = (ap suc (short_texts src).0, (tt, (short_texts src).1))

ref-read :
    (c : Codecs) (laws : IsCodecs c) (src : List String) (n : ℕ) (type digest : String)
    (mutable : Bool) (b : Bytes)
    → leb (length src) max_items ≡ true
    → encode_ref c.wire (src, n, type, digest, mutable) ≡ some b
    → decode_ref c.wire b ≡ some (src, n, type, digest, mutable)
unfolding encode_ref decode_ref norm
ref-read c laws src n type digest mutable b m h =
    let few : RoundTrip.count (values_of src) ≤ max_items =
      subst (λ k. k ≤ max_items) (sym (short_texts src).0) (leb→le (length src) max_items m) in
    let read =
      decode-encode c.wire laws.wire ref_codec (ref_object (src, n, type, digest, mutable)) b []
        ((few, (short_texts src).1), (tt, (tt, (tt, (tt, tt))))) h in
    ap of_object (
      subst
        (λ x.
          Codec.decode c.wire ref_codec x
          ≡ some (norm ref_codec (ref_object (src, n, type, digest, mutable)), []))
        (append-nil b) read)
    ∙ ap (λ o. with_src n type digest mutable o) (texts_of-values_of src)

module _ (c : Codecs) (laws : IsCodecs c) where
  plain-enc :
      (links next : Links) (o : Option Bytes) (value : Bytes)
      → with_links c links o ≡ some (value, next)
      → o ≡ some value
  plain-enc links next none value h = cc
  plain-enc links next (some b) value h = cc

  uint-read :
      (negative : Bool) (n : ℕ) (b : Bytes)
      → encode_uint c negative n ≡ some b
      → c.wire.uint.dec b ≡ some (n, [])
  uint-read true zero b h = Reads-all c.wire.uint (λ m. m) zero b laws.wire.uint h
  uint-read true (suc n) b h = cc
  uint-read false n b h = Reads-all c.wire.uint (λ m. m) n b laws.wire.uint h

  float-read : (v : Js) (b : Bytes) → encode_float c v ≡ some b → first (c.float.dec b) ≡ some v
  float-read (Js.integer negative n) b h =
      ap first (Reads-all c.float (λ w. w) (Js.integer negative n) b laws.float h)
  float-read (Js.number s) b h = ap first (Reads-all c.float (λ w. w) (Js.number s) b laws.float h)
  float-read _ b h = cc

  key-read :
      (o : Option Bytes) (b : Bytes)
      → encode_key c (to_key c o) ≡ some b
      → key_text c (first (c.wire.fixed32.dec b)) ≡ some (or_null (key_text c (to_key c o)))
  key-read o b h = by_key (to_key c o) h
    where
      by_key :
          (k : Option Bytes)
          → encode_key c k ≡ some b
          → key_text c (first (c.wire.fixed32.dec b)) ≡ some (or_null (key_text c k))
      by_key none h = cc
      by_key (some k) h =
          ap (λ r. key_text c (first r)) (Reads-all c.wire.fixed32 (λ x. x) k b laws.wire.fixed32 h)

  int-read :
      (negative : Bool) (n : ℕ) (b : Bytes)
      → c.int.enc (negative, n) ≡ some b
      → as_int (first (c.int.dec b)) ≡ some (read_back c int (Js.integer negative n))
  int-read negative n b h = elim (Bool-cases (is_exact (negative, n))) [
    | inl exact ↦ rw exact (
        ap (λ r. as_int (first r))
          (subst (λ x. c.int.dec x ≡ some ((negative && not (n == 0), n), [])) (append-nil b)
            (laws.exact (negative, n) b [] exact h)))
    | inr far ↦ rw far (
        ap (λ r. as_int (first r)) (Reads-all c.int (int_back c) (negative, n) b laws.int h)
        ∙ as_int_js (int_back c (negative, n)))
  ]
    where
      as_int_js : (p : Bool × ℕ) → as_int (some p) ≡ some (int_as_js p)
      as_int_js (s, m) = refl

  -- Of a kind but a link.
  value-read :
      (kind : FieldKind) (v : Js) (b : Bytes) (links : Links)
      → is_short v ≡ true
      → encode_value c kind v ≡ some b
      → decode_value c kind b links ≡ some (read_back c kind v)
  unfolding encode_value decode_value
  value-read string (Js.text s) b links m h =
      rw (Reads-all c.wire.string (λ x. x) s b laws.wire.string h) refl
  value-read int (Js.integer negative n) b links m h = int-read negative n b h
  value-read uint (Js.integer negative n) b links m h = rw (uint-read negative n b h) refl
  value-read float v b links m h = float-read v b h
  value-read bool (Js.flag f) b links m h =
      rw (Reads-all c.wire.boolean (λ x. x) f b laws.wire.boolean h) refl
  value-read bytes (Js.bytes x) b links m h = rw (laws.wire.raw x b h) refl
  value-read ref (Js.ref src n type digest mutable) b links m h =
      rw (ref-read c laws src (size_or_zero n) type digest mutable b m h) refl
  value-read space (Js.text s) b links m h = key-read (c.decode s) b h
  value-read _ _ b links m h = cc

  link-read :
      (o : Option Bytes) (links next later : Links) (b : Bytes)
      → encode_link c o links ≡ some (b, next)
      → follow c (next ++ later) (first (c.wire.uint.dec b)) ≡ some (or_null (linked c o))
  link-read none links next later b h = cc
  link-read (some id) links next later b h =
      let (at, all) = add_link id links in
      let written : c.wire.uint.enc at ≡ some b = plain-enc all next (c.wire.uint.enc at) b h in
      let same : next ≡ all = links_same all next (c.wire.uint.enc at) b h in
      let stands : link_at (next ++ later) at ≡ some id =
        link_at-append next later at id
          (subst (λ l. link_at l at ≡ some id) (sym same) (link_at-add_link id links)) in
      rw (Reads-all c.wire.uint (λ x. x) at b laws.wire.uint written, stands) refl
    where
      links_same :
          (links next : Links) (o : Option Bytes) (b : Bytes)
          → with_links c links o ≡ some (b, next)
          → next ≡ links
      links_same links next none b h = cc
      links_same links next (some x) b h = cc

  -- A value that is written reads back, from the links as they are at the end.
  pub field-read :
      (kind : FieldKind) (v : Js) (links next later : Links) (b : Bytes)
      → is_short v ≡ true
      → encode_field c kind v links ≡ some (b, next)
      → decode_value c kind b (next ++ later) ≡ some (read_back c kind v)
  unfolding encode_field decode_value
  field-read link (Js.text s) links next later b m h =
      link-read (id_from_string c.texts s) links next later b h
  field-read string v links next later b m h =
      value-read string v b (next ++ later) m (plain-enc links next _ b h)
  field-read int v links next later b m h =
      value-read int v b (next ++ later) m (plain-enc links next _ b h)
  field-read uint v links next later b m h =
      value-read uint v b (next ++ later) m (plain-enc links next _ b h)
  field-read float v links next later b m h =
      value-read float v b (next ++ later) m (plain-enc links next _ b h)
  field-read bool v links next later b m h =
      value-read bool v b (next ++ later) m (plain-enc links next _ b h)
  field-read bytes v links next later b m h =
      value-read bytes v b (next ++ later) m (plain-enc links next _ b h)
  field-read ref v links next later b m h =
      value-read ref v b (next ++ later) m (plain-enc links next _ b h)
  field-read space v links next later b m h =
      value-read space v b (next ++ later) m (plain-enc links next _ b h)
  field-read link _ links next later b m h = cc
