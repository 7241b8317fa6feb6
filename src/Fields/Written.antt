-- ===== src/Fields/Written.antt =====
-- What encode of the codec of lib/fields.js writes: an entry for each field that has a value, then
-- those that it keeps.
use mathlib.Core.List.{append-nil}
use hypergraph.Prelude.{
  none_not, some_inj, ℕ, suc, ◌≡◌, ◌<◌, refl, sym, ap, ◌∙◌, subst, true, false, Option, some, List,
  [], ◌∷◌, ◌++◌, String, length, get_text, Bool-cases, Option-cases, inl, inr,
}
use hypergraph.Encodings.Codec.{Bytes, both}
use hypergraph.Encodings.RoundTrip.{IsWire, both-some}
use hypergraph.Types.{Named}
use hypergraph.Types.Validate.{Js}
use hypergraph.Fields.Kinds.{Codecs, FieldKind, FieldList, Links}
use hypergraph.Fields.Codec.{encode_field, encode_from, entry, uints, or_undefined, is_missing}
use hypergraph.Fields.Entries.{IsLocal, Entry, IsEntry, uints-IsEntry}

abbrev Output : Type 0
Output = Option (Bytes × Links)

module _ (c : Codecs) (values : Named Js) where
  -- The entries of fields from a number on, with the links before and after them.
  pub data Written : ℕ → FieldList → Links → Bytes → List Entry → Links → Type 0 where
    end : {n : ℕ} {links : Links} → Written n [] links [] [] links
    skip :
        {n : ℕ} {name : String} {kind : FieldKind} {fields : FieldList} {links last : Links}
        {b : Bytes} {es : List Entry}
        → is_missing c (or_undefined c (get_text values name)) ≡ true
        → Written (suc n) fields links b es last
        → Written n ((name, kind) ∷ fields) links b es last
    put :
        {n : ℕ} {name : String} {kind : FieldKind} {fields : FieldList} {links next last : Links}
        {b : Bytes} {es : List Entry} (value raw : Bytes)
        → is_missing c (or_undefined c (get_text values name)) ≡ false
        → encode_field c kind (or_undefined c (get_text values name)) links ≡ some (value, next)
        → IsEntry c (n, value, raw)
        → Written (suc n) fields next b es last
        → Written n ((name, kind) ∷ fields) links (raw ++ b) ((n, value, raw) ∷ es) last

module _ (c : Codecs) (local : IsLocal c.wire.uint) (laws : IsWire c.wire) where
  uint_filled : (n : ℕ) (a : Bytes) → c.wire.uint.enc n ≡ some a → 0 < length a
  uint_filled n a h =
      let (own, e, filled, again) = local (a ++ []) [] n (laws.uint n a [] h) in
      let same : a ≡ own = sym (append-nil a) ∙ e ∙ append-nil own in
      subst (λ x. 0 < length x) (sym same) filled

  head-read :
      (n : ℕ) (value head : Bytes)
      → uints c n (length value) ≡ some head
      → IsEntry c (n, value, head ++ value)
  head-read n value head h =
      let (a, d, ea, ed, e) =
        both-some (c.wire.uint.enc n) (c.wire.uint.enc (length value)) head h in
      subst (λ x. IsEntry c (n, value, x ++ value)) (sym e)
        (uints-IsEntry c a d value n (λ more. laws.uint n a more ea)
          (λ more. laws.uint (length value) d more ed) (uint_filled n a ea))

  -- An entry as encode writes it reads back.
  entry-read :
      (n : ℕ) (value : Bytes) (links : Links) (o : Bytes × Links)
      → entry c n (some (value, links)) ≡ some o
      → IsEntry c (n, value, o.0) × (o.1 ≡ links)
  entry-read n value links o h =
      elim (Option-cases (both (uints c n (length value)) (some value))) [
        | inl k ↦ absurd (none_not o (rw k at h))
        | inr (x, k) ↦
            let (head, v, eh, ev, e) = both-some (uints c n (length value)) (some value) x k in
            let same : v ≡ value = sym (some_inj value v ev) in
            let raw : x ≡ head ++ value = e ∙ ap (λ y. head ++ y) same in
            subst (λ p. IsEntry c (n, value, p.0) × (p.1 ≡ links))
              (some_inj (x, links) o (rw k at h))
              (subst (λ y. IsEntry c (n, value, y)) (sym raw) (head-read n value head eh), refl)
      ]

  abbrev pub HasWritten : ℕ → FieldList → Named Js → Links → Bytes × Links → Type 0
  HasWritten n fields values links o =
      (es : List Entry) × Written c values n fields links o.0 es o.1

  pub encode_from-Written :
      (n : ℕ) (fields : FieldList) (values : Named Js) (links : Links) (o : Bytes × Links)
      → encode_from c n fields values links ≡ some o
      → HasWritten n fields values links o
  unfolding encode_from
  encode_from-Written n [] values links o h =
      subst (HasWritten n [] values links) (some_inj ([], links) o h) ([], Written.end)
  encode_from-Written n ((name, kind) ∷ fields) values links o h =
      let v = or_undefined c (get_text values name) in
      elim (Bool-cases (is_missing c v)) [
        | inl m ↦
            let (es, w) =
              encode_from-Written (suc n) fields values links o (rw (encode_from, m) at h) in
            (es, Written.skip m w)
        | inr m ↦ elim (Option-cases (encode_field c kind v links)) [
          | inl k ↦ absurd (none_not o (rw (encode_from, m, k) at h))
          | inr ((value, next), k) ↦ elim (Option-cases (entry c n (some (value, next)))) [
            | inl j ↦ absurd (none_not o (rw (encode_from, m, k, j) at h))
            | inr ((raw, same), j) ↦
                elim (Option-cases (encode_from c (suc n) fields values same)) [
                  | inl i ↦ absurd (none_not o (rw (encode_from, m, k, j, i) at h))
                  | inr ((b, last), i) ↦
                      let (es, w) = encode_from-Written (suc n) fields values same (b, last) i in
                      let (read, e) = entry-read n value next (raw, same) j in
                      subst (HasWritten n ((name, kind) ∷ fields) values links)
                        (some_inj (raw ++ b, last) o (rw (encode_from, m, k, j, i) at h))
                        (
                          (n, value, raw) ∷ es,
                          Written.put value raw m k read
                              (subst (λ l. Written c values (suc n) fields l b es last) e w),
                        )
                ]
          ]
        ]
      ]
