-- ===== src/Fields/Reading.antt =====
-- The loop of decode of the codec of lib/fields.js, over what encode writes.
use mathlib.Core.List.{append_assoc}
use hypergraph.Prelude.{
  ℕ, zero, suc, ◌≡◌, ◌≤◌, ◌<◌, refl, sym, ap, ◌∙◌, subst, true, false, none, some, List, [], ◌∷◌,
  ◌++◌, String, str_eq, if◌then◌else◌, all, length, get_text, arith, length-append, Bool-cases,
  Option-cases, inl, inr, &&-true,
}
use hypergraph.Encodings.Codec.{Bytes}
use hypergraph.Types.{Named}
use hypergraph.Types.Validate.{Js}
use hypergraph.Fields.Kinds.{Codecs, FieldKind, FieldList, Links, by_number, decode_value}
use hypergraph.Fields.Codec.{
  assign_field, next_entry, decode_from, nulls, or_undefined, is_missing, concat,
}
use hypergraph.Fields.Entries.{Entry, IsEntry, Entries, done, more, unknown_in}
use hypergraph.Fields.Written.{Written, end, skip, put}
use hypergraph.Fields.Kept.{by_number-here, push, count, Written-Grows}
use hypergraph.Fields.Values.{IsCodecs, read_back, is_short, field-read}
use hypergraph.Fields.Names.{AllFresh, Distinct, fresh_after, has_name, put_text-fresh}

module _ (c : Codecs) (values : Named Js) where
  -- What a field reads as: null where it has no value.
  abbrev pub field_value : String × FieldKind → Js
  field_value (name, kind) =
      let v = or_undefined c (get_text values name) in
      if is_missing c v then Js.null else read_back c kind v

  -- What a reader makes of the values that a writer wrote, the fields of each: null for those that
  -- the writer does not declare, and nothing of those that the reader does not.
  abbrev pub read_as : FieldList → FieldList → Named Js
  read_as [] hs = nulls c hs
  read_as (f ∷ fs) [] = []
  read_as (f ∷ fs) ((name, kind) ∷ hs) = (name, field_value f) ∷ read_as fs hs

-- One list of fields goes on from the other.
abbrev pub Shares : FieldList → FieldList → Type 0
Shares [] hs = Unit
Shares (f ∷ fs) [] = Unit
Shares (f ∷ fs) (g ∷ hs) = (f ≡ g) × Shares fs hs

pub by_number-beyond : (fields : FieldList) (n : ℕ) → length fields < n → by_number fields n ≡ none
by_number-beyond [] n h = refl
by_number-beyond (f ∷ fields) zero h = refl
by_number-beyond (f ∷ fields) (suc zero) h = absurd (omega arith)
by_number-beyond (f ∷ fields) (suc (suc n)) h = by_number-beyond fields (suc n) (omega arith)

module _ (c : Codecs) (gs : FieldList) (links : Links) where
  -- The loop reads these bytes, and gives this, with rounds enough.
  abbrev pub ReadsTo : Bytes → Named Js → Named Js → Type 0
  ReadsTo b out result =
      (fuel : ℕ) → length b ≤ fuel → decode_from c fuel gs links b out ≡ some result

  decode_next :
      (fuel : ℕ) (b value raw rest : Bytes) (n : ℕ) (out next : Named Js)
      → 0 < length b
      → next_entry c b ≡ some (n, value, raw, rest)
      → assign_field c (by_number gs n) value links out ≡ some next
      → decode_from c (suc fuel) gs links b out ≡ decode_from c fuel gs links rest next
  unfolding decode_from
  decode_next fuel [] value raw rest n out next p h a = absurd (omega arith)
  decode_next fuel (x ∷ b) value raw rest n out next p h a = rw (decode_from, h) (rw a refl)

  decode_step :
      (e : Entry) (rest : Bytes) (out next result : Named Js)
      → IsEntry c e
      → assign_field c (by_number gs e.0) e.1 links out ≡ some next
      → ReadsTo rest next result
      → ReadsTo (e.2 ++ rest) out result
  decode_step e rest out next result i a r zero h =
      absurd (omega (arith, i.is_filled, length-append e.2 rest))
  decode_step e rest out next result i a r (suc fuel) h =
      decode_next fuel (e.2 ++ rest) e.1 e.2 rest e.0 out next
        (omega (arith, i.is_filled, length-append e.2 rest)) (i.reads rest) a
      ∙ r fuel (omega (arith, i.is_filled, length-append e.2 rest))

  pub reads_end : (out : Named Js) → ReadsTo [] out out
  unfolding decode_from
  reads_end out fuel h = refl

  -- The entries kept, whose fields are not declared, are passed over.
  pub unknown_in-ReadsTo :
      (b : Bytes) (es : List Entry) (out : Named Js)
      → Entries c b es
      → ReadsTo (concat c (unknown_in c gs es)) out out
  unknown_in-ReadsTo b es out done = reads_end out
  unknown_in-ReadsTo b es out (more {b = rest} {es = es'} e i p) =
      let later = unknown_in-ReadsTo rest es' out p in
      elim (Option-cases (by_number gs e.0)) [
        | inr (f, k) ↦ rw k later
        | inl k ↦
            let here : assign_field c (by_number gs e.0) e.1 links out ≡ some out = rw k refl in
            rw k (decode_step e (concat c (unknown_in c gs es')) out out out i here later)
      ]

  -- The fields that a later version of the type added are passed over.
  Written-beyond :
      {values : Named Js} {n : ℕ} {fs : FieldList} {before last : Links} {b : Bytes}
      {es : List Entry} (tail : Bytes) (out result : Named Js)
      → length gs < n
      → Written c values n fs before b es last
      → ReadsTo tail out result
      → ReadsTo (b ++ tail) out result
  Written-beyond tail out result l end r = r
  Written-beyond tail out result l (skip m w) r = Written-beyond tail out result (omega arith) w r
  Written-beyond {n = n} tail out result l (put {b = rest} value raw m k i w) r =
      subst (λ x. ReadsTo x out result) (sym (append_assoc raw rest tail))
        (decode_step (n, value, raw) (rest ++ tail) out out result i
          (rw (by_number-beyond gs n l) refl) (Written-beyond tail out result (omega arith) w r))

  assigned :
      (name : String) (kind : FieldKind) (g : String × FieldKind) (n : ℕ) (value : Bytes) (v w : Js)
      (out rest : Named Js)
      → (name, kind) ≡ g
      → by_number gs n ≡ some g
      → has_name g.0 out ≡ false
      → decode_value c kind value links ≡ some w
      → assign_field c (by_number gs n) value links (out ++ ((g.0, v) ∷ rest))
        ≡ some (out ++ ((g.0, w) ∷ rest))
  assigned name kind (n', k') n value v w out rest e k f d =
      let here : decode_value c k' value links ≡ some w =
        subst (λ (h : String × FieldKind). decode_value c h.1 value links ≡ some w) e d in
      rw (k, assign_field, here) (ap some (put_text-fresh out rest n' v w f))

get_text-short :
    (values : Named Js) (name : String)
    → all (λ e. is_short e.1) values ≡ true
    → (c : Codecs) → is_short (or_undefined c (get_text values name)) ≡ true
unfolding get_text
get_text-short [] name h c = refl
get_text-short ((n, v) ∷ values) name h c =
    let (x, y) = &&-true (is_short v) (all (λ e. is_short e.1) values) h in
    elim (Bool-cases (str_eq n name)) [
      | inl k ↦ rw k x
      | inr k ↦ rw k (get_text-short values name y c)
    ]

module _ (c : Codecs) (laws : IsCodecs c) (values : Named Js)
    (short : all (λ e. is_short e.1) values ≡ true) (gs : FieldList) (links : Links) (tail : Bytes)
    (result : Named Js) where
  -- A field after those read, as the last of them.
  this_field :
      (out : Named Js) (name : String) (v : Js) (rest : Named Js) (b : Bytes)
      → ReadsTo c gs links b (out ++ ((name, v) ∷ rest)) result
      → ReadsTo c gs links b ((out ++ ((name, v) ∷ [])) ++ rest) result
  this_field out name v rest b =
      subst (λ o. ReadsTo c gs links b o result) (sym (append_assoc out ((name, v) ∷ []) rest))

  next_field :
      (out : Named Js) (name : String) (v : Js) (rest : Named Js) (b : Bytes)
      → ReadsTo c gs links b ((out ++ ((name, v) ∷ [])) ++ rest) result
      → ReadsTo c gs links b (out ++ ((name, v) ∷ rest)) result
  next_field out name v rest b =
      subst (λ o. ReadsTo c gs links b o result) (append_assoc out ((name, v) ∷ []) rest)

  -- What was written of fields reads as it should, after the fields before them.
  pub Written-ReadsTo :
      (n : ℕ) (pre fs hs : FieldList) (out : Named Js) (before last later : Links) (b : Bytes)
      (es : List Entry)
      → gs ≡ pre ++ hs
      → n ≡ suc (length pre)
      → Shares fs hs
      → AllFresh out hs
      → Distinct hs
      → links ≡ last ++ later
      → Written c values n fs before b es last
      → ReadsTo c gs links tail (out ++ read_as c values fs hs) result
      → ReadsTo c gs links (b ++ tail) (out ++ nulls c hs) result
  Written-ReadsTo n pre [] hs out before last later b es g l s f d k end r = r
  Written-ReadsTo n pre (x ∷ fs) [] out before last later b es g l s f d k w r =
      Written-beyond c gs links tail (out ++ []) result
        (omega (arith, ap length g, length-append pre [])) w r
  Written-ReadsTo n pre ((name, kind) ∷ fs) ((hn, hk) ∷ hs) out before last later b es g l s f d k
        (skip m w) r =
      let read = read_as c values fs hs in
      let null : field_value c values (name, kind) ≡ Js.null = rw m refl in
      next_field out hn Js.null (nulls c hs) (b ++ tail) (
        Written-ReadsTo (suc n) (pre ++ ((hn, hk) ∷ [])) fs hs (out ++ ((hn, Js.null) ∷ [])) before
          last later b es (push pre hs (hn, hk) gs g) (count pre (hn, hk) n l) s.1
          (fresh_after out (hn, hk) Js.null hs f.1 d.0) d.1 k w
          (this_field out hn Js.null read tail
            (subst (λ x. ReadsTo c gs links tail (out ++ ((hn, x) ∷ read)) result) null r)))
  Written-ReadsTo n pre ((name, kind) ∷ fs) ((hn, hk) ∷ hs) out before last later b es g l s f d k
        (put {next = next} {b = rest} {es = es'} value raw m e i w) r =
      let v = or_undefined c (get_text values name) in
      let back = read_back c kind v in
      let read = read_as c values fs hs in
      let there : field_value c values (name, kind) ≡ back = rw m refl in
      let (added, grown) = Written-Grows c w in
      let all_links : next ++ (added ++ later) ≡ links =
        sym (k ∙ ap (λ x. x ++ later) grown ∙ append_assoc next added later) in
      let decoded : decode_value c kind value links ≡ some back =
        subst (λ x. decode_value c kind value x ≡ some back) all_links
          (field-read c laws kind v before next (added ++ later) value
            (get_text-short values name short c) e) in
      let here : by_number gs n ≡ some (hn, hk) = rw (g, l) (by_number-here pre hs (hn, hk)) in
      subst (λ x. ReadsTo c gs links x (out ++ ((hn, Js.null) ∷ nulls c hs)) result)
        (sym (append_assoc raw rest tail))
        (decode_step c gs links (n, value, raw) (rest ++ tail) (out ++ ((hn, Js.null) ∷ nulls c hs))
          (out ++ ((hn, back) ∷ nulls c hs)) result i
          (assigned c gs links name kind (hn, hk) n value Js.null back out (nulls c hs) s.0 here f.0
            decoded)
          (next_field out hn back (nulls c hs) (rest ++ tail) (
            Written-ReadsTo (suc n) (pre ++ ((hn, hk) ∷ [])) fs hs (out ++ ((hn, back) ∷ [])) next
              last later rest es' (push pre hs (hn, hk) gs g) (count pre (hn, hk) n l) s.1
              (fresh_after out (hn, hk) back hs f.1 d.0) d.1 k w
              (this_field out hn back read tail
                (subst (λ x. ReadsTo c gs links tail (out ++ ((hn, x) ∷ read)) result) there r)))))
