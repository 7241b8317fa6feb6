-- ===== src/Fields/Kept.antt =====
-- What an edit by an app of another version keeps (encode of the codec of lib/fields.js).
use mathlib.Core.List.{append_assoc, append-nil}
use hypergraph.Prelude.{
  ◌≢◌, if◌then◌else◌, ℕ, zero, suc, ◌≡◌, refl, sym, ap, ◌∙◌, subst, Option, none, some, List, [],
  ◌∷◌, ◌++◌, String, if◌then◌else◌, length, is_some, arith, length-append, Bool-cases, Option-cases,
  inl, inr,
}
use hypergraph.Encodings.Codec.{Bytes}
use hypergraph.Types.{Named}
use hypergraph.Types.Validate.{Js}
use hypergraph.Fields.Kinds.{
  Codecs, FieldKind, string, int, uint, float, bool, bytes, ref, space, link, FieldList, Links,
  by_number, link_at, index_in, add_link,
}
use hypergraph.Fields.Codec.{link_id, encode_link, encode_field, with_links, concat}
use hypergraph.Fields.Entries.{Entry, Entries, done, more, unknown_in}
use hypergraph.Fields.Written.{Written, end, skip, put}
use hypergraph.Encodings.Bytes.{eq_bytes, eq_bytes_path}

pub by_number-here :
    (pre fields : FieldList) (f : String × FieldKind)
    → by_number (pre ++ (f ∷ fields)) (suc (length pre)) ≡ some f
by_number-here [] fields f = refl
by_number-here (g ∷ pre) fields f = by_number-here pre fields f

-- The fields before and after, one field further on.
pub push :
    (pre fields : FieldList) (f : String × FieldKind) (all : FieldList)
    → all ≡ pre ++ (f ∷ fields)
    → all ≡ (pre ++ (f ∷ [])) ++ fields
push pre fields f all e = e ∙ sym (append_assoc pre (f ∷ []) fields)

pub count :
    (pre : FieldList) (f : String × FieldKind) (n : ℕ)
    → n ≡ suc (length pre)
    → suc n ≡ suc (length (pre ++ (f ∷ [])))
count pre f n e = omega (arith, length-append pre (f ∷ []))

pub link_at-append :
    (links later : Links) (n : ℕ) (id : Bytes)
    → link_at links n ≡ some id
    → link_at (links ++ later) n ≡ some id
link_at-append [] later n id h = cc
link_at-append (l ∷ links) later zero id h = h
link_at-append (l ∷ links) later (suc n) id h = link_at-append links later n id h

module _ (c : Codecs) where
  pub Entries-append :
      (a b : Bytes) (es fs : List Entry)
      → Entries c a es
      → Entries c b fs
      → Entries c (a ++ b) (es ++ fs)
  Entries-append a b es fs done q = q
  Entries-append a b es fs (more {b = rest} {es = es'} e i p) q =
      subst (λ x. Entries c x (e ∷ (es' ++ fs))) (sym (append_assoc e.2 rest b))
        (more e i (Entries-append rest b es' fs p q))

  pub unknown_in-append :
      (fields : FieldList) (es fs : List Entry)
      → unknown_in c fields (es ++ fs) ≡ unknown_in c fields es ++ unknown_in c fields fs
  unknown_in-append fields [] fs = refl
  unknown_in-append fields (e ∷ es) fs = elim (Bool-cases (is_some (by_number fields e.0))) [
    | inl k ↦ rw k (unknown_in-append fields es fs)
    | inr k ↦ rw k (ap (λ l. e.2 ∷ l) (unknown_in-append fields es fs))
  ]

  -- The entries that are kept, and that they are unknown still.
  abbrev pub unknown_entries : FieldList → List Entry → List Entry
  unknown_entries fields [] = []
  unknown_entries fields (e ∷ es) =
      if is_some (by_number fields e.0)
      then unknown_entries fields es
      else e ∷ unknown_entries fields es

  pub unknown_entries-Entries :
      (fields : FieldList) (b : Bytes) (es : List Entry)
      → Entries c b es
      → Entries c (concat c (unknown_in c fields es)) (unknown_entries fields es)
        × (unknown_in c fields (unknown_entries fields es) ≡ unknown_in c fields es)
  unknown_entries-Entries fields b es done = (done, refl)
  unknown_entries-Entries fields b es (more {b = rest} {es = es'} e i p) =
      let (q, same) = unknown_entries-Entries fields rest es' p in
      elim (Bool-cases (is_some (by_number fields e.0))) [
        | inl k ↦ rw k (q, same)
        | inr k ↦ rw k (more e i q, rw k (ap (λ l. e.2 ∷ l) same))
      ]

  module _ (values : Named Js) where
    pub Written-Entries :
        {n : ℕ} {fields : FieldList} {links last : Links} {b : Bytes} {es : List Entry}
        → Written c values n fields links b es last
        → Entries c b es
    Written-Entries end = done
    Written-Entries (skip m w) = Written-Entries w
    Written-Entries (put value raw m k i w) = more _ i (Written-Entries w)

    -- The fields written are known.
    pub Written-known :
        (all pre : FieldList) (n : ℕ) (fields : FieldList) (links last : Links) (b : Bytes)
        (es : List Entry)
        → all ≡ pre ++ fields
        → n ≡ suc (length pre)
        → Written c values n fields links b es last
        → unknown_in c all es ≡ []
    Written-known all pre n fields links last b es a l end = refl
    Written-known all pre n fields links last b es a l
          (skip {name = name} {kind = kind} {fields = later} m w) =
        Written-known all (pre ++ ((name, kind) ∷ [])) (suc n) later links last b es
          (push pre later (name, kind) all a) (count pre (name, kind) n l) w
    Written-known all pre n fields links last b es a l
          (put {name = name} {kind = kind} {fields = later} {next = next} {b = rest} {es = es'}
            value raw m k i w) =
        let known : by_number all n ≡ some (name, kind) =
          rw (a, l) (by_number-here pre later (name, kind)) in
        rw known (
          Written-known all (pre ++ ((name, kind) ∷ [])) (suc n) later next last rest es'
            (push pre later (name, kind) all a) (count pre (name, kind) n l) w)

  abbrev pub Grows : Links → Links → Type 0
  Grows links next = (later : Links) × (next ≡ links ++ later)

  add_link-Grows : (id : Bytes) (links : Links) → Grows links (add_link id links).1
  add_link-Grows id links = elim (Option-cases (index_in id links)) [
    | inl k ↦ (id ∷ [], rw (add_link, k) refl)
    | inr (n, k) ↦ ([], rw (add_link, k) (sym (append-nil links)))
  ]

  with_links-Grows :
      (links next : Links) (o : Option Bytes) (value : Bytes)
      → with_links c next o ≡ some (value, links)
      → links ≡ next
  with_links-Grows links next none value h = cc
  with_links-Grows links next (some b) value h = cc

  plain-Grows :
      (links next : Links) (o : Option Bytes) (value : Bytes)
      → with_links c links o ≡ some (value, next)
      → Grows links next
  plain-Grows links next o value h =
      ([], with_links-Grows next links o value h ∙ sym (append-nil links))

  encode_field-Grows :
      (kind : FieldKind) (v : Js) (links next : Links) (value : Bytes)
      → encode_field c kind v links ≡ some (value, next)
      → Grows links next
  unfolding encode_field
  encode_field-Grows link v links next value h = by_id (link_id c v) h
    where
      by_id : (o : Option Bytes) → encode_link c o links ≡ some (value, next) → Grows links next
      by_id none h = cc
      by_id (some id) h =
          let (later, e) = add_link-Grows id links in
          let s = with_links-Grows next (add_link id links).1 _ value h in (later, s ∙ e)
  encode_field-Grows string v links next value h = plain-Grows links next _ value h
  encode_field-Grows int v links next value h = plain-Grows links next _ value h
  encode_field-Grows uint v links next value h = plain-Grows links next _ value h
  encode_field-Grows float v links next value h = plain-Grows links next _ value h
  encode_field-Grows bool v links next value h = plain-Grows links next _ value h
  encode_field-Grows bytes v links next value h = plain-Grows links next _ value h
  encode_field-Grows ref v links next value h = plain-Grows links next _ value h
  encode_field-Grows space v links next value h = plain-Grows links next _ value h

  pub Written-Grows :
      {values : Named Js} {n : ℕ} {fields : FieldList} {links last : Links} {b : Bytes}
      {es : List Entry}
      → Written c values n fields links b es last
      → Grows links last
  Written-Grows {links = links} end = ([], sym (append-nil links))
  Written-Grows (skip m w) = Written-Grows w
  Written-Grows {links = links} {last = last} (put {kind = kind} {next = next} value raw m k i w) =
      let (a, e) = encode_field-Grows kind _ links next value k in
      let (d, f) = Written-Grows w in (a ++ d, f ∙ ap (λ l. l ++ d) e ∙ append_assoc links a d)

index_in-at :
    (id : Bytes) (links : Links) (n : ℕ) → index_in id links ≡ some n → link_at links n ≡ some id
index_in-at id [] n h = cc
index_in-at id (l ∷ links) n h = elim (Bool-cases (eq_bytes l id)) [
  | inl e ↦
      let zero' : 0 ≡ n = some_number 0 n (rw e at h) in
      subst (λ k. link_at (l ∷ links) k ≡ some id) zero' (ap some (eq_bytes_path l id e))
  | inr e ↦ elim (Option-cases (index_in id links)) [
    | inl k ↦ absurd (none_number n (rw (e, k) at h))
    | inr (m, k) ↦
        subst (λ j. link_at (l ∷ links) j ≡ some id) (some_number (suc m) n (rw (e, k) at h))
          (index_in-at id links m k)
  ]
]
  where
    some_number : (m n : ℕ) → some m ≡ some n → m ≡ n
    some_number m n h = cc

    none_number : (n : ℕ) → none ≢ some n
    none_number n h = cc

link_at-last : (links : Links) (id : Bytes) → link_at (links ++ (id ∷ [])) (length links) ≡ some id
link_at-last [] id = refl
link_at-last (l ∷ links) id = link_at-last links id

-- The index of a link is where it stands.
pub link_at-add_link :
    (id : Bytes) (links : Links) → link_at (add_link id links).1 (add_link id links).0 ≡ some id
link_at-add_link id links = elim (Option-cases (index_in id links)) [
  | inl k ↦ rw (add_link, k) (link_at-last links id)
  | inr (n, k) ↦ rw (add_link, k) (index_in-at id links n k)
]
