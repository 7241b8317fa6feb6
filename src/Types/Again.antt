-- ===== src/Types/Again.antt =====
-- What validate returns, it accepts as it is; and what it refuses (lib/types.js).
use hypergraph.Prelude.{
  none_not, some_inj, ◌++◌, false, Option, none, some, List, [], ◌∷◌, String, get_text, ◌≡◌, refl,
  ap, subst, Bool-cases, Option-cases, inl, inr, if_same,
}
use hypergraph.Encodings.Ids.{Texts, IsTexts}
use hypergraph.Types.{Declared, Named}
use hypergraph.Types.Validate.{
  Js, check_value, is_undefined, is_null, then_rest, validate_fields, invalid_record, valid,
  or_invalid, validate,
}
use hypergraph.Types.Values.{Stays, valid_inj, type_not, record_not, not-true, value-Stays}

module _ (t : Texts) (laws : IsTexts t) where
  field_again :
      (fields : List (String × String)) (field kind : String) (w : Js) (more : Named Js)
      → get_text fields field ≡ some kind
      → Stays (check_value t kind) w
      → validate_fields t fields more ≡ some more
      → validate_fields t fields ((field, w) ∷ more) ≡ some ((field, w) ∷ more)
  unfolding validate_fields
  field_again fields field kind w more g (c, u, n) r =
      rw (validate_fields, not-true (is_undefined w) u, g, not-true (is_null w) n, c, r) refl

  validate_fields_again :
      (fields : List (String × String)) (values out : Named Js)
      → validate_fields t fields values ≡ some out
      → validate_fields t fields out ≡ some out
  unfolding validate_fields
  validate_fields_again fields [] out h =
      subst (λ o. validate_fields t fields o ≡ some o) (some_inj [] out h) refl
  validate_fields_again fields ((field, v) ∷ values) out h = elim (Bool-cases (is_undefined v)) [
    | inl u ↦ validate_fields_again fields values out (rw (validate_fields, u) at h)
    | inr u ↦ elim (Option-cases (get_text fields field)) [
      | inl g ↦ absurd (none_not out (rw (validate_fields, u, g) at h))
      | inr (kind, g) ↦ elim (Bool-cases (is_null v)) [
        | inl n ↦ validate_fields_again fields values out (rw (validate_fields, u, g, n) at h)
        | inr n ↦ elim (Option-cases (check_value t kind v)) [
          | inl c ↦ absurd (none_not out (rw (validate_fields, u, g, n, c) at h))
          | inr (w, c) ↦ elim (Option-cases (validate_fields t fields values)) [
            | inl r ↦ absurd (none_not out (rw (validate_fields, u, g, n, c, r) at h))
            | inr (more, r) ↦
                subst (λ o. validate_fields t fields o ≡ some o)
                  (some_inj ((field, w) ∷ more) out (rw (validate_fields, u, g, n, c, r) at h))
                  (field_again fields field kind w more g (value-Stays t laws kind v w c)
                    (validate_fields_again fields values more r))
          ]
        ]
      ]
    ]
  ]

  -- Where z32 reads what it wrote, and reads the empty text as no bytes, what validate returns for
  -- a record's values it accepts, and returns unchanged.
  pub validate_again :
      (types : Named Declared) (name : String) (values out : Named Js)
      → validate t types name values ≡ valid out
      → validate t types name out ≡ valid out
  unfolding validate
  validate_again types name values out h = elim (Option-cases (get_text types name)) [
    | inl g ↦ absurd (type_not out (rw (validate, g) at h))
    | inr (d, g) ↦ elim (Option-cases (validate_fields t d.fields values)) [
      | inl f ↦ absurd (record_not out (rw (validate, g, f) at h))
      | inr (o, f) ↦
          subst (λ x. validate t types name x ≡ valid x)
            (valid_inj o out (rw (validate, g, f) at h))
            (rw (validate, g) (ap or_invalid (validate_fields_again d.fields values o f)))
    ]
  ]

then_none : (name : String) (c : Option Js) → then_rest name c none ≡ none
then_none name none = refl
then_none name (some v) = refl

-- A value for a field that the type does not have, among any others.
module _ (t : Texts) (fields : List (String × String)) (field : String) (v : Js)
    (after : Named Js) where
  refused_among :
      (before : Named Js)
      → get_text fields field ≡ none
      → is_undefined v ≡ false
      → validate_fields t fields (before ++ ((field, v) ∷ after)) ≡ none
  unfolding validate_fields
  refused_among [] g u = rw (u, g) refl
  refused_among ((name, x) ∷ before) g u =
      let rest = refused_among before g u in
      elim (Bool-cases (is_undefined x)) [
        | inl e ↦ rw e rest
        | inr e ↦ elim (Option-cases (get_text fields name)) [
          | inl k ↦ rw (e, k) refl
          | inr (kind, k) ↦
              rw (e, k, rest)
                (if_same (is_null x) (λ o. o) refl (then_none name (check_value t kind x)))
        ]
      ]

-- Values with one, null included, for a field that their type does not have are refused as
-- INVALID_RECORD, whatever the others are; undefined for such a field is not such a value.
pub unknown_refused :
    (t : Texts) (types : Named Declared) (name : String) (d : Declared) (before after : Named Js)
    (field : String) (v : Js)
    → get_text types name ≡ some d
    → get_text d.fields field ≡ none
    → is_undefined v ≡ false
    → validate t types name (before ++ ((field, v) ∷ after)) ≡ invalid_record
unfolding validate
unknown_refused t types name d before after field v k g u =
    rw (validate, k) (ap or_invalid (refused_among t d.fields field v after before g u))
