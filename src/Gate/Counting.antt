-- ===== src/Gate/Counting.antt =====
-- What a writer's app checks of links and what readers judge agree (linksAllowed and linkCounts of
-- lib/gate.js), also where the apps have different versions of the types.
use hypergraph.Prelude.{
  ℕ, true, false, Option, none, some, List, [], ◌∷◌, String, ◌==◌, keep, if◌then◌else◌, length,
  get_text, ◌≡◌, ◌≢◌, ◌⊎◌, refl, sym, ap, ◌∙◌, subst, ==_iff, &&-true, Bool-cases, Option-cases,
  inl, inr, if_splits, some_inj,
}
use hypergraph.Types.{Declared, Named, is_link, is_builtin, describe}
use hypergraph.Types.Compatible.{conflict}
use hypergraph.Types.Agree.{SameLinks, SameLinks-self, conflict-SameLinks}
use hypergraph.Gate.Links.{
  allows, type_allowed, value_allowed, fields_allowed, links_allowed, points_at, counts_via, counts,
  link_counts,
}

-- The fields of a type, none for a type that is not declared.
abbrev pub fields_of : Option Declared → List (String × String)
fields_of none = []
fields_of (some t) = t.fields

-- A reader has the values of the fields that it shares with the writer, and of its others none.
abbrev pub IsRead : Named ℕ → Named ℕ → List (String × String) → List (String × String) → Type 0
IsRead written read ws [] = Unit
IsRead written read [] (r ∷ rs) = (get_text read r.0 ≡ none) × IsRead written read [] rs
IsRead written read (w ∷ ws) (r ∷ rs) =
    (get_text read r.0 ≡ get_text written r.0) × IsRead written read ws rs

-- The same type, or types that agree on what both have.
abbrev pub AgreesOn : Named Declared → Named Declared → String → Type 0
AgreesOn theirs ours type =
    (get_text ours type ≡ get_text theirs type)
    ⊎ ((is_builtin type ≡ false) × (conflict ours (describe theirs) ≡ true))

false_not : false ≢ true
false_not h = cc

AgreesOn-SameLinks :
    (theirs ours : Named Declared) (type : String) (t now : Declared)
    → AgreesOn theirs ours type
    → get_text theirs type ≡ some t
    → get_text ours type ≡ some now
    → SameLinks t.links now.links t.fields now.fields
AgreesOn-SameLinks theirs ours type t now (inl same) g o =
    subst (λ u. SameLinks t.links u.links t.fields u.fields) (some_inj t now (sym g ∙ sym same ∙ o))
      (SameLinks-self t.links t.fields)
AgreesOn-SameLinks theirs ours type t now (inr (b, h)) g o =
    conflict-SameLinks theirs ours type t now b g o h

module _ (type_of : ℕ → Option String) (written read : Named ℕ) (target : ℕ) (held : String) where
  -- A field that points at the target and was allowed allows the target's type.
  pointing_allowed :
      (t now : Declared) (f : String × String)
      → type_of target ≡ some held
      → get_text read f.0 ≡ get_text written f.0
      → get_text t.links f.0 ≡ get_text now.links f.0
      → value_allowed type_of t f (get_text written f.0) ≡ true
      → points_at read target f ≡ true
      → allows now held f ≡ true
  pointing_allowed t now f h r l v p = elim (Option-cases (get_text read f.0)) [
    | inl e ↦ absurd (false_not (rw (e, points_at) at p))
    | inr (id, e) ↦
        let same : id ≡ target = (==_iff id target).0 (rw (e, points_at) at p) in
        let allowed : allows t held f ≡ true =
          subst (λ o. type_allowed t f o ≡ true) (ap type_of same ∙ h)
            (subst (λ o. value_allowed type_of t f o ≡ true) (sym r ∙ e) v) in
        rw l at allowed
  ]

  no_pointing : (f : String × String) → get_text read f.0 ≡ none → points_at read target f ≡ false
  no_pointing f r = rw (r, points_at) refl

  counts_fields :
      (t now : Declared) (ws rs : List (String × String))
      → type_of target ≡ some held
      → SameLinks t.links now.links ws rs
      → IsRead written read ws rs
      → fields_allowed type_of t written ws ≡ true
      → counts_via now read target held (keep is_link rs) ≡ true
  counts_fields t now [] [] h s r a = refl
  counts_fields t now (w ∷ ws) [] h s r a = refl
  counts_fields t now [] (f ∷ rs) h s r a =
      let rest = counts_fields t now [] rs h tt r.1 a in
      elim (Bool-cases (is_link f)) [ inl l ↦ rw (l, no_pointing f r.0) rest | inr l ↦ rw l rest ]
  counts_fields t now (w ∷ ws) (f ∷ rs) h (same, targets, s) r a =
      let (v, others) =
        &&-true (if is_link w then value_allowed type_of t w (get_text written w.0) else true)
          (fields_allowed type_of t written ws) a in
      let rest = counts_fields t now ws rs h s r.1 others in
      let allowed : is_link f ≡ true → value_allowed type_of t f (get_text written f.0) ≡ true =
        subst (λ g. is_link g ≡ true → value_allowed type_of t g (get_text written g.0) ≡ true)
          (sym same) (λ l. rw l at v) in
      let linked : is_link f ≡ true → get_text t.links f.0 ≡ get_text now.links f.0 =
        subst (λ g. is_link g ≡ true → get_text t.links g.0 ≡ get_text now.links g.0) (sym same)
          targets in
      elim (Bool-cases (is_link f)) [
        | inr l ↦ rw l rest
        | inl l ↦ elim (Bool-cases (points_at read target f)) [
          | inr p ↦ rw (l, p) rest
          | inl p ↦ rw (l, p) (rw (pointing_allowed t now f h r.0 (linked l) (allowed l) p) refl)
        ]
      ]

  -- No field of a type that the writer does not have points anywhere.
  counts_unknown :
      (now : Declared) (rs : List (String × String))
      → IsRead written read [] rs
      → counts_via now read target held (keep is_link rs) ≡ true
  counts_unknown now [] r = refl
  counts_unknown now (f ∷ rs) r =
      let rest = counts_unknown now rs r.1 in
      elim (Bool-cases (is_link f)) [ inl l ↦ rw (l, no_pointing f r.0) rest | inr l ↦ rw l rest ]

  counts_if :
      (now : Declared)
      → counts_via now read target held (keep is_link now.fields) ≡ true
      → counts now (some read) target held ≡ some true
  counts_if now e =
      if_splits
        (length (keep (allows now held) (keep is_link now.fields))
          == length (keep is_link now.fields))
        (λ x. x ≡ some true) (λ k. refl) (λ k. ap some e)

-- Let a reader's app have the type of a record as the writer's app has it, or, for a type that is
-- not built in, types that do not conflict with the writer's, and of the record's values those of
-- the fields that it shares with the writer, and none in its others. If the writer's app allowed
-- the links, the record counts for the reader as pointing at whichever record they point at, if
-- that record is held with the type it had: linkCounts says true where linksAllowed did.
pub link_counts-links_allowed :
    (theirs ours : Named Declared) (type : String) (written read : Named ℕ)
    (type_of : ℕ → Option String) (target : ℕ) (held : String)
    → AgreesOn theirs ours type
    → IsRead written read (fields_of (get_text theirs type)) (fields_of (get_text ours type))
    → links_allowed theirs type (some written) type_of ≡ true
    → type_of target ≡ some held
    → link_counts ours type (some read) target (some held) ≡ some true
unfolding links_allowed link_counts
link_counts-links_allowed theirs ours type written read type_of target held agree r a h =
    let reads = λ (o p : Option Declared). IsRead written read (fields_of o) (fields_of p) in
    elim (Option-cases (get_text ours type)) [
      | inl e ↦ rw (link_counts, e) refl
      | inr (now, e) ↦
          rw (link_counts, e)
            (counts_if type_of written read target held now
              (elim (Option-cases (get_text theirs type)) [
                | inl k ↦
                    counts_unknown type_of written read target held now now.fields
                      (subst (λ o. reads none o) e (subst (λ o. reads o (get_text ours type)) k r))
                | inr (t, k) ↦
                    counts_fields type_of written read target held t now t.fields now.fields h
                      (AgreesOn-SameLinks theirs ours type t now agree k e)
                      (subst (λ o. reads (some t) o) e
                        (subst (λ o. reads o (get_text ours type)) k r))
                      (rw (links_allowed, k) at a)
              ]))
    ]
