-- ===== src/Types/Agree.antt =====
-- Two apps' types that agree on what both have (conflict and common of lib/types.js).
use hypergraph.Prelude.{
  some_inj, true, false, Option, none, some, List, [], ◌∷◌, String, str_eq, eq_iff, ◌≡◌, refl, ap,
  ◌∙◌, subst, get_text, &&-true, Bool-cases, Option-cases, inl, inr, take, length,
}
use hypergraph.Types.{Declared, Stored, Named, is_link, is_builtin, stored_of, describe}
use hypergraph.Types.Compatible.{
  same_texts, same_targets, fits, fields_fit, type_fits, fits_now, check_compatible, cut_fields,
  common, conflict,
}
use hypergraph.Types.Same.{fits_parts}

-- The fields that two versions of a type share are the same, with the same targets.
abbrev pub SameLinks :
    Named (List String)
    → Named (List String)
    → List (String × String)
    → List (String × String)
    → Type 0
SameLinks old now [] gs = Unit
SameLinks old now (f ∷ fs) [] = Unit
SameLinks old now (f ∷ fs) (g ∷ gs) =
    (g ≡ f) × (is_link f ≡ true → get_text old f.0 ≡ get_text now f.0) × SameLinks old now fs gs

pub SameLinks-self :
    (links : Named (List String)) (fs : List (String × String)) → SameLinks links links fs fs
SameLinks-self links [] = tt
SameLinks-self links (f ∷ fs) = (refl, λ l. refl, SameLinks-self links fs)

same_texts-eq : (a b : List String) → same_texts a b ≡ true → a ≡ b
same_texts-eq [] [] h = refl
same_texts-eq (a ∷ as') (b ∷ bs) h =
    let (p, q) = &&-true (str_eq a b) (same_texts as' bs) h in
    ap (λ x. x ∷ as') ((eq_iff a b).0 p) ∙ ap (λ xs. b ∷ xs) (same_texts-eq as' bs q)
same_texts-eq [] (b ∷ bs) h = cc
same_texts-eq (a ∷ as') [] h = cc

same_targets-eq : (a b : Option (List String)) → same_targets a b ≡ true → a ≡ b
same_targets-eq none none h = refl
same_targets-eq (some a) (some b) h = ap some (same_texts-eq a b h)
same_targets-eq none (some b) h = cc
same_targets-eq (some a) none h = cc

fits-same :
    (old now : Named (List String)) (f g : String × String)
    → fits old now f g ≡ true
    → (g ≡ f) × (is_link f ≡ true → get_text old f.0 ≡ get_text now f.0)
fits-same old now (n, k) (m, j) h =
    let (a, b, c) = fits_parts old now (n, k) (m, j) h in
    (
      ap (λ x. (x, j)) a ∙ ap (λ x. (n, x)) b,
      λ l. same_targets-eq (get_text old n) (get_text now n) (rw l at c),
    )

fields_fit-SameLinks :
    (old now : Named (List String)) (fs gs : List (String × String))
    → fields_fit old now (take (length gs) fs) gs ≡ true
    → SameLinks old now fs gs
unfolding fields_fit
fields_fit-SameLinks old now [] gs h = tt
fields_fit-SameLinks old now (f ∷ fs) [] h = tt
fields_fit-SameLinks old now (f ∷ fs) (g ∷ gs) h =
    let (a, b) = &&-true (fits old now f g) (fields_fit old now (take (length gs) fs) gs) h in
    let (same, targets) = fits-same old now f g a in
    (same, targets, fields_fit-SameLinks old now fs gs b)

conflict_rest :
    (types : Named Declared) (name : String) (old : Stored) (stored : Named Stored)
    → conflict types ((name, old) ∷ stored) ≡ true
    → conflict types stored ≡ true
unfolding conflict common check_compatible
conflict_rest types name old stored h = elim (Option-cases (get_text types name)) [
  | inl k ↦ rw k at h
  | inr (now, k) ↦ elim (Bool-cases (is_builtin name)) [
    | inl b ↦ rw (k, b) at h
    | inr b ↦
        (&&-true (fits_now (cut_fields old now) (get_text types name))
          (check_compatible types (common types stored)) (rw (k, b) at h)).1
  ]
]

conflict_here :
    (types : Named Declared) (name : String) (old : Stored) (stored : Named Stored) (now : Declared)
    → is_builtin name ≡ false
    → get_text types name ≡ some now
    → conflict types ((name, old) ∷ stored) ≡ true
    → type_fits (cut_fields old now) now ≡ true
unfolding conflict common check_compatible
conflict_here types name old stored now b k h =
    subst (λ o. fits_now (cut_fields old now) o ≡ true) k
      ((&&-true (fits_now (cut_fields old now) (get_text types name))
        (check_compatible types (common types stored)) (rw (k, b) at h)).0)

described_rest :
    (name : String) (t : Declared) (theirs ours : Named Declared)
    → conflict ours (describe ((name, t) ∷ theirs)) ≡ true
    → conflict ours (describe theirs) ≡ true
unfolding describe
described_rest name t theirs ours h = elim (Bool-cases (is_builtin name)) [
  | inl k ↦ rw (describe, k) at h
  | inr k ↦ conflict_rest ours name (stored_of t) (describe theirs) (rw (describe, k) at h)
]

conflict-type_fits :
    (theirs ours : Named Declared) (name : String) (t now : Declared)
    → is_builtin name ≡ false
    → get_text theirs name ≡ some t
    → get_text ours name ≡ some now
    → conflict ours (describe theirs) ≡ true
    → type_fits (cut_fields (stored_of t) now) now ≡ true
unfolding describe get_text
conflict-type_fits [] ours name t now b g o h = cc
conflict-type_fits ((n, u) ∷ theirs) ours name t now b g o h = elim (Bool-cases (str_eq n name)) [
  | inl k ↦
      let same : n ≡ name = (eq_iff n name).0 k in
      let here : is_builtin n ≡ false = rw same b in
      subst (λ v. type_fits (cut_fields (stored_of v) now) now ≡ true) (some_inj u t (rw k at g))
        (conflict_here ours n (stored_of u) (describe theirs) now here (ap (get_text ours) same ∙ o)
          (rw (describe, here) at h))
  | inr k ↦
      conflict-type_fits theirs ours name t now b (rw k at g) o (described_rest n u theirs ours h)
]

pub conflict-SameLinks :
    (theirs ours : Named Declared) (name : String) (t now : Declared)
    → is_builtin name ≡ false
    → get_text theirs name ≡ some t
    → get_text ours name ≡ some now
    → conflict ours (describe theirs) ≡ true
    → SameLinks t.links now.links t.fields now.fields
unfolding type_fits
conflict-SameLinks theirs ours name t now b g o h =
    fields_fit-SameLinks t.links now.links t.fields now.fields
      (&&-true (fields_fit t.links now.links (take (length now.fields) t.fields) now.fields) _
        (conflict-type_fits theirs ours name t now b g o h)).0
