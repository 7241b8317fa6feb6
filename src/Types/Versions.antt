-- ===== src/Types/Versions.antt =====
-- Versions of all types of an app (checkCompatible of lib/types.js).
use hypergraph.Prelude.{
  none_not, some_inj, Bool, true, false, Option, none, some, List, [], ◌∷◌, String, str_eq, ◌&&◌,
  eq_iff, ◌≡◌, ◌≢◌, refl, subst, get_text, put_text, &&-true, Bool-cases, Option-cases, inl, inr,
  if_splits,
}
use hypergraph.Types.{Declared, Named, is_builtin, stored_of, describe}
use hypergraph.Types.{Rule}
use hypergraph.Types.Declare.{Declaration, editable_of, put_of, shape_ok, made, declared, declare}
use hypergraph.Types.Compatible.{fits_now, check_compatible}
use hypergraph.Types.Later.{IsTargeted, type_fits_trans}
use hypergraph.Types.All.{declare_all, new_types, builtin, names_of}

abbrev AllTargeted : Named Declared → Type 0
AllTargeted [] = Unit
AllTargeted ((name, t) ∷ types) = IsTargeted t × AllTargeted types

put_text-AllTargeted :
    (types : Named Declared) (name : String) (t : Declared)
    → AllTargeted types
    → IsTargeted t
    → AllTargeted (put_text types name t)
unfolding put_text
put_text-AllTargeted [] name t a i = (i, tt)
put_text-AllTargeted ((n, u) ∷ types) name t a i =
    if_splits (str_eq n name) AllTargeted (λ h. (i, a.1))
      (λ h. (a.0, put_text-AllTargeted types name t a.1 i))

false_not : false ≢ true
false_not h = cc

and_true : {a b : Bool} → a ≡ true → b ≡ true → a && b ≡ true
and_true h k = rw (h, k) refl

declared-IsTargeted :
    (d : Declaration) (e p : Option Rule) (t : Declared) → declared d e p ≡ some t → IsTargeted t
declared-IsTargeted d none p t h = cc
declared-IsTargeted d (some e) none t h = cc
declared-IsTargeted d (some e) (some p) t h = subst IsTargeted (some_inj (made d e p) t h) refl

declare-IsTargeted :
    (name : String) (d : Declaration) (names : List String) (own : Bool) (t : Declared)
    → declare name d names own ≡ some t
    → IsTargeted t
unfolding declare
declare-IsTargeted name d names own t h = elim (Bool-cases (shape_ok name own names d)) [
  | inl k ↦ declared-IsTargeted d (editable_of d.editable) (put_of d.put) t (rw (declare, k) at h)
  | inr k ↦ absurd (none_not t (rw (declare, k) at h))
]

declare_all-AllTargeted :
    (ds : Named Declaration) (names : List String) (own : Bool) (types out : Named Declared)
    → AllTargeted types
    → declare_all ds names own types ≡ some out
    → AllTargeted out
unfolding declare_all
declare_all-AllTargeted [] names own types out a h = subst AllTargeted (some_inj types out h) a
declare_all-AllTargeted ((name, d) ∷ ds) names own types out a h =
    elim (Option-cases (declare name d names own)) [
      | inl k ↦ absurd (none_not out (rw (declare_all, k) at h))
      | inr (t, k) ↦
          declare_all-AllTargeted ds names own (put_text types name t) out
            (put_text-AllTargeted types name t a (declare-IsTargeted name d names own t k))
            (rw (declare_all, k) at h)
    ]

new_types-AllTargeted :
    (ds : Named Declaration) (out : Named Declared) → new_types ds ≡ some out → AllTargeted out
unfolding new_types
new_types-AllTargeted ds out h = elim (Option-cases (declare_all ds (names_of ds) false [])) [
  | inl k ↦ absurd (none_not out (rw (new_types, k) at h))
  | inr (t, k) ↦
      declare_all-AllTargeted builtin (names_of builtin) true t out
        (declare_all-AllTargeted ds (names_of ds) false [] t tt k) (rw (new_types, k) at h)
]

checked_rest :
    (n : String) (u : Declared) (b c : Named Declared)
    → check_compatible c (describe ((n, u) ∷ b)) ≡ true
    → check_compatible c (describe b) ≡ true
unfolding check_compatible describe
checked_rest n u b c h = elim (Bool-cases (is_builtin n)) [
  | inl k ↦ rw (describe, k) at h
  | inr k ↦
      (&&-true (fits_now (stored_of u) (get_text c n)) (check_compatible c (describe b))
        (rw (describe, k) at h)).1
]

-- What a check of all says of one.
check_compatible-get :
    (b c : Named Declared) (name : String) (t : Declared)
    → is_builtin name ≡ false
    → get_text b name ≡ some t
    → check_compatible c (describe b) ≡ true
    → fits_now (stored_of t) (get_text c name) ≡ true
unfolding check_compatible describe get_text
check_compatible-get [] c name t o g h = cc
check_compatible-get ((n, u) ∷ b) c name t o g h = elim (Bool-cases (str_eq n name)) [
  | inl k ↦
      let same : n ≡ name = (eq_iff n name).0 k in
      let here : is_builtin n ≡ false = rw same o in
      let both =
        &&-true (fits_now (stored_of u) (get_text c n)) (check_compatible c (describe b))
          (rw (describe, here) at h) in
      subst (λ v. fits_now (stored_of v) (get_text c name) ≡ true) (some_inj u t (rw k at g))
        (subst (λ m. fits_now (stored_of u) (get_text c m) ≡ true) same both.0)
  | inr k ↦ check_compatible-get b c name t o (rw k at g) (checked_rest n u b c h)
]

get-IsTargeted :
    (b : Named Declared) (name : String) (t : Declared)
    → AllTargeted b
    → get_text b name ≡ some t
    → IsTargeted t
unfolding get_text
get-IsTargeted [] name t a g = cc
get-IsTargeted ((n, u) ∷ b) name t a g = elim (Bool-cases (str_eq n name)) [
  | inl k ↦ subst IsTargeted (some_inj u t (rw k at g)) a.0
  | inr k ↦ get-IsTargeted b name t a.1 (rw k at g)
]

fits_now_trans :
    (b c : Named Declared) (name : String) (t : Declared)
    → AllTargeted b
    → is_builtin name ≡ false
    → fits_now (stored_of t) (get_text b name) ≡ true
    → check_compatible c (describe b) ≡ true
    → fits_now (stored_of t) (get_text c name) ≡ true
fits_now_trans b c name t a o x y = elim (Option-cases (get_text b name)) [
  | inl k ↦ absurd (false_not (rw k at x))
  | inr (u, k) ↦
      let z = check_compatible-get b c name u o k y in
      elim (Option-cases (get_text c name)) [
        | inl j ↦ absurd (false_not (rw j at z))
        | inr (v, j) ↦
            rw j (type_fits_trans t u v (get-IsTargeted b name u a k) (rw k at x) (rw j at z))
      ]
]

check_all_trans :
    (a b c : Named Declared)
    → AllTargeted b
    → check_compatible b (describe a) ≡ true
    → check_compatible c (describe b) ≡ true
    → check_compatible c (describe a) ≡ true
unfolding check_compatible describe
check_all_trans [] b c i x y = refl
check_all_trans ((n, t) ∷ a) b c i x y =
    let rest = check_all_trans a b c i (checked_rest n t a b x) y in
    elim (Bool-cases (is_builtin n)) [
      | inl k ↦ rw (describe, k) rest
      | inr k ↦
          let here =
            &&-true (fits_now (stored_of t) (get_text b n)) (check_compatible b (describe a))
              (rw (describe, k) at x) in
          rw (describe, k) (and_true (fits_now_trans b c n t i k here.0 y) rest)
    ]

-- Of three versions of an app's types, each later one compatible with the one before, the last is
-- compatible with the first too, where the one between was made by declarations: an app that skips
-- versions loses nothing.
pub check_compatible_trans :
    (ds : Named Declaration) (a b c : Named Declared)
    → new_types ds ≡ some b
    → check_compatible b (describe a) ≡ true
    → check_compatible c (describe b) ≡ true
    → check_compatible c (describe a) ≡ true
check_compatible_trans ds a b c h x y = check_all_trans a b c (new_types-AllTargeted ds b h) x y
