-- ===== src/Types/Later.antt =====
-- Versions of one type (checkCompatible of lib/types.js).
use hypergraph.Prelude.{
  Bool, true, false, Option, List, [], ◌∷◌, String, ◌&&◌, arith, ◌≡◌, refl, sym, ◌∙◌, subst, any,
  not, is_some, &&-true, Bool-cases, inl, inr,
}
use hypergraph.Types.{Declared, Stored, Named, is_link, stored_of}
use hypergraph.Types.Declare.{target_of}
use hypergraph.Types.Compatible.{
  same_rule, same_flag, links_of, put_or_members, fits, fields_fit, type_fits,
}
use hypergraph.Types.Same.{
  same_rule_trans, same_rule_self, flag_self, and_parts, same_flag_trans, fits_parts, fits_whole,
  links_fit_trans, links_fit_self, links_fit,
}

module _ (la lb lc : Named (List String)) where
  fits_trans :
      (f g h : String × String)
      → fits la lb f g ≡ true
      → fits lb lc g h ≡ true
      → fits la lc f h ≡ true
  fits_trans f g h x y =
      let (a, b, c) = fits_parts la lb f g x in
      let (d, e, l) = fits_parts lb lc g h y in
      fits_whole la lc f h (d ∙ a) (e ∙ b) (
        links_fit_trans la lb lc f.0 f.1 c (
          subst (λ n. links_fit lb lc n f.1 ≡ true) a
            (subst (λ k. links_fit lb lc g.0 k ≡ true) b l)))

  fields_fit_trans :
      (fs gs hs : List (String × String))
      → fields_fit la lb fs gs ≡ true
      → fields_fit lb lc gs hs ≡ true
      → fields_fit la lc fs hs ≡ true
  unfolding fields_fit
  fields_fit_trans [] gs hs x y = refl
  fields_fit_trans (f ∷ fs) [] hs x y = cc
  fields_fit_trans (f ∷ fs) (g ∷ gs) [] x y = cc
  fields_fit_trans (f ∷ fs) (g ∷ gs) (h ∷ hs) x y =
      let (p, q) = &&-true (fits la lb f g) (fields_fit la lb fs gs) x in
      let (r, s) = &&-true (fits lb lc g h) (fields_fit lb lc gs hs) y in
      rw (fits_trans f g h p r, fields_fit_trans fs gs hs q s) refl

fields_fit_self :
    (l : Named (List String)) (fs : List (String × String)) → fields_fit l l fs fs ≡ true
unfolding fields_fit
fields_fit_self l [] = refl
fields_fit_self l (f ∷ fs) =
    rw (fits_whole l l f f refl refl (links_fit_self l f.0 f.1), fields_fit_self l fs) refl

-- As declare gives it.
abbrev pub IsTargeted : Declared → Type 0
IsTargeted t = t.target ≡ target_of t.one_per_member t.fields

-- A type that counts by a field has a link field, and one with a link field counts by one.
target_of-none :
    (fields : List (String × String))
    → any is_link fields ≡ false
    → is_some (target_of true fields) ≡ false
target_of-none [] h = refl
target_of-none (f ∷ fs) h = elim (Bool-cases (is_link f)) [
  | inl k ↦ cc
  | inr k ↦ rw k (target_of-none fs (rw k at h))
]

target_of-some :
    (fields : List (String × String))
    → any is_link fields ≡ true
    → is_some (target_of true fields) ≡ true
target_of-some [] h = cc
target_of-some (f ∷ fs) h = elim (Bool-cases (is_link f)) [
  | inl k ↦ rw k refl
  | inr k ↦ rw k (target_of-some fs (rw k at h))
]

-- One per member counts by no field that the old version lacked.
abbrev counts_same : List (String × String) → Bool → Option String → Bool
counts_same old one target = not (one && (is_some target && not (any is_link old)))

counts_same_self :
    (fields : List (String × String)) (one : Bool)
    → counts_same fields one (target_of one fields) ≡ true
counts_same_self fields false = refl
counts_same_self fields true = elim (Bool-cases (any is_link fields)) [
  | inl h ↦ rw h (ground arith)
  | inr h ↦ rw (target_of-none fields h) refl
]

counts_same_trans :
    (fa fb : List (String × String)) (b c : Bool) (target : Option String)
    → same_flag b c ≡ true
    → counts_same fa b (target_of b fb) ≡ true
    → counts_same fb c target ≡ true
    → counts_same fa c target ≡ true
counts_same_trans fa fb b false target f x y = refl
counts_same_trans fa fb false true target f x y = cc
counts_same_trans fa fb true true target f x y = elim (Bool-cases (any is_link fb)) [
  | inl h ↦ ground (arith, target_of-some fb h)
  | inr h ↦ ground arith
]

-- The conjuncts of type_fits.
Later-parts :
    (old : Stored) (now : Declared)
    → type_fits old now ≡ true
    → (fields_fit (links_of old.links) now.links old.fields now.fields ≡ true)
      × (same_flag old.one_per_member now.one_per_member ≡ true)
      × (counts_same old.fields now.one_per_member now.target ≡ true)
      × (same_rule old.editable now.editable ≡ true)
      × (same_rule (put_or_members old.put) now.put ≡ true)
unfolding type_fits
Later-parts old now h =
    and_parts (fields_fit (links_of old.links) now.links old.fields now.fields)
      (same_flag old.one_per_member now.one_per_member)
      (counts_same old.fields now.one_per_member now.target) (same_rule old.editable now.editable)
      (same_rule (put_or_members old.put) now.put) h

pub type_fits_trans :
    (a b c : Declared)
    → IsTargeted b
    → type_fits (stored_of a) b ≡ true
    → type_fits (stored_of b) c ≡ true
    → type_fits (stored_of a) c ≡ true
unfolding type_fits
type_fits_trans a b c t x y =
    let (f, o, n, e, p) = Later-parts (stored_of a) b x in
    let (f', o', n', e', p') = Later-parts (stored_of b) c y in
    rw
      (
        fields_fit_trans a.links b.links c.links a.fields b.fields c.fields f f',
        same_flag_trans a.one_per_member b.one_per_member c.one_per_member o o',
        counts_same_trans a.fields b.fields b.one_per_member c.one_per_member c.target o'
            (rw (sym t) n) n',
        same_rule_trans a.editable b.editable c.editable e e',
        same_rule_trans a.put b.put c.put p p',
      )
      refl

type_fits_self : (a : Declared) → IsTargeted a → type_fits (stored_of a) a ≡ true
unfolding type_fits
type_fits_self a t =
    let n : counts_same a.fields a.one_per_member a.target ≡ true =
      rw t (counts_same_self a.fields a.one_per_member) in
    rw
      (
        fields_fit_self a.links a.fields,
        flag_self a.one_per_member,
        n,
        same_rule_self a.editable,
        same_rule_self a.put,
      )
      refl
