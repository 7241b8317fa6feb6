-- ===== src/Types/RoundTrip.antt =====
-- A type that was stored is declared again as it was (declare, describe and declarationsOf of
-- lib/types.js).
use hypergraph.Prelude.{
  none_not, some_inj, Bool, true, Option, none, some, List, [], ◌∷◌, String, ◌&&◌, ◌||◌, ◌≡◌, ◌≢◌,
  refl, ap, ◌∙◌, subst, if◌then◌else◌, all, any, keep, not, &&-true, Bool-cases, inl, inr,
  if_splits, starts_with,
}
use hypergraph.Types.{Rule, author, members, permission, Declared, stored_of}
use hypergraph.Types.Declare.{
  Declaration, Who, unset, the_author, the_members, who_has, other, editable_of, put_of, shape_ok,
  made, declared, declare, who_of, declaration_of, index_of, is_stamp, keys_ok, is_filled, is_named,
  not_empty, field_ok, links_ok,
}

-- Each list of fields has one that is no stamp.
abbrev pub IsReadable : List (List String) → Type 0
IsReadable [] = Unit
IsReadable (keys ∷ index) = (any (λ k. not (is_stamp k)) keys ≡ true) × IsReadable index

abbrev who_rule : String → Option Rule
who_rule p = if not_empty p then some (permission p) else none

permission_inj : (p q : String) → some (permission p) ≡ some (permission q) → p ≡ q
permission_inj p q h = cc

and_true : {a b : Bool} → a ≡ true → b ≡ true → a && b ≡ true
and_true h k = rw (h, k) refl

not_author : (q : String) → some (permission q) ≢ some author
not_author q h = cc

who_again : (p q : String) → who_rule q ≡ some (permission p) → who_rule p ≡ some (permission p)
who_again p q h = elim (Bool-cases (not_empty q)) [
  | inl k ↦
      subst (λ x. who_rule x ≡ some (permission x)) (permission_inj q p (rw k at h)) (rw k refl)
  | inr k ↦ absurd (none_not (permission p) (rw k at h))
]

no_author : (q : String) → who_rule q ≢ some author
no_author q h = elim (Bool-cases (not_empty q)) [
  | inl k ↦ not_author q (rw k at h)
  | inr k ↦ none_not author (rw k at h)
]

editable_of-who_of : (w : Who) (r : Rule) → editable_of w ≡ some r → editable_of (who_of r) ≡ some r
unfolding editable_of
editable_of-who_of w author h = refl
editable_of-who_of w members h = refl
editable_of-who_of unset (permission p) h = cc
editable_of-who_of the_author (permission p) h = cc
editable_of-who_of the_members (permission p) h = cc
editable_of-who_of other (permission p) h = cc
editable_of-who_of (who_has q) (permission p) h = who_again p q h

put_of-who_of : (w : Who) (r : Rule) → put_of w ≡ some r → put_of (who_of r) ≡ some r
unfolding put_of
put_of-who_of w members h = refl
put_of-who_of unset author h = cc
put_of-who_of the_author author h = cc
put_of-who_of the_members author h = cc
put_of-who_of other author h = cc
put_of-who_of (who_has q) author h = absurd (no_author q h)
put_of-who_of unset (permission p) h = cc
put_of-who_of the_author (permission p) h = cc
put_of-who_of the_members (permission p) h = cc
put_of-who_of other (permission p) h = cc
put_of-who_of (who_has q) (permission p) h = who_again p q h

keep_again : (p : String → Bool) (ks : List String) → keep p (keep p ks) ≡ keep p ks
keep_again p [] = refl
keep_again p (k ∷ ks) = elim (Bool-cases (p k)) [
  | inl h ↦ rw (h, h) (ap (λ xs. k ∷ xs) (keep_again p ks))
  | inr h ↦ rw h (keep_again p ks)
]

is_filled-keep :
    (p : String → Bool) (ks : List String) → any p ks ≡ true → is_filled (keep p ks) ≡ true
is_filled-keep p [] h = cc
is_filled-keep p (k ∷ ks) h = elim (Bool-cases (p k)) [
  | inl e ↦ rw e refl
  | inr e ↦ rw e (is_filled-keep p ks (rw e at h))
]

all-keep : (p q : String → Bool) (ks : List String) → all q ks ≡ true → all q (keep p ks) ≡ true
all-keep p q [] h = refl
all-keep p q (k ∷ ks) h =
    let (a, b) = &&-true (q k) (all q ks) h in
    if_splits (p k) (λ xs. all q xs ≡ true) (λ e. rw (a, all-keep p q ks b) refl)
      (λ e. all-keep p q ks b)

index_again : (index : List (List String)) → index_of (index_of index) ≡ index_of index
index_again [] = refl
index_again (ks ∷ index) = rw (keep_again (λ k. not (is_stamp k)) ks, index_again index) refl

keys_ok_again :
    (fields : List (String × String)) (index : List (List String))
    → IsReadable index
    → all (keys_ok fields) index ≡ true
    → all (keys_ok fields) (index_of index) ≡ true
keys_ok_again fields [] r h = refl
keys_ok_again fields (ks ∷ index) r h =
    let (a, b) = &&-true (keys_ok fields ks) (all (keys_ok fields) index) h in
    let (f, g) = &&-true (is_filled ks) (all (λ k. is_stamp k || any (is_named k) fields) ks) a in
    and_true
      (and_true (is_filled-keep (λ k. not (is_stamp k)) ks r.0)
        (all-keep (λ k. not (is_stamp k)) (λ k. is_stamp k || any (is_named k) fields) ks g))
      (keys_ok_again fields index r.1 b)

shape_again :
    (name : String) (own : Bool) (names : List String) (d : Declaration) (e p : Rule)
    → IsReadable d.index
    → shape_ok name own names d ≡ true
    → shape_ok name own names (declaration_of (stored_of (made d e p))) ≡ true
unfolding declaration_of
shape_again name own names d e p r h =
    let (a, a') =
      &&-true (own || not (starts_with name "hg/"))
        (all field_ok d.fields
          && (links_ok d.fields names d.links && all (keys_ok d.fields) d.index))
        h in
    let (b, b') =
      &&-true (all field_ok d.fields)
        (links_ok d.fields names d.links && all (keys_ok d.fields) d.index) a' in
    let (c, c') = &&-true (links_ok d.fields names d.links) (all (keys_ok d.fields) d.index) b' in
    and_true a (and_true b (and_true c (keys_ok_again d.fields d.index r c')))

-- What declare made of its parts, it makes again.
declared_again :
    (d : Declaration) (e p : Option Rule) (t : Declared)
    → declared d e p ≡ some t
    → (r : Rule) × (q : Rule) × (e ≡ some r) × (p ≡ some q) × (made d r q ≡ t)
declared_again d none p t h = absurd (none_not t h)
declared_again d (some r) none t h = absurd (none_not t h)
declared_again d (some r) (some q) t h = (r, q, refl, refl, some_inj (made d r q) t h)

made_again :
    (d : Declaration) (r q : Rule) → made (declaration_of (stored_of (made d r q))) r q ≡ made d r q
unfolding declaration_of
made_again d r q = ap (λ i. record (made d r q) { index = i }) (index_again d.index)

declare_made :
    (name : String) (d : Declaration) (names : List String) (own : Bool) (r q : Rule)
    → IsReadable d.index
    → shape_ok name own names d ≡ true
    → editable_of d.editable ≡ some r
    → put_of d.put ≡ some q
    → declare name (declaration_of (stored_of (made d r q))) names own ≡ some (made d r q)
unfolding declare declaration_of
declare_made name d names own r q readable s e p =
    let again = declaration_of (stored_of (made d r q)) in
    rw (declare, shape_again name own names d r q readable s)
      (ap (λ e'. declared again e' (put_of (who_of q))) (editable_of-who_of d.editable r e)
        ∙ ap (λ p'. declared again (some r) p') (put_of-who_of d.put q p)
        ∙ ap some (made_again d r q))

-- A type that declare accepts, no index of which is by nothing but stamps, is declared again as it
-- was from the form in which a space stores it.
pub declare-declaration_of :
    (name : String) (d : Declaration) (names : List String) (own : Bool) (t : Declared)
    → IsReadable d.index
    → declare name d names own ≡ some t
    → declare name (declaration_of (stored_of t)) names own ≡ some t
unfolding declare
declare-declaration_of name d names own t readable h =
    elim (Bool-cases (shape_ok name own names d)) [
      | inl s ↦
          let (r, q, e, p, same) =
            declared_again d (editable_of d.editable) (put_of d.put) t (rw (declare, s) at h) in
          subst (λ u. declare name (declaration_of (stored_of u)) names own ≡ some u) same
            (declare_made name d names own r q readable s e p)
      | inr s ↦ absurd (none_not t (rw (declare, s) at h))
    ]
