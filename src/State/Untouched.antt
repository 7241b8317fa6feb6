-- ===== src/State/Untouched.antt =====
-- What a change leaves alone that `touched` of lib/decisions/state.js does not name.
use hypergraph.Prelude.{
  ℕ, ◌≡◌, refl, sym, ◌∙◌, subst, true, false, some, List, [], ◌∷◌, ◌++◌, arith, ◌==◌, if◌then◌else◌,
  includes, get, inl, inr,
}
use hypergraph.Decisions.View.{Scope, top, sub}
use hypergraph.State.Data
use hypergraph.State.Data.{Part, State, Entry, Change, at, part_of}
use hypergraph.State.Apply.{known, logs_of, apply_entry, set_part, apply, apply_all}
use hypergraph.State.Parts.{eq_scope_cases, get-change}
use hypergraph.State.Follows.{part_of-set_part, part_of-same}
use hypergraph.State.Touched.{Touched, add, touch_entry, touch, touch_each, touched}

-- One identity's entries in a scope, and the scope's settings, are the same.
pub record IsSamePart (id : ℕ) (p q : Part) : Type 0 where
  pub meta : q.meta ≡ p.meta
  pub members : get q.members id ≡ get p.members id
  pub cuts : get q.cuts id ≡ get p.cuts id
  pub admits : get q.admits id ≡ get p.admits id
  pub editcuts : get q.editcuts id ≡ get p.editcuts id
  pub banned : get q.banned id ≡ get p.banned id

-- Whatever decides how much of one identity's logs counts is the same.
pub record IsSame (id : ℕ) (before after : State) : Type 0 where
  pub parts : (s : Scope) → IsSamePart id (part_of before s) (part_of after s)
  pub roles : after.roles ≡ before.roles
  pub subspaces : after.subspaces ≡ before.subspaces

same_part : (id : ℕ) (p : Part) → IsSamePart id p p
same_part id p = record {
  meta = refl;
  members = refl;
  cuts = refl;
  admits = refl;
  editcuts = refl;
  banned = refl;
}

IsSame-state : (id : ℕ) (st : State) → IsSame id st st
IsSame-state id st = record {
  parts = λ s. same_part id (part_of st s);
  roles = refl;
  subspaces = refl;
}

includes-append :
    (xs : List ℕ) (x y : ℕ) → includes y (xs ++ x ∷ []) ≡ (if x == y then true else includes y xs)
includes-append [] x y = ground arith
includes-append (z ∷ xs) x y = ground (arith, includes-append xs x y)

includes_same : (xs : List ℕ) (x y : ℕ) → (x == y) ≡ true → includes x xs ≡ includes y xs
includes_same [] x y h = refl
includes_same (z ∷ xs) x y h = ground (arith, includes_same xs x y)

includes-add :
    (xs : List ℕ) (x y : ℕ)
    → includes y (add xs x) ≡ false
    → (includes y xs ≡ false) × ((x == y) ≡ false)
includes-add xs x y h = ground (arith, includes-append xs x y, includes_same xs x y)

-- An entry of a scope that names neither the identity nor the settings.
entry_keeps :
    (id : ℕ) (e : Entry) (t : Touched) (p : Part)
    → (touch_entry e t).all ≡ false
    → includes id (touch_entry e t).ids ≡ false
    → IsSamePart id p (apply_entry e p)
unfolding touch_entry apply_entry
entry_keeps id (Data.meta v) t p a n = ground arith
entry_keeps id (Data.epochs v) t p a n = record {
  meta = refl;
  members = refl;
  cuts = refl;
  admits = refl;
  editcuts = refl;
  banned = refl;
}
entry_keeps id (Data.member i v) t p a n = record {
  meta = refl;
  members = ground (arith, includes-add t.ids i id n, get-change p.members i id (known v));
  cuts = refl;
  admits = refl;
  editcuts = refl;
  banned = refl;
}
entry_keeps id (Data.cut i v) t p a n = record {
  meta = refl;
  members = refl;
  cuts = ground (arith, includes-add t.ids i id n, get-change p.cuts i id (logs_of v));
  admits = refl;
  editcuts = refl;
  banned = refl;
}
entry_keeps id (Data.admit i v) t p a n = record {
  meta = refl;
  members = refl;
  cuts = refl;
  admits = ground (arith, includes-add t.ids i id n, get-change p.admits i id v);
  editcuts = refl;
  banned = refl;
}
entry_keeps id (Data.editcut i v) t p a n = record {
  meta = refl;
  members = refl;
  cuts = refl;
  admits = refl;
  editcuts = ground (arith, includes-add t.ids i id n, get-change p.editcuts i id v);
  banned = refl;
}
entry_keeps id (Data.banned i v) t p a n = record {
  meta = refl;
  members = refl;
  cuts = refl;
  admits = refl;
  editcuts = refl;
  banned = ground (arith, includes-add t.ids i id n, get-change p.banned i id v);
}
entry_keeps id (Data.revoked i v) t p a n = record {
  meta = refl;
  members = refl;
  cuts = refl;
  admits = refl;
  editcuts = refl;
  banned = refl;
}
entry_keeps id (Data.moderated i v) t p a n = record {
  meta = refl;
  members = refl;
  cuts = refl;
  admits = refl;
  editcuts = refl;
  banned = refl;
}
entry_keeps id (Data.redeemed j i v) t p a n = record {
  meta = refl;
  members = refl;
  cuts = refl;
  admits = refl;
  editcuts = refl;
  banned = refl;
}
entry_keeps id (Data.uses i v) t p a n = record {
  meta = refl;
  members = refl;
  cuts = refl;
  admits = refl;
  editcuts = refl;
  banned = refl;
}

part_keeps :
    (id : ℕ) (s u : Scope) (p : Part) (st : State)
    → IsSamePart id (part_of st s) p
    → IsSamePart id (part_of st u) (part_of (set_part s p st) u)
part_keeps id s u p st h = elim (eq_scope_cases s u) [
  | inl q ↦
      subst (λ w. IsSamePart id (part_of st w) (part_of (set_part s p st) w)) q
        (subst (IsSamePart id (part_of st s)) (sym (part_of-same s p st)) h)
  | inr q ↦
      subst (IsSamePart id (part_of st u)) (sym (part_of-set_part s u p st q))
        (same_part id (part_of st u))
]

set_part_keeps :
    (id : ℕ) (s : Scope) (p : Part) (st : State)
    → IsSamePart id (part_of st s) p
    → IsSame id st (set_part s p st)
set_part_keeps id top p st h = record {
  parts = λ u. part_keeps id top u p st h;
  roles = refl;
  subspaces = refl;
}
set_part_keeps id (sub k) p st h = record {
  parts = λ u. part_keeps id (sub k) u p st h;
  roles = refl;
  subspaces = refl;
}

IsSame-parts :
    (id : ℕ) (before after : State)
    → ((s : Scope) → part_of after s ≡ part_of before s)
    → after.roles ≡ before.roles
    → after.subspaces ≡ before.subspaces
    → IsSame id before after
IsSame-parts id before after p r b = record {
  parts =
      λ s. subst (IsSamePart id (part_of before s)) (sym (p s)) (same_part id (part_of before s));
  roles = r;
  subspaces = b;
}

change_keeps :
    (id : ℕ) (c : Change) (t : Touched) (st : State)
    → (touch c t).all ≡ false
    → includes id (touch c t).ids ≡ false
    → IsSame id st (apply c st)
unfolding touch apply part_of
change_keeps id (at s e) t st a n =
    set_part_keeps id s (apply_entry e (part_of st s)) st (entry_keeps id e t (part_of st s) a n)
change_keeps id (Data.writer key v) t st a n =
    IsSame-parts id st (apply (Data.writer key v) st) same refl refl
  where
    same : (s : Scope) → part_of (apply (Data.writer key v) st) s ≡ part_of st s
    same top = refl
    same (sub k) = refl
change_keeps id (Data.writers i v) t st a n = IsSame-state id st
change_keeps id (Data.gone i d v) t st a n =
    IsSame-parts id st (apply (Data.gone i d v) st) same refl refl
  where
    same : (s : Scope) → part_of (apply (Data.gone i d v) st) s ≡ part_of st s
    same top = refl
    same (sub k) = refl
change_keeps id (Data.role name v) t st a n = ground arith
change_keeps id (Data.subspace key v) t st a n = ground arith
change_keeps id (Data.subspaces v) t st a n = ground arith
change_keeps id (Data.listed log v) t st a n =
    IsSame-parts id st (apply (Data.listed log v) st) same refl refl
  where
    same : (s : Scope) → part_of (apply (Data.listed log v) st) s ≡ part_of st s
    same top = refl
    same (sub k) = refl
change_keeps id (Data.types v) t st a n = ground arith
change_keeps id (Data.types_at version v) t st a n = ground arith

IsSame-trans : (id : ℕ) (a b c : State) → IsSame id a b → IsSame id b c → IsSame id a c
IsSame-trans id a b c p q = record {
  parts = λ s. record {
    meta = (q.parts s).meta ∙ (p.parts s).meta;
    members = (q.parts s).members ∙ (p.parts s).members;
    cuts = (q.parts s).cuts ∙ (p.parts s).cuts;
    admits = (q.parts s).admits ∙ (p.parts s).admits;
    editcuts = (q.parts s).editcuts ∙ (p.parts s).editcuts;
    banned = (q.parts s).banned ∙ (p.parts s).banned;
  };
  roles = q.roles ∙ p.roles;
  subspaces = q.subspaces ∙ p.subspaces;
}

-- What is touched stays so.
abbrev Clear : ℕ → Touched → Type 0
Clear id t = (t.all ≡ false) × (includes id t.ids ≡ false)

Clear-entry : (id : ℕ) (e : Entry) (t : Touched) → Clear id (touch_entry e t) → Clear id t
unfolding touch_entry
Clear-entry id (Data.meta v) t h = ground arith
Clear-entry id (Data.member i v) t h = (h.0, (includes-add t.ids i id h.1).0)
Clear-entry id (Data.cut i v) t h = (h.0, (includes-add t.ids i id h.1).0)
Clear-entry id (Data.admit i v) t h = (h.0, (includes-add t.ids i id h.1).0)
Clear-entry id (Data.editcut i v) t h = (h.0, (includes-add t.ids i id h.1).0)
Clear-entry id (Data.banned i v) t h = (h.0, (includes-add t.ids i id h.1).0)
Clear-entry id (Data.epochs v) t h = h
Clear-entry id (Data.revoked i v) t h = h
Clear-entry id (Data.moderated i v) t h = h
Clear-entry id (Data.redeemed j i v) t h = h
Clear-entry id (Data.uses i v) t h = h

Clear-change : (id : ℕ) (c : Change) (t : Touched) → Clear id (touch c t) → Clear id t
unfolding touch
Clear-change id (at s e) t h = Clear-entry id e t h
Clear-change id (Data.writer key v) t h = h
Clear-change id (Data.writers i v) t h = h
Clear-change id (Data.gone i d v) t h = h
Clear-change id (Data.listed log v) t h = h
Clear-change id (Data.role name v) t h = ground arith
Clear-change id (Data.subspace key v) t h = ground arith
Clear-change id (Data.subspaces v) t h = ground arith
Clear-change id (Data.types v) t h = ground arith
Clear-change id (Data.types_at version v) t h = ground arith

Clear-each :
    (id : ℕ) (changes : List Change) (t : Touched) → Clear id (touch_each changes t) → Clear id t
unfolding touch_each
Clear-each id [] t h = h
Clear-each id (c ∷ changes) t h = Clear-change id c t (Clear-each id changes (touch c t) h)

each_keeps :
    (id : ℕ) (changes : List Change) (t : Touched) (st : State)
    → Clear id (touch_each changes t)
    → IsSame id st (apply_all changes st)
unfolding touch_each apply_all
each_keeps id [] t st h = IsSame-state id st
each_keeps id (c ∷ changes) t st h =
    let first = Clear-each id changes (touch c t) h in
    IsSame-trans id st (apply c st) (apply_all changes (apply c st))
      (change_keeps id c t st first.0 first.1) (each_keeps id changes (touch c t) (apply c st) h)

-- If what changes of the view touch is neither `all` nor an identity, then when the changes were
-- applied, that identity's membership, bans, cuts, edit cuts and admission in the space and in
-- each sub-space are as before, and so are the settings, custom roles and sub-spaces.
pub touched-IsSame :
    (id : ℕ) (changes : List Change) (st : State)
    → (touched (some changes)).all ≡ false
    → includes id (touched (some changes)).ids ≡ false
    → IsSame id st (apply_all changes st)
unfolding touched
touched-IsSame id changes st a n =
    each_keeps id changes (record { all = false; ids = []; mods = []; listed = []; types = false })
      st (a, n)
