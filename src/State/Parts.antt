-- ===== src/State/Parts.antt =====
-- One scope's entries of the state (lib/decisions/state.js) against the view they are read from.
use hypergraph.Prelude.{
  ℕ, ◌≡◌, refl, Bool, true, false, Option, none, some, List, arith, ◌==◌, if◌then◌else◌, get,
  get-put, get-remove, ◌⊎◌, inl, inr,
}
use hypergraph.Decisions.View.{Scope, top, sub, eq_scope, View, set, set_in, set_scope, set_text}
use hypergraph.State.Data
use hypergraph.State.Data.{Known, Part, State, Entry, Change, at, part_of}
use hypergraph.State.Apply.{change, known, logs_of, apply_entry}

-- The view with the value put, or deleted, at one of its keys.
unfoldable pub put_entry : Scope → Entry → View → View
put_entry s (Data.meta v) view = record view { metas = set_scope view.metas s v }
put_entry s (Data.epochs v) view = record view { epochs = set_scope view.epochs s v }
put_entry s (Data.member id v) view = record view { member = set_in view.member s id v }
put_entry s (Data.revoked id v) view = record view { revoked = set_in view.revoked s id v }
put_entry s (Data.cut id v) view = record view { cut = set_in view.cut s id v }
put_entry s (Data.admit id v) view = record view { admit = set_in view.admit s id v }
put_entry s (Data.editcut id v) view = record view { editcut = set_in view.editcut s id v }
put_entry s (Data.banned id v) view = record view { banned = set_in view.banned s id v }
put_entry s (Data.moderated id v) view = record view { moderated = set_in view.moderated s id v }
put_entry s (Data.redeemed invite id v) view = record view {
  redeemed = set_in view.redeemed s invite (set (view.redeemed s invite) id v);
}
put_entry s (Data.uses invite v) view = record view { uses = set_in view.uses s invite v }

unfoldable pub put_change : Change → View → View
unfolding put_entry
put_change (at s e) view = put_entry s e view
put_change (Data.writer key v) view = record view { writer = set view.writer key v }
put_change (Data.writers id v) view = record view { writers = set view.writers id v }
put_change (Data.gone id device v) view = record view {
  gone = set view.gone id (set (view.gone id) device v);
}
put_change (Data.role name v) view = record view { role = set_text view.role name v }
put_change (Data.subspace key v) view = record view { subspace = set view.subspace key v }
put_change (Data.subspaces v) view = record view { subspaces = v }
put_change (Data.listed log v) view = record view { listed = set view.listed log v }
put_change (Data.types v) view = record view { types = v }
put_change (Data.types_at version v) view = record view { types_at = set view.types_at version v }

-- One scope's maps have at each key what the view has there.
pub record IsPartOf (view : View) (s : Scope) (p : Part) : Type 0 where
  pub meta : p.meta ≡ view.metas s
  pub epochs : p.epochs ≡ view.epochs s
  pub members : (id : ℕ) → get p.members id ≡ known (view.member s id)
  pub revoked : (id : ℕ) → get p.revoked id ≡ view.revoked s id
  pub cuts : (id : ℕ) → get p.cuts id ≡ logs_of (view.cut s id)
  pub admits : (id : ℕ) → get p.admits id ≡ view.admit s id
  pub editcuts : (id : ℕ) → get p.editcuts id ≡ view.editcut s id
  pub banned : (id : ℕ) → get p.banned id ≡ view.banned s id
  pub moderated : (id : ℕ) → get p.moderated id ≡ view.moderated s id

pub get-change {ℓ} :
    {V : Type ℓ} (m : List (ℕ × V)) (k j : ℕ) (v : Option V)
    → get (change m k v) j ≡ (if k == j then v else get m j)
get-change m k j none = get-remove m k j
get-change m k j (some v) = get-put m k j v

pub eq_scope_refl : (s : Scope) → eq_scope s s ≡ true
eq_scope_refl top = refl
eq_scope_refl (sub k) = ground arith

pub eq_scope_cases : (s t : Scope) → (s ≡ t) ⊎ (eq_scope s t ≡ false)
eq_scope_cases top top = inl refl
eq_scope_cases top (sub k) = inr refl
eq_scope_cases (sub j) top = inr refl
eq_scope_cases (sub j) (sub k) = ground arith

-- The record from its fields in order.
pub is_part :
    {view : View} {s : Scope} {p : Part}
    → p.meta ≡ view.metas s
    → p.epochs ≡ view.epochs s
    → ((id : ℕ) → get p.members id ≡ known (view.member s id))
    → ((id : ℕ) → get p.revoked id ≡ view.revoked s id)
    → ((id : ℕ) → get p.cuts id ≡ logs_of (view.cut s id))
    → ((id : ℕ) → get p.admits id ≡ view.admit s id)
    → ((id : ℕ) → get p.editcuts id ≡ view.editcut s id)
    → ((id : ℕ) → get p.banned id ≡ view.banned s id)
    → ((id : ℕ) → get p.moderated id ≡ view.moderated s id)
    → IsPartOf view s p
is_part a b c d e f g h i = record {
  meta = a;
  epochs = b;
  members = c;
  revoked = d;
  cuts = e;
  admits = f;
  editcuts = g;
  banned = h;
  moderated = i;
}

module _ {ℓ κ} {V : Type ℓ} {W : Type κ} (f : Option V → Option W) (w : Scope → ℕ → Option V) where
  -- a map that follows the view's values still does after the same change
  changed_here :
      (s : Scope) (m : List (ℕ × W)) (i : ℕ) (v : Option V)
      → ((j : ℕ) → get m j ≡ f (w s j))
      → (j : ℕ) → get (change m i (f v)) j ≡ f (set_in w s i v s j)
  changed_here s m i v h j = rw (eq_scope_refl s, get-change m i j (f v), h j) (if_f (i == j))
    where
      if_f : (b : Bool) → (if b then f v else f (w s j)) ≡ f (if b then v else w s j)
      if_f true = refl
      if_f false = refl

  changed_elsewhere :
      (s t : Scope) (m : List (ℕ × W)) (i : ℕ) (v : Option V)
      → eq_scope s t ≡ false
      → ((j : ℕ) → get m j ≡ f (w t j))
      → (j : ℕ) → get m j ≡ f (set_in w s i v t j)
  changed_elsewhere s t m i v e h j = rw (e) (h j)

-- The entry's own scope follows.
pub apply_entry-IsPartOf :
    (view : View) (s : Scope) (e : Entry) (p : Part)
    → IsPartOf view s p
    → IsPartOf (put_entry s e view) s (apply_entry e p)
unfolding apply_entry put_entry
apply_entry-IsPartOf view s (Data.meta v) p h =
    is_part (rw (eq_scope_refl s) refl) h.epochs h.members h.revoked h.cuts h.admits h.editcuts
      h.banned h.moderated
apply_entry-IsPartOf view s (Data.epochs v) p h =
    is_part h.meta (rw (eq_scope_refl s) refl) h.members h.revoked h.cuts h.admits h.editcuts
      h.banned h.moderated
apply_entry-IsPartOf view s (Data.member i v) p h =
    is_part h.meta h.epochs (changed_here known view.member s p.members i v h.members) h.revoked
      h.cuts h.admits h.editcuts h.banned h.moderated
apply_entry-IsPartOf view s (Data.revoked i v) p h =
    is_part h.meta h.epochs h.members (changed_here (λ o. o) view.revoked s p.revoked i v h.revoked)
      h.cuts h.admits h.editcuts h.banned h.moderated
apply_entry-IsPartOf view s (Data.cut i v) p h =
    is_part h.meta h.epochs h.members h.revoked (changed_here logs_of view.cut s p.cuts i v h.cuts)
      h.admits h.editcuts h.banned h.moderated
apply_entry-IsPartOf view s (Data.admit i v) p h =
    is_part h.meta h.epochs h.members h.revoked h.cuts
      (changed_here (λ o. o) view.admit s p.admits i v h.admits) h.editcuts h.banned h.moderated
apply_entry-IsPartOf view s (Data.editcut i v) p h =
    is_part h.meta h.epochs h.members h.revoked h.cuts h.admits
      (changed_here (λ o. o) view.editcut s p.editcuts i v h.editcuts) h.banned h.moderated
apply_entry-IsPartOf view s (Data.banned i v) p h =
    is_part h.meta h.epochs h.members h.revoked h.cuts h.admits h.editcuts
      (changed_here (λ o. o) view.banned s p.banned i v h.banned) h.moderated
apply_entry-IsPartOf view s (Data.moderated i v) p h =
    is_part h.meta h.epochs h.members h.revoked h.cuts h.admits h.editcuts h.banned
      (changed_here (λ o. o) view.moderated s p.moderated i v h.moderated)
apply_entry-IsPartOf view s (Data.redeemed j i v) p h =
    is_part h.meta h.epochs h.members h.revoked h.cuts h.admits h.editcuts h.banned h.moderated
apply_entry-IsPartOf view s (Data.uses j v) p h =
    is_part h.meta h.epochs h.members h.revoked h.cuts h.admits h.editcuts h.banned h.moderated

-- Another scope is as it was.
pub put_entry-IsPartOf :
    (view : View) (s t : Scope) (e : Entry) (p : Part)
    → eq_scope s t ≡ false
    → IsPartOf view t p
    → IsPartOf (put_entry s e view) t p
unfolding put_entry
put_entry-IsPartOf view s t (Data.meta v) p n h =
    is_part (rw (n) h.meta) h.epochs h.members h.revoked h.cuts h.admits h.editcuts h.banned
      h.moderated
put_entry-IsPartOf view s t (Data.epochs v) p n h =
    is_part h.meta (rw (n) h.epochs) h.members h.revoked h.cuts h.admits h.editcuts h.banned
      h.moderated
put_entry-IsPartOf view s t (Data.member i v) p n h =
    is_part h.meta h.epochs (changed_elsewhere known view.member s t p.members i v n h.members)
      h.revoked h.cuts h.admits h.editcuts h.banned h.moderated
put_entry-IsPartOf view s t (Data.revoked i v) p n h =
    is_part h.meta h.epochs h.members
      (changed_elsewhere (λ o. o) view.revoked s t p.revoked i v n h.revoked) h.cuts h.admits
      h.editcuts h.banned h.moderated
put_entry-IsPartOf view s t (Data.cut i v) p n h =
    is_part h.meta h.epochs h.members h.revoked
      (changed_elsewhere logs_of view.cut s t p.cuts i v n h.cuts) h.admits h.editcuts h.banned
      h.moderated
put_entry-IsPartOf view s t (Data.admit i v) p n h =
    is_part h.meta h.epochs h.members h.revoked h.cuts
      (changed_elsewhere (λ o. o) view.admit s t p.admits i v n h.admits) h.editcuts h.banned
      h.moderated
put_entry-IsPartOf view s t (Data.editcut i v) p n h =
    is_part h.meta h.epochs h.members h.revoked h.cuts h.admits
      (changed_elsewhere (λ o. o) view.editcut s t p.editcuts i v n h.editcuts) h.banned h.moderated
put_entry-IsPartOf view s t (Data.banned i v) p n h =
    is_part h.meta h.epochs h.members h.revoked h.cuts h.admits h.editcuts
      (changed_elsewhere (λ o. o) view.banned s t p.banned i v n h.banned) h.moderated
put_entry-IsPartOf view s t (Data.moderated i v) p n h =
    is_part h.meta h.epochs h.members h.revoked h.cuts h.admits h.editcuts h.banned
      (changed_elsewhere (λ o. o) view.moderated s t p.moderated i v n h.moderated)
put_entry-IsPartOf view s t (Data.redeemed j i v) p n h =
    is_part h.meta h.epochs h.members h.revoked h.cuts h.admits h.editcuts h.banned h.moderated
put_entry-IsPartOf view s t (Data.uses j v) p n h =
    is_part h.meta h.epochs h.members h.revoked h.cuts h.admits h.editcuts h.banned h.moderated
