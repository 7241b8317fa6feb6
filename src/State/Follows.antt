-- ===== src/State/Follows.antt =====
-- The state that lib/decisions/log.js keeps from the view's changes, against the view itself.
use hypergraph.Prelude.{
  ℕ, ◌≡◌, refl, sym, subst, Bool, true, false, not, ◌&&◌, Option, none, some, List, [], ◌∷◌, ◌++◌,
  String, str_eq, eq_iff, arith, ◌==◌, if◌then◌else◌, keep, get, get_text, get-put,
  get_text-put_text, inl, inr, is_some, if_splits,
}
use hypergraph.Roles.{Permission, Table}
use hypergraph.Decisions.View.{Scope, top, sub, eq_scope, View, set, set_text, Stamped, RoleEntry}
use hypergraph.State.Data
use hypergraph.State.Data.{Known, Part, State, Entry, Change, at, part_of, new_state}
use hypergraph.State.Apply.{
  change, remove_text, identity_of, permissions_in, version_or, has_pair, is_pair, change_pair,
  change_text, apply_entry, set_part, apply, apply_all,
}
use hypergraph.State.Parts.{
  put_entry, put_change, IsPartOf, is_part, eq_scope_refl, eq_scope_cases, get-change,
  apply_entry-IsPartOf, put_entry-IsPartOf,
}

-- Every map of the state has at each key what the view has there.
pub record Follows (view : View) (state : State) : Type 0 where
  pub parts : (s : Scope) → IsPartOf view s (part_of state s)
  pub writers : (key : ℕ) → get state.writers key ≡ identity_of (view.writer key)
  pub writer_info : (key : ℕ) → get state.writer_info key ≡ view.writer key
  pub gone : (id device : ℕ) → has_pair state.gone id device ≡ is_some (view.gone id device)
  pub roles : (name : String) → get_text state.roles name ≡ permissions_in (view.role name)
  pub subspaces : (key : ℕ) → get state.subspaces key ≡ view.subspace key
  pub listed : (log : ℕ) → get state.listed log ≡ view.listed log
  pub types_version : state.types_version ≡ version_or view.types
  pub type_versions : (version : ℕ) → get state.type_versions version ≡ view.types_at version

module _ {ℓ κ} {V : Type ℓ} {W : Type κ} (f : Option V → Option W) (w : ℕ → Option V) where
  changed :
      (m : List (ℕ × W)) (i : ℕ) (v : Option V)
      → ((j : ℕ) → get m j ≡ f (w j))
      → (j : ℕ) → get (change m i (f v)) j ≡ f (set w i v j)
  changed m i v h j = rw (get-change m i j (f v), h j) (if_f (i == j))
    where
      if_f : (b : Bool) → (if b then f v else f (w j)) ≡ f (if b then v else w j)
      if_f true = refl
      if_f false = refl

get_text-remove_text {ℓ} :
    {V : Type ℓ} (m : List (String × V)) (k j : String)
    → get_text (remove_text m k) j ≡ (if str_eq k j then none else get_text m j)
unfolding get_text remove_text
get_text-remove_text [] k j = ground arith
get_text-remove_text ((i, w) ∷ m) k j =
    ground (arith, eq_iff k j, eq_iff i k, eq_iff i j, get_text-remove_text m k j)

get_text-change_text :
    (m : Table) (k j : String) (v : Option (List Permission))
    → get_text (change_text m k v) j ≡ (if str_eq k j then v else get_text m j)
get_text-change_text m k j none = get_text-remove_text m k j
get_text-change_text m k j (some v) = get_text-put_text m k j v

changed_text :
    (m : Table) (w : String → Option RoleEntry) (i : String) (v : Option RoleEntry)
    → ((j : String) → get_text m j ≡ permissions_in (w j))
    → (j : String)
    → get_text (change_text m i (permissions_in v)) j ≡ permissions_in (set_text w i v j)
changed_text m w i v h j =
    rw (get_text-change_text m i j (permissions_in v), h j) (if_f (str_eq i j))
  where
    if_f :
        (b : Bool)
        → (if b then permissions_in v else permissions_in (w j))
          ≡ permissions_in (if b then v else w j)
    if_f true = refl
    if_f false = refl

has_pair-keep :
    (m : List (ℕ × ℕ)) (i d j e : ℕ)
    → has_pair (keep (λ p. not (is_pair i d p)) m) j e
      ≡ (if i == j && d == e then false else has_pair m j e)
has_pair-keep [] i d j e = ground arith
has_pair-keep ((a, b) ∷ m) i d j e = ground (arith, has_pair-keep m i d j e)

has_pair-append :
    (m : List (ℕ × ℕ)) (i d j e : ℕ)
    → has_pair (m ++ (i, d) ∷ []) j e ≡ (if i == j && d == e then true else has_pair m j e)
has_pair-append [] i d j e = ground arith
has_pair-append ((a, b) ∷ m) i d j e = ground (arith, has_pair-append m i d j e)

has_pair-change_pair {ℓ} :
    {V : Type ℓ} (m : List (ℕ × ℕ)) (i d : ℕ) (v : Option V) (j e : ℕ)
    → has_pair (change_pair m i d v) j e ≡ (if i == j && d == e then is_some v else has_pair m j e)
has_pair-change_pair m i d none j e = has_pair-keep m i d j e
has_pair-change_pair m i d (some v) j e =
    if_splits (has_pair m i d)
      (λ r. has_pair r j e ≡ (if i == j && d == e then true else has_pair m j e))
      (λ h. ground (arith, h)) (λ h. has_pair-append m i d j e)

changed_pair :
    (m : List (ℕ × ℕ)) (w : ℕ → ℕ → Option Stamped) (i d : ℕ) (v : Option Stamped)
    → ((j e : ℕ) → has_pair m j e ≡ is_some (w j e))
    → (j e : ℕ) → has_pair (change_pair m i d v) j e ≡ is_some (set w i (set (w i) d v) j e)
changed_pair m w i d v h j e = ground (arith, has_pair-change_pair m i d v j e, h j e)

pub part_of-set_part :
    (s t : Scope) (p : Part) (state : State)
    → eq_scope s t ≡ false
    → part_of (set_part s p state) t ≡ part_of state t
unfolding part_of
part_of-set_part top top p state h = ground arith
part_of-set_part top (sub k) p state h = refl
part_of-set_part (sub j) top p state h = refl
part_of-set_part (sub j) (sub k) p state h = rw (get-put state.scoped j k p, h) refl

pub part_of-same : (s : Scope) (p : Part) (state : State) → part_of (set_part s p state) s ≡ p
unfolding part_of
part_of-same top p state = refl
part_of-same (sub k) p state = rw (get-put state.scoped k k p, eq_scope_refl (sub k)) refl

-- The maps of every scope follow when one of its entries changes.
module _ {view : View} {state : State} (h : Follows view state) where
  part_of-IsPartOf :
      (s t : Scope) (e : Entry)
      → IsPartOf
          (put_entry s e view)
          t
          (part_of (set_part s (apply_entry e (part_of state s)) state) t)
  part_of-IsPartOf s t e = elim (eq_scope_cases s t) [
    | inl p ↦
        subst
          (λ u.
            IsPartOf (put_entry s e view) u
              (part_of (set_part s (apply_entry e (part_of state s)) state) u))
          p
          (subst (IsPartOf (put_entry s e view) s)
            (sym (part_of-same s (apply_entry e (part_of state s)) state))
            (apply_entry-IsPartOf view s e (part_of state s) (h.parts s)))
    | inr n ↦
        subst (IsPartOf (put_entry s e view) t)
          (sym (part_of-set_part s t (apply_entry e (part_of state s)) state n))
          (put_entry-IsPartOf view s t e (part_of state t) n (h.parts t))
  ]

follow_all :
    {view : View} {state : State}
    → ((s : Scope) → IsPartOf view s (part_of state s))
    → ((key : ℕ) → get state.writers key ≡ identity_of (view.writer key))
    → ((key : ℕ) → get state.writer_info key ≡ view.writer key)
    → ((id device : ℕ) → has_pair state.gone id device ≡ is_some (view.gone id device))
    → ((name : String) → get_text state.roles name ≡ permissions_in (view.role name))
    → ((key : ℕ) → get state.subspaces key ≡ view.subspace key)
    → ((log : ℕ) → get state.listed log ≡ view.listed log)
    → (state.types_version ≡ version_or view.types)
    → ((version : ℕ) → get state.type_versions version ≡ view.types_at version)
    → Follows view state
follow_all a b c d e f g h i = record {
  parts = a;
  writers = b;
  writer_info = c;
  gone = d;
  roles = e;
  subspaces = f;
  listed = g;
  types_version = h;
  type_versions = i;
}

at-Follows :
    (s : Scope) (e : Entry) (view : View) (state : State)
    → Follows view state
    → Follows (put_entry s e view) (set_part s (apply_entry e (part_of state s)) state)
unfolding put_entry
at-Follows top (Data.meta v) view state h =
    follow_all (λ t. part_of-IsPartOf h top t (Data.meta v)) h.writers h.writer_info h.gone h.roles
      h.subspaces h.listed h.types_version h.type_versions
at-Follows (sub k) (Data.meta v) view state h =
    follow_all (λ t. part_of-IsPartOf h (sub k) t (Data.meta v)) h.writers h.writer_info h.gone
      h.roles h.subspaces h.listed h.types_version h.type_versions
at-Follows top (Data.epochs v) view state h =
    follow_all (λ t. part_of-IsPartOf h top t (Data.epochs v)) h.writers h.writer_info h.gone
      h.roles h.subspaces h.listed h.types_version h.type_versions
at-Follows (sub k) (Data.epochs v) view state h =
    follow_all (λ t. part_of-IsPartOf h (sub k) t (Data.epochs v)) h.writers h.writer_info h.gone
      h.roles h.subspaces h.listed h.types_version h.type_versions
at-Follows top (Data.member i v) view state h =
    follow_all (λ t. part_of-IsPartOf h top t (Data.member i v)) h.writers h.writer_info h.gone
      h.roles h.subspaces h.listed h.types_version h.type_versions
at-Follows (sub k) (Data.member i v) view state h =
    follow_all (λ t. part_of-IsPartOf h (sub k) t (Data.member i v)) h.writers h.writer_info h.gone
      h.roles h.subspaces h.listed h.types_version h.type_versions
at-Follows top (Data.revoked i v) view state h =
    follow_all (λ t. part_of-IsPartOf h top t (Data.revoked i v)) h.writers h.writer_info h.gone
      h.roles h.subspaces h.listed h.types_version h.type_versions
at-Follows (sub k) (Data.revoked i v) view state h =
    follow_all (λ t. part_of-IsPartOf h (sub k) t (Data.revoked i v)) h.writers h.writer_info h.gone
      h.roles h.subspaces h.listed h.types_version h.type_versions
at-Follows top (Data.cut i v) view state h =
    follow_all (λ t. part_of-IsPartOf h top t (Data.cut i v)) h.writers h.writer_info h.gone h.roles
      h.subspaces h.listed h.types_version h.type_versions
at-Follows (sub k) (Data.cut i v) view state h =
    follow_all (λ t. part_of-IsPartOf h (sub k) t (Data.cut i v)) h.writers h.writer_info h.gone
      h.roles h.subspaces h.listed h.types_version h.type_versions
at-Follows top (Data.admit i v) view state h =
    follow_all (λ t. part_of-IsPartOf h top t (Data.admit i v)) h.writers h.writer_info h.gone
      h.roles h.subspaces h.listed h.types_version h.type_versions
at-Follows (sub k) (Data.admit i v) view state h =
    follow_all (λ t. part_of-IsPartOf h (sub k) t (Data.admit i v)) h.writers h.writer_info h.gone
      h.roles h.subspaces h.listed h.types_version h.type_versions
at-Follows top (Data.editcut i v) view state h =
    follow_all (λ t. part_of-IsPartOf h top t (Data.editcut i v)) h.writers h.writer_info h.gone
      h.roles h.subspaces h.listed h.types_version h.type_versions
at-Follows (sub k) (Data.editcut i v) view state h =
    follow_all (λ t. part_of-IsPartOf h (sub k) t (Data.editcut i v)) h.writers h.writer_info h.gone
      h.roles h.subspaces h.listed h.types_version h.type_versions
at-Follows top (Data.banned i v) view state h =
    follow_all (λ t. part_of-IsPartOf h top t (Data.banned i v)) h.writers h.writer_info h.gone
      h.roles h.subspaces h.listed h.types_version h.type_versions
at-Follows (sub k) (Data.banned i v) view state h =
    follow_all (λ t. part_of-IsPartOf h (sub k) t (Data.banned i v)) h.writers h.writer_info h.gone
      h.roles h.subspaces h.listed h.types_version h.type_versions
at-Follows top (Data.moderated i v) view state h =
    follow_all (λ t. part_of-IsPartOf h top t (Data.moderated i v)) h.writers h.writer_info h.gone
      h.roles h.subspaces h.listed h.types_version h.type_versions
at-Follows (sub k) (Data.moderated i v) view state h =
    follow_all (λ t. part_of-IsPartOf h (sub k) t (Data.moderated i v)) h.writers h.writer_info
      h.gone h.roles h.subspaces h.listed h.types_version h.type_versions
at-Follows top (Data.redeemed j i v) view state h =
    follow_all (λ t. part_of-IsPartOf h top t (Data.redeemed j i v)) h.writers h.writer_info h.gone
      h.roles h.subspaces h.listed h.types_version h.type_versions
at-Follows (sub k) (Data.redeemed j i v) view state h =
    follow_all (λ t. part_of-IsPartOf h (sub k) t (Data.redeemed j i v)) h.writers h.writer_info
      h.gone h.roles h.subspaces h.listed h.types_version h.type_versions
at-Follows top (Data.uses j v) view state h =
    follow_all (λ t. part_of-IsPartOf h top t (Data.uses j v)) h.writers h.writer_info h.gone
      h.roles h.subspaces h.listed h.types_version h.type_versions
at-Follows (sub k) (Data.uses j v) view state h =
    follow_all (λ t. part_of-IsPartOf h (sub k) t (Data.uses j v)) h.writers h.writer_info h.gone
      h.roles h.subspaces h.listed h.types_version h.type_versions

apply-Follows :
    (c : Change) (view : View) (state : State)
    → Follows view state
    → Follows (put_change c view) (apply c state)
unfolding apply put_change part_of
apply-Follows (at s e) view state h = at-Follows s e view state h
apply-Follows (Data.writer key v) view state h =
    follow_all
      (λ s.
        is_part (h.parts s).meta (h.parts s).epochs (h.parts s).members (h.parts s).revoked
          (h.parts s).cuts (h.parts s).admits (h.parts s).editcuts (h.parts s).banned
          (h.parts s).moderated)
      (changed identity_of view.writer state.writers key v h.writers)
      (changed (λ o. o) view.writer state.writer_info key v h.writer_info) h.gone h.roles
      h.subspaces h.listed h.types_version h.type_versions
apply-Follows (Data.writers id v) view state h =
    follow_all
      (λ s.
        is_part (h.parts s).meta (h.parts s).epochs (h.parts s).members (h.parts s).revoked
          (h.parts s).cuts (h.parts s).admits (h.parts s).editcuts (h.parts s).banned
          (h.parts s).moderated)
      h.writers h.writer_info h.gone h.roles h.subspaces h.listed h.types_version h.type_versions
apply-Follows (Data.gone id device v) view state h =
    follow_all
      (λ s.
        is_part (h.parts s).meta (h.parts s).epochs (h.parts s).members (h.parts s).revoked
          (h.parts s).cuts (h.parts s).admits (h.parts s).editcuts (h.parts s).banned
          (h.parts s).moderated)
      h.writers h.writer_info (changed_pair state.gone view.gone id device v h.gone) h.roles
      h.subspaces h.listed h.types_version h.type_versions
apply-Follows (Data.role name v) view state h =
    follow_all
      (λ s.
        is_part (h.parts s).meta (h.parts s).epochs (h.parts s).members (h.parts s).revoked
          (h.parts s).cuts (h.parts s).admits (h.parts s).editcuts (h.parts s).banned
          (h.parts s).moderated)
      h.writers h.writer_info h.gone (changed_text state.roles view.role name v h.roles) h.subspaces
      h.listed h.types_version h.type_versions
apply-Follows (Data.subspace key v) view state h =
    follow_all
      (λ s.
        is_part (h.parts s).meta (h.parts s).epochs (h.parts s).members (h.parts s).revoked
          (h.parts s).cuts (h.parts s).admits (h.parts s).editcuts (h.parts s).banned
          (h.parts s).moderated)
      h.writers h.writer_info h.gone h.roles
      (changed (λ o. o) view.subspace state.subspaces key v h.subspaces) h.listed h.types_version
      h.type_versions
apply-Follows (Data.subspaces v) view state h =
    follow_all
      (λ s.
        is_part (h.parts s).meta (h.parts s).epochs (h.parts s).members (h.parts s).revoked
          (h.parts s).cuts (h.parts s).admits (h.parts s).editcuts (h.parts s).banned
          (h.parts s).moderated)
      h.writers h.writer_info h.gone h.roles h.subspaces h.listed h.types_version h.type_versions
apply-Follows (Data.listed log v) view state h =
    follow_all
      (λ s.
        is_part (h.parts s).meta (h.parts s).epochs (h.parts s).members (h.parts s).revoked
          (h.parts s).cuts (h.parts s).admits (h.parts s).editcuts (h.parts s).banned
          (h.parts s).moderated)
      h.writers h.writer_info h.gone h.roles h.subspaces
      (changed (λ o. o) view.listed state.listed log v h.listed) h.types_version h.type_versions
apply-Follows (Data.types v) view state h =
    follow_all
      (λ s.
        is_part (h.parts s).meta (h.parts s).epochs (h.parts s).members (h.parts s).revoked
          (h.parts s).cuts (h.parts s).admits (h.parts s).editcuts (h.parts s).banned
          (h.parts s).moderated)
      h.writers h.writer_info h.gone h.roles h.subspaces h.listed refl h.type_versions
apply-Follows (Data.types_at version v) view state h =
    follow_all
      (λ s.
        is_part (h.parts s).meta (h.parts s).epochs (h.parts s).members (h.parts s).revoked
          (h.parts s).cuts (h.parts s).admits (h.parts s).editcuts (h.parts s).banned
          (h.parts s).moderated)
      h.writers h.writer_info h.gone h.roles h.subspaces h.listed h.types_version
      (changed (λ o. o) view.types_at state.type_versions version v h.type_versions)

unfoldable pub put_all : List Change → View → View
unfolding put_change
put_all [] view = view
put_all (c ∷ changes) view = put_all changes (put_change c view)

-- The state kept follows the view: if each map of it has at each key what the view has there, it
-- still does when any changes of the view, in their order, were applied to it in place.
pub apply_all-Follows :
    (changes : List Change) (view : View) (state : State)
    → Follows view state
    → Follows (put_all changes view) (apply_all changes state)
unfolding apply_all put_all
apply_all-Follows [] view state h = h
apply_all-Follows (c ∷ changes) view state h =
    apply_all-Follows changes (put_change c view) (apply c state) (apply-Follows c view state h)

-- A view with no entry.
abbrev pub empty_view : View
empty_view = record {
  metas = λ s. none;
  member = λ s id. none;
  banned = λ s id. none;
  cut = λ s id. none;
  editcut = λ s id. none;
  admit = λ s id. none;
  moderated = λ s id. none;
  redeemed = λ s invite id. none;
  uses = λ s id. none;
  revoked = λ s id. none;
  epochs = λ s. none;
  writer = λ key. none;
  writers = λ id. none;
  gone = λ id device. none;
  role = λ name. none;
  subspace = λ key. none;
  subspaces = none;
  types = none;
  types_at = λ version. none;
  listed = λ log. none;
}

new_part-IsPartOf : (s : Scope) → IsPartOf empty_view s (part_of new_state s)
unfolding get part_of
new_part-IsPartOf top =
    is_part refl refl (λ i. refl) (λ i. refl) (λ i. refl) (λ i. refl) (λ i. refl) (λ i. refl)
      (λ i. refl)
new_part-IsPartOf (sub key) =
    is_part refl refl (λ i. refl) (λ i. refl) (λ i. refl) (λ i. refl) (λ i. refl) (λ i. refl)
      (λ i. refl)

pub new_state-Follows : Follows empty_view new_state
unfolding get get_text
new_state-Follows =
    follow_all new_part-IsPartOf (λ k. refl) (λ k. refl) (λ i d. refl) (λ n. refl) (λ k. refl)
      (λ l. refl) refl (λ v. refl)
