-- ===== src/State/Apply.antt =====
-- State#apply and State.from of lib/decisions/state.js.
use hypergraph.Prelude.{
  ℕ, zero, Bool, ◌&&◌, Option, none, some, List, [], ◌∷◌, ◌++◌, String, str_eq, ◌==◌, not,
  if◌then◌else◌, any, keep, put, remove, put_text,
}
use hypergraph.Roles.{Permission, Table}
use hypergraph.Decisions.View.{Scope, top, sub, Member, Writer, Cut, RoleEntry}
use hypergraph.State.Data
use hypergraph.State.Data.{Known, Part, State, Entry, Change, at, new_state, part_of}

-- map.set, or map.delete for null
abbrev pub change {ℓ} : {V : Type ℓ} → List (ℕ × V) → ℕ → Option V → List (ℕ × V)
change m key none = remove m key
change m key (some v) = put m key v

unfoldable pub remove_text {ℓ} : {V : Type ℓ} → List (String × V) → String → List (String × V)
remove_text [] key = []
remove_text ((j, v) ∷ m) key =
    let rest = remove_text m key in if str_eq j key then rest else (j, v) ∷ rest

abbrev pub known : Option Member → Option Known
known none = none
known (some m) = some (record { role = m.role; by = m.by; stamp = m.stamp })

abbrev pub logs_of : Option Cut → Option (List (ℕ × ℕ))
logs_of none = none
logs_of (some cut) = some cut.logs

abbrev pub identity_of : Option Writer → Option ℕ
identity_of none = none
identity_of (some w) = some w.identity

abbrev pub permissions_in : Option RoleEntry → Option (List Permission)
permissions_in none = none
permissions_in (some e) = some e.permissions

abbrev pub version_or : Option ℕ → ℕ
version_or none = zero
version_or (some version) = version

-- A Set of pairs.
abbrev pub is_pair : ℕ → ℕ → ℕ × ℕ → Bool
is_pair id device (i, d) = i == id && d == device

abbrev pub has_pair : List (ℕ × ℕ) → ℕ → ℕ → Bool
has_pair pairs id device = any (is_pair id device) pairs

abbrev pub change_pair {ℓ} : {V : Type ℓ} → List (ℕ × ℕ) → ℕ → ℕ → Option V → List (ℕ × ℕ)
change_pair pairs id device none = keep (λ p. not (is_pair id device p)) pairs
change_pair pairs id device (some v) =
    if has_pair pairs id device then pairs else pairs ++ (id, device) ∷ []

abbrev pub change_text : Table → String → Option (List Permission) → Table
change_text m key none = remove_text m key
change_text m key (some v) = put_text m key v

-- An entry of a scope. What is not held stays out: redemptions and uses.
unfoldable pub apply_entry : Entry → Part → Part
apply_entry (Data.meta v) p = record p { meta = v }
apply_entry (Data.epochs v) p = record p { epochs = v }
apply_entry (Data.member id v) p = record p { members = change p.members id (known v) }
apply_entry (Data.revoked id v) p = record p { revoked = change p.revoked id v }
apply_entry (Data.cut id v) p = record p { cuts = change p.cuts id (logs_of v) }
apply_entry (Data.admit id v) p = record p { admits = change p.admits id v }
apply_entry (Data.editcut id v) p = record p { editcuts = change p.editcuts id v }
apply_entry (Data.banned id v) p = record p { banned = change p.banned id v }
apply_entry (Data.moderated id v) p = record p { moderated = change p.moderated id v }
apply_entry (Data.redeemed invite id v) p = p
apply_entry (Data.uses invite v) p = p

abbrev pub set_part : Scope → Part → State → State
set_part top p state = record state { own = p }
set_part (sub key) p state = record state { scoped = put state.scoped key p }

unfoldable pub apply : Change → State → State
unfolding apply_entry
apply (at scope e) state = set_part scope (apply_entry e (part_of state scope)) state
apply (Data.writer key v) state = record state {
  writers = change state.writers key (identity_of v);
  writer_info = change state.writer_info key v;
}
apply (Data.writers id v) state = state
apply (Data.gone id device v) state = record state { gone = change_pair state.gone id device v }
apply (Data.role name v) state = record state {
  roles = change_text state.roles name (permissions_in v);
}
apply (Data.subspace key v) state = record state { subspaces = change state.subspaces key v }
apply (Data.subspaces v) state = state
apply (Data.listed log v) state = record state { listed = change state.listed log v }
apply (Data.types v) state = record state { types_version = version_or v }
apply (Data.types_at version v) state = record state {
  type_versions = change state.type_versions version v;
}

-- The changes applied in place, the first one first; State.from does it on a new state.
unfoldable pub apply_all : List Change → State → State
apply_all [] state = state
apply_all (c ∷ changes) state = apply_all changes (apply c state)

unfoldable pub from : List Change → State
unfolding apply_all
from entries = apply_all entries new_state
