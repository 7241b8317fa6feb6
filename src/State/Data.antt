-- ===== src/State/Data.antt =====
-- What State of lib/decisions/state.js holds, and the view's entries it is kept from. `Part` has the
-- maps that a sub-space has of its own too: the source keeps a whole State for each sub-space, of
-- which SubState reads these. A Map is an association list, a Set of two ids a list of pairs.
use hypergraph.Prelude.{ℕ, zero, Option, none, some, List, [], String, get}
use hypergraph.Roles.{Role, Permission, Table}
use hypergraph.Decisions.View.{
  Scope, top, sub, Member, Writer, Ban, Cut, Moderated, Stamped, RoleEntry, Subspace, Epochs, Meta,
}

-- The view's entry less the writer keys, which only apply reads.
pub record Known : Type 0 where
  pub role : Role
  pub by : ℕ
  pub stamp : ℕ

pub record Part : Type 0 where
  pub meta : Option Meta
  pub members : List (ℕ × Known)
  pub revoked : List (ℕ × Stamped)
  pub cuts : List (ℕ × List (ℕ × ℕ))
  pub admits : List (ℕ × ℕ)
  pub editcuts : List (ℕ × List (Permission × List (ℕ × ℕ)))
  pub banned : List (ℕ × Ban)
  pub moderated : List (ℕ × Moderated)
  pub epochs : Option Epochs

pub record State : Type 0 where
  pub own : Part
  pub scoped : List (ℕ × Part)
  pub writers : List (ℕ × ℕ)
  pub writer_info : List (ℕ × Writer)
  pub gone : List (ℕ × ℕ)
  pub roles : Table
  pub subspaces : List (ℕ × Subspace)
  pub listed : List (ℕ × ℕ)
  pub types_version : ℕ
  pub type_versions : List (ℕ × String)

abbrev pub new_part : Part
new_part = record {
  meta = none;
  members = [];
  revoked = [];
  cuts = [];
  admits = [];
  editcuts = [];
  banned = [];
  moderated = [];
  epochs = none;
}

abbrev pub new_state : State
new_state = record {
  own = new_part;
  scoped = [];
  writers = [];
  writer_info = [];
  gone = [];
  roles = [];
  subspaces = [];
  listed = [];
  types_version = zero;
  type_versions = [];
}

-- An entry under a scope, its value null when it was deleted.
pub data Entry : Type 0 where
  meta : Option Meta → Entry
  epochs : Option Epochs → Entry
  member : ℕ → Option Member → Entry
  revoked : ℕ → Option Stamped → Entry
  cut : ℕ → Option Cut → Entry
  admit : ℕ → Option ℕ → Entry
  editcut : ℕ → Option (List (Permission × List (ℕ × ℕ))) → Entry
  banned : ℕ → Option Ban → Entry
  moderated : ℕ → Option Moderated → Entry
  redeemed : ℕ → ℕ → Option Stamped → Entry
  uses : ℕ → Option ℕ → Entry

-- One changed entry of the view.
pub data Change : Type 0 where
  at : Scope → Entry → Change
  writer : ℕ → Option Writer → Change
  writers : ℕ → Option (List ℕ) → Change
  gone : ℕ → ℕ → Option Stamped → Change
  role : String → Option RoleEntry → Change
  subspace : ℕ → Option Subspace → Change
  subspaces : Option (List ℕ) → Change
  listed : ℕ → Option ℕ → Change
  types : Option ℕ → Change
  types_at : ℕ → Option String → Change

abbrev pub part_or : Option Part → Part
part_or none = new_part
part_or (some part) = part

-- The entries of the space itself or of one sub-space.
unfoldable pub part_of : State → Scope → Part
part_of state top = state.own
part_of state (sub key) = part_or (get state.scoped key)
