-- ===== src/Gate.antt =====
-- Which changes and puts count: mayChange, mayEdit and mayPut of lib/gate.js, with the
-- state of a space or sub-space. Types are looked up by name; of a type, only who edits it and who
-- puts it is read here. A record's id is its log and its block number (idParts).
pub mod Logs
pub mod OwnLogs
pub mod Links
pub mod Counting
pub mod Records
pub mod Tests
use hypergraph.Prelude.{
  ℕ, Bool, true, false, Option, none, some, List, [], ◌∷◌, String, str_eq, ◌==◌, if◌then◌else◌, ltb,
}
use hypergraph.Roles.{Permission}
use hypergraph.State.Data.{State}
use hypergraph.State.Effective.{Layers}
use hypergraph.State.Limits.{Limit, up_to, unlimited, can_do, can_write, edit_limit}

pub data Editable : Type 0 where
  by_author by_members : Editable
  by_permission : Permission → Editable

-- `put`: the permission that a put of the type asks for, none for a put by anybody.
pub record TypeRules : Type 0 where
  pub editable : Editable
  pub put : Option Permission

pub record RecordId : Type 0 where
  pub log : ℕ
  pub seq : ℕ

pub data Kind : Type 0 where
  edit delete : Kind

-- { kind, type, author, id }: a change at `id`, or one about to be written
pub record ChangeRow : Type 0 where
  pub kind : Kind
  pub type : String
  pub author : ℕ
  pub id : Option RecordId

-- The indexed row that a change is about.
pub record TargetRow : Type 0 where
  pub type : String
  pub author : ℕ

-- seq < limit
abbrev pub is_below : ℕ → Limit → Bool
is_below seq (up_to length) = ltb seq length
is_below seq unlimited = true

abbrev pub editable_of : Option TypeRules → Editable
editable_of none = by_author
editable_of (some rules) = rules.editable

abbrev pub put_of : Option TypeRules → Option Permission
put_of none = none
put_of (some rules) = rules.put

module _ (types : String → Option TypeRules) (state : State) (layers : Layers) where
  -- who edits by the type's rule, the author of the record apart
  unfoldable pub edits_by : Editable → ℕ → Option RecordId → Bool
  unfolding can_write can_do edit_limit
  edits_by by_author author id = false
  edits_by by_members author none = can_write state layers author
  edits_by by_members author (some id) = true
  edits_by (by_permission p) author none = can_do state layers author p
  edits_by (by_permission p) author (some id) =
      is_below id.seq (edit_limit state layers author p id.log)

  unfoldable pub may_edit : ℕ → Option RecordId → TargetRow → Bool
  unfolding edits_by
  may_edit author id target =
      if author == target.author then true else edits_by (editable_of (types target.type)) author id

  unfoldable pub may_change : ChangeRow → TargetRow → Bool
  unfolding may_edit
  may_change change target =
      if str_eq change.type target.type
      then elim change.kind [
        | delete ↦ change.author == target.author
        | edit ↦ may_edit change.author change.id target
      ]
      else false

  unfoldable pub may_put : String → ℕ → RecordId → Bool
  unfolding edit_limit
  may_put type author id = elim (put_of (types type)) [
    | none ↦ true
    | some p ↦ is_below id.seq (edit_limit state layers author p id.log)
  ]
