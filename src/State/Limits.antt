-- ===== src/State/Limits.antt =====
-- What State and SubState of lib/decisions/state.js answer about an identity: its role and
-- permissions, and how much of its logs counts.
use hypergraph.Prelude.{
  ℕ, Bool, true, false, not, ◌&&◌, ◌||◌, Option, none, some, List, [], ◌∷◌, ◌==◌, if◌then◌else◌,
  is_some, any, get, keys, ltb, leb,
}
use hypergraph.Roles
use hypergraph.Roles.{
  Role, Permission, eq_role, decide, moderate, post, is_owner, is_admin, can, may_invite,
}
use hypergraph.Decisions.Data.{InviteBody}
use hypergraph.Decisions.View.{sub, Writer, Moderated}
use hypergraph.State.Data.{State}
use hypergraph.State.Apply.{has_pair}
use hypergraph.State.Effective.{Layers, EditCuts, get_cut, banned, member, cut, editcut, layers_of}
use hypergraph.State.Settings.{is_public, part_at}

-- How much of a log counts: records below a length, or all of them (Infinity).
pub data Limit : Type 0 where
  up_to : ℕ → Limit
  unlimited : Limit

-- The length that a cut names for a log.
abbrev pub length_in : Option (List (ℕ × ℕ)) → ℕ → Option ℕ
length_in none log = none
length_in (some logs) log = get logs log

abbrev pub length_for : Option EditCuts → Permission → ℕ → Option ℕ
length_for none permission log = none
length_for (some cuts) permission log = length_in (get_cut cuts permission) log

abbrev pub limit_or : Option ℕ → Bool → Limit
limit_or (some length) holds = up_to length
limit_or none holds = if holds then unlimited else up_to 0

-- The roles that write in a sub-space with `write_roles`; none listed: every role.
abbrev pub writes_there : List Role → Option Role → Bool
writes_there [] role = true
writes_there (r ∷ only) none = false
writes_there (r ∷ only) (some role) =
    eq_role role Roles.owner || eq_role role Roles.admin || any (λ q. eq_role q role) (r ∷ only)

pub data Refusal : Type 0 where
  expired revoked used_up not_allowed : Refusal

module _ (state : State) (layers : Layers) where
  unfoldable pub role_of : ℕ → Option Role
  unfolding banned member is_public
  role_of id = elim (member state layers id) [
    | some m ↦ some m.role
    | none ↦
        if is_public state layers && not (banned state layers id) then some Roles.member else none
  ]

  unfoldable pub is_member : ℕ → Bool
  unfolding role_of
  is_member id = is_some (role_of id)

  unfoldable pub is_recorded : ℕ → Bool
  unfolding member
  is_recorded id = is_some (member state layers id)

  unfoldable pub is_revoked : ℕ → Bool
  is_revoked invite = is_some (get (part_at state layers).revoked invite)

  -- can of State
  unfoldable pub can_do : ℕ → Permission → Bool
  unfolding role_of
  can_do id permission = can (role_of id) permission state.roles

  -- inviteRefusal
  unfoldable pub invite_refusal : InviteBody → ℕ → ℕ → ℕ → Option Refusal
  unfolding is_revoked banned role_of
  invite_refusal inv id now used =
      if ltb 0 inv.expires && ltb inv.expires now
      then some expired
      else if is_revoked inv.id
      then some revoked
      else if ltb 0 inv.uses && leb inv.uses used
      then some used_up
      else if banned state layers id || not (may_invite (role_of inv.maker) inv.role state.roles)
      then some not_allowed
      else none

  unfoldable pub can_write : ℕ → Bool
  unfolding can_do role_of
  can_write id = elim layers [
    | [] ↦ can_do id post
    | l ∷ up ↦ can_do id post && writes_there l.info.write_roles (role_of id)
  ]

  unfoldable pub limit_of : ℕ → ℕ → Limit
  unfolding cut can_write
  limit_of id log = limit_or (length_in (cut state layers id) log) (can_write id)

  unfoldable pub edit_limit : ℕ → Permission → ℕ → Limit
  unfolding editcut can_do
  edit_limit id permission log =
      limit_or (length_for (editcut state layers id) permission log) (can_do id permission)

  abbrev pub names_held : EditCuts → ℕ → ℕ → Bool
  names_held [] id log = false
  names_held ((permission, logs) ∷ cuts) id log =
      is_some (get logs log) && can_do id permission || names_held cuts id log

  unfoldable pub is_edit_cut : ℕ → ℕ → Bool
  unfolding editcut can_do
  is_edit_cut id log = elim (editcut state layers id) [
    | none ↦ false
    | some cuts ↦ names_held cuts id log
  ]

  unfoldable pub is_cut : ℕ → ℕ → Bool
  unfolding cut
  is_cut id log = is_some (length_in (cut state layers id) log)

  unfoldable pub must_admit : ℕ → ℕ → Bool
  unfolding member is_public cut is_cut
  must_admit id log =
      if not (is_some (member state layers id)) && is_public state layers
      then false
      else is_some (cut state layers id) && not (is_cut id log)

  unfoldable pub moderation : ℕ → Moderated
  moderation record_id = elim (get (part_at state layers).moderated record_id) [
    | none ↦ record { flagged = false; hidden = false; removed = false }
    | some m ↦ m
  ]

  unfoldable pub is_removed : ℕ → Bool
  is_removed record_id = elim (get (part_at state layers).moderated record_id) [
    | none ↦ false
    | some m ↦ m.removed
  ]

module _ (state : State) where
  unfoldable pub is_gone : ℕ → ℕ → Bool
  is_gone id device = has_pair state.gone id device

  unfoldable pub writer_of : ℕ → Option Writer
  writer_of key = get state.writer_info key

  unfoldable pub identity_of_writer : ℕ → Option ℕ
  identity_of_writer key = get state.writers key

  abbrev pub is_device : Writer → ℕ → ℕ → Bool
  is_device w id device = elim w.device [ none ↦ false | some d ↦ w.identity == id && d == device ]

  abbrev pub keys_with : List (ℕ × Writer) → ℕ → ℕ → List ℕ
  keys_with [] id device = []
  keys_with ((key, w) ∷ infos) id device =
      let rest = keys_with infos id device in if is_device w id device then key ∷ rest else rest

  unfoldable pub writers_of_device : ℕ → ℕ → List ℕ
  writers_of_device id device = keys_with state.writer_info id device

  -- May decide or moderate, by its role in the state of a scope; false for no state.
  abbrev pub decides_in : Option Layers → ℕ → Bool
  decides_in none id = false
  decides_in (some layers) id = can_do state layers id decide || can_do state layers id moderate

  unfoldable pub writes_decisions : ℕ → Bool
  unfolding can_do layers_of
  writes_decisions id =
      can_do state [] id decide
      || can_do state [] id moderate
      || any (λ key. decides_in (layers_of state (sub key)) id) (keys state.subspaces)
