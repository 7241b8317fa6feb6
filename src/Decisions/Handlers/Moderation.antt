-- ===== src/Decisions/Handlers/Moderation.antt =====
-- `moderate` in applyOne of lib/decisions/apply.js: bans, and the moderation of records.
use hypergraph.Prelude.{
  ℕ, Bool, true, false, not, ◌&&◌, ◌||◌, Option, none, some, [], ◌∷◌, String, str_eq, ◌==◌,
  if◌then◌else◌, is_some, ltb,
}
use hypergraph.Roles.{Role, Table, moderate, post, can, may_remove, rank_of, is_owner}
use hypergraph.Decisions.Data.{
  Env, CutEntries, Action, flag, hide, reveal, remove, ban, unban, unknown, Target,
}
use hypergraph.Decisions.View.{Scope, Moderated, Tx, set_member, set_banned, set_moderated}
use hypergraph.Decisions.Chain.{role_in, scope_of, load}
use hypergraph.Decisions.Writers.{settle}
use hypergraph.Decisions.Cuts.{record_cut, lost_permissions, record_edit_cuts, drop_all}
use hypergraph.Decisions.Handlers.Members.{Context}

abbrev pub is_all : Option String → Bool
is_all none = false
is_all (some drop) = str_eq drop "all"

abbrev pub drop_if : Bool → Scope → ℕ → CutEntries → ℕ → Tx → Tx
drop_if all s id cut stamp tx = if all then drop_all s id cut stamp tx else tx

abbrev pub has_entries : CutEntries → Bool
has_entries [] = false
has_entries (e ∷ entries) = true

-- Somebody with a role here goes out.
unfoldable pub ban_member : Env → Context → ℕ → CutEntries → Bool → Option Role → Table → Tx → Tx
ban_member env c id cut all role table tx =
    let s = scope_of c.chain in
    let out = set_member s id none tx in
    let cut_tx = if can role post table then record_cut s id cut c.stamp out else out in
    settle env id table (
      drop_if all s id cut c.stamp
        (record_edit_cuts s id (lost_permissions role none table) cut cut_tx))

-- Somebody with no role here may write in a sub-space below.
unfoldable pub ban_stranger : Env → Context → ℕ → CutEntries → Bool → Table → Tx → Tx
ban_stranger env c id cut all table tx =
    let s = scope_of c.chain in
    let cut_tx = if has_entries cut then record_cut s id cut c.stamp tx else tx in
    settle env id table (drop_if all s id cut c.stamp cut_tx)

unfoldable pub apply_ban : Env → Context → ℕ → String → CutEntries → Option String → Tx → Tx
unfolding ban_member ban_stranger
apply_ban env c id reason cut drop tx =
    let s = scope_of c.chain in
    if is_some (tx.view.banned s id)
    then drop_if (is_all drop) s id cut c.stamp tx
    else let role = role_in tx.view c.chain id in
      let table = load tx.view role c.table in
      if not (may_remove c.role role moderate table)
      then tx
      else let banned =
          set_banned s id
            (some
              (record { by = c.author; reason = reason; stamp = c.stamp; drops_all = is_all drop }))
            tx in
        if is_some role
        then ban_member env c id cut (is_all drop) role table banned
        else ban_stranger env c id cut (is_all drop) table banned

unfoldable pub apply_unban : Context → ℕ → Tx → Tx
apply_unban c id tx = elim (tx.view.banned (scope_of c.chain) id) [
  | none ↦ tx
  | some found ↦
      let by_role = role_in tx.view c.chain found.by in
      if not (is_owner c.role) && is_some by_role && ltb (rank_of c.role) (rank_of by_role)
      then tx
      else set_banned (scope_of c.chain) id none tx
]

abbrev pub unmoderated : Moderated
unmoderated = record { flagged = false; hidden = false; removed = false }

abbrev pub moderated_or : Option Moderated → Moderated
moderated_or none = unmoderated
moderated_or (some m) = m

unfoldable pub mark : Action → Moderated → Moderated
mark flag m = record m { flagged = true }
mark hide m = record m { hidden = true }
mark reveal m = record m { hidden = false }
mark remove m = record m { removed = true }
mark _ m = m

unfoldable pub moderate_record : Env → Context → Action → Target → Tx → Tx
unfolding mark
moderate_record env c action target tx =
    let s = scope_of c.chain in
    let m = moderated_or (tx.view.moderated s target.bytes) in
    if not (env.is_record_id target) || m.removed
    then tx
    else set_moderated s target.bytes (some (mark action m)) tx

-- The action's own part, `moderate` being held.
unfoldable pub act : Env → Context → Action → Target → String → CutEntries → Option String → Tx → Tx
unfolding apply_ban apply_unban moderate_record
act env c (unknown name) target reason cut drop tx = tx
act env c ban target reason cut drop tx =
    if target.byte_length == 32 then apply_ban env c target.bytes reason cut drop tx else tx
act env c unban target reason cut drop tx =
    if target.byte_length == 32 then apply_unban c target.bytes tx else tx
act env c action target reason cut drop tx = moderate_record env c action target tx

unfoldable pub apply_moderate :
    Env → Context → Action → Target → String → CutEntries → Option String → Tx → Tx
unfolding act
apply_moderate env c action target reason cut drop tx =
    if can c.role moderate c.table then act env c action target reason cut drop tx else tx
