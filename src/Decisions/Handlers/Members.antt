-- ===== src/Decisions/Handlers/Members.antt =====
-- Members and roles in applyOne of lib/decisions/apply.js: member/add, member/remove, role/define
-- and role/set.
use hypergraph.Prelude.{
  ℕ, Bool, false, not, ◌&&◌, ◌||◌, Option, none, some, List, [], ◌∷◌, String, str_eq, if◌then◌else◌,
  is_some, any, keep,
}
use hypergraph.Roles.{
  Role, member, Permission, app, Table, decide, roles, post, can, has, is_own, grantable,
  may_assign, may_remove,
}
use hypergraph.Decisions.Data.{Env, CutEntries}
use hypergraph.Decisions.View.{top, eq_scope, Member, RoleEntry, Tx, set_member, set_role}
use hypergraph.Decisions.Chain.{
  banned_in, member_in, role_in, role_of_member, scope_of, load, may_write,
}
use hypergraph.Decisions.Writers.{add_key, settle}
use hypergraph.Decisions.Cuts.{record_cut, admit, lost_permissions, record_edit_cuts, drop_below}

-- What applyOne has when it comes to its `switch`: the sub-space's chain, the author, their role
-- there, the custom roles loaded, the decision's stamp and its code.
pub record Context : Type 0 where
  pub chain : List ℕ
  pub author : ℕ
  pub role : Option Role
  pub table : Table
  pub stamp : ℕ
  pub code : ℕ

abbrev pub in_subspace : Context → Bool
in_subspace c = not (eq_scope (scope_of c.chain) top)

unfoldable pub member_add : Context → ℕ → Tx → Tx
unfolding admit
member_add c id tx =
    if in_subspace c || not (can c.role decide c.table)
    then tx
    else if is_some (role_in tx.view c.chain id) || is_some (tx.view.banned top id)
    then tx
    else admit top id (some member) c.table c.code (
        set_member top id
          (some (record {
            role = member;
            by = c.author;
            stamp = c.stamp;
            writer = none;
            writer_device = none;
          }))
          tx)

-- The cuts of somebody whose role was `before` and is `after` now, and their writer keys.
unfoldable pub lose : Env → Context → ℕ → CutEntries → Option Role → Option Role → Table → Tx → Tx
lose env c id cut before after table tx =
    let s = scope_of c.chain in
    let cut_tx =
      if can before post table && not (can after post table)
      then record_cut s id cut c.stamp tx
      else tx in
    record_edit_cuts s id (lost_permissions before after table) cut cut_tx

-- after its checks
unfoldable pub remove_member : Env → Context → ℕ → CutEntries → Option Role → Table → Tx → Tx
unfolding lose
remove_member env c id cut role table tx =
    let s = scope_of c.chain in
    let removed = drop_below s id (set_member s id none tx) in
    let after = role_in removed.view c.chain id in
    let loaded = load removed.view after table in
    settle env id loaded (lose env c id cut role after loaded removed)

unfoldable pub member_remove : Env → Context → ℕ → CutEntries → Tx → Tx
unfolding remove_member
member_remove env c id cut tx =
    let role = role_in tx.view c.chain id in
    let table = load tx.view role c.table in
    if not (is_some role) || not (may_remove c.role role decide table)
    then tx
    else if not (is_some (tx.view.member (scope_of c.chain) id))
    then tx
    else remove_member env c id cut role table tx

abbrev pub is_builtin_name : String → Bool
is_builtin_name name =
    str_eq name "owner"
    || str_eq name "admin"
    || str_eq name "moderator"
    || str_eq name "member"
    || str_eq name "guest"

abbrev pub is_empty_permission : Permission → Bool
is_empty_permission (app name) = str_eq name ""
is_empty_permission _ = false

-- [...new Set(list)]: each once, in the order of their first places
abbrev pub unique : List Permission → List Permission → List Permission
unique seen [] = []
unique seen (p ∷ perms) =
    let rest = unique (p ∷ seen) perms in
    let again = unique seen perms in if has p seen then again else p ∷ rest

-- Taking a permission that isn't hypergraph's own from a role is refused.
unfoldable pub takes_away : Option RoleEntry → List Permission → Bool
takes_away none permissions = false
takes_away (some e) permissions = any (λ p. not (is_own p) && not (has p permissions)) e.permissions

unfoldable pub role_define : Context → String → List Permission → Tx → Tx
unfolding takes_away
role_define c name list tx =
    if in_subspace c || not (can c.role roles c.table) || str_eq name "" || is_builtin_name name
    then tx
    else let permissions = unique [] (keep (λ p. not (is_empty_permission p)) list) in
      if takes_away (tx.view.role name) permissions || not (grantable c.role permissions c.table)
      then tx
      else set_role name
          (some (record { permissions = permissions; by = c.author; stamp = c.stamp })) tx

abbrev pub writer_of : Option Member → Option ℕ
writer_of none = none
writer_of (some m) = m.writer

abbrev pub writer_device_of : Option Member → Option ℕ
writer_device_of none = none
writer_device_of (some m) = m.writer_device

-- The device key kept with a member's entry, made a writer if the role may write decisions.
unfoldable pub add_kept_key : Env → ℕ → Role → Option ℕ → Option ℕ → Table → Tx → Tx
add_kept_key env id role none device table tx = tx
add_kept_key env id role (some key) device table tx =
    if may_write (some role) table then (add_key env id key device tx).1 else tx

-- after its checks
unfoldable pub give_role : Env → Context → ℕ → Role → CutEntries → Option Member → Table → Tx → Tx
unfolding lose add_kept_key
give_role env c id role cut old table tx =
    let s = scope_of c.chain in
    let given = admit s id (some role) table c.code (
      set_member s id
        (some (record {
          role = role;
          by = c.author;
          stamp = c.stamp;
          writer = writer_of old;
          writer_device = writer_device_of old;
        }))
        tx) in
    let lost =
      if is_some old
      then lose env c id cut (role_of_member old) (some role) table given
      else given in
    settle env id table (add_kept_key env id role (writer_of old) (writer_device_of old) table lost)

unfoldable pub role_set : Env → Context → ℕ → Role → CutEntries → Tx → Tx
unfolding give_role
role_set env c id role cut tx =
    if banned_in tx.view c.chain id
    then tx
    else let old = member_in tx.view c.chain id in
      let table = load tx.view (some role) (load tx.view (role_of_member old) c.table) in
      if not (may_assign c.role (role_of_member old) role table)
      then tx
      else give_role env c id role cut old table tx
