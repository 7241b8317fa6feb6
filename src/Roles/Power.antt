-- ===== src/Roles/Power.antt =====
-- No escalation: a role that mayAssign or mayInvite of lib/decisions/state.js lets somebody hand
-- on holds none of hypergraph's own permissions that its giver lacks.
use hypergraph.Prelude.{◌≡◌, true, not, ◌||◌, Option, some, arith, List, [], ◌∷◌, all}
use hypergraph.Roles.{
  Role, Permission, decide, moderate, invite, roles, post, app, Table, eq_permission, has, is_own,
  permissions_of, can, may_assign, may_invite, grantable, or_empty,
}

eq_permission-eq : (p q : Permission) → is_own q ≡ true → eq_permission p q ≡ true → p ≡ q
eq_permission-eq decide q o h = ground arith
eq_permission-eq moderate q o h = ground arith
eq_permission-eq invite q o h = ground arith
eq_permission-eq roles q o h = ground arith
eq_permission-eq post q o h = ground arith
eq_permission-eq (app a) q o h = ground arith

-- an own permission in a list whose own permissions are all in another
has-all :
    (q : Permission) (perms mine : List Permission)
    → is_own q ≡ true
    → all (λ p. not (is_own p) || has p mine) perms ≡ true
    → has q perms ≡ true
    → has q mine ≡ true
has-all q [] mine o a h = ground arith
has-all q (p ∷ perms) mine o a h = ground (arith, eq_permission-eq p q, has-all q perms mine)

can-grantable :
    (author : Option Role) (q : Permission) (perms : List Permission) (table : Table)
    → is_own q ≡ true
    → grantable author perms table ≡ true
    → has q perms ≡ true
    → can author q table ≡ true
unfolding can grantable
can-grantable author q perms table o g h =
    ground (arith, has-all q perms (or_empty (permissions_of author table)))

module _ (author : Option Role) (role : Role) (table : Table) (q : Permission) where
  -- Whoever may give a role holds each of decide, moderate, invite and roles that the role holds.
  pub may_assign_power :
      (current : Option Role)
      → is_own q ≡ true
      → may_assign author current role table ≡ true
      → can (some role) q table ≡ true
      → can author q table ≡ true
  unfolding may_assign can grantable
  may_assign_power current o m h =
      ground (arith, can-grantable author q (or_empty (permissions_of (some role) table)) table)

  -- Whoever may invite to a role holds each of decide, moderate, invite and roles that the role
  -- holds.
  pub may_invite_power :
      is_own q ≡ true
      → may_invite author role table ≡ true
      → can (some role) q table ≡ true
      → can author q table ≡ true
  unfolding may_invite can grantable
  may_invite_power o m h =
      ground (arith, can-grantable author q (or_empty (permissions_of (some role) table)) table)
