-- ===== src/Roles/Order.antt =====
-- Who may act on whom: mayAssign, mayInvite and mayRemove of lib/decisions/state.js respect the
-- rank of roles.
use hypergraph.Prelude.{◌<◌, ◌≡◌, true, false, Option, none, some, arith, ◌⊎◌, any}
use hypergraph.Roles.{
  Role, owner, member, guest, Permission, Table, eq_role, is_owner, rank_of, permissions_of, can,
  may_assign, may_invite, may_remove, is_power, roles, invite, or_empty, same_role,
}

-- Whoever may give a role holds `roles`; neither the role given nor the present one is owner, and
-- unless the giver is the owner the role given ranks below the giver's, and so does the present
-- one if there is one.
pub may_assign_rank :
    (author current : Option Role) (role : Role) (table : Table)
    → may_assign author current role table ≡ true
    → (can author roles table ≡ true)
      × (eq_role role owner ≡ false)
      × (is_owner current ≡ false)
      × ((is_owner author ≡ true)
          ⊎ ((rank_of (some role) < rank_of author)
              × ((current ≡ none) ⊎ (rank_of current < rank_of author))))
unfolding may_assign
may_assign_rank author none role table h = ground arith
may_assign_rank author (some r) role table h = ground arith

-- Whoever may take somebody out holds the permission for it, the target's role is not owner, and
-- the target is no member, or the author is the owner or ranks above the target.
pub may_remove_rank :
    (author target : Option Role) (p : Permission) (table : Table)
    → may_remove author target p table ≡ true
    → (can author p table ≡ true)
      × (is_owner target ≡ false)
      × ((target ≡ none) ⊎ (is_owner author ≡ true) ⊎ (rank_of target < rank_of author))
unfolding may_remove
may_remove_rank author none p table h = ground arith
may_remove_rank author (some r) p table h = ground arith

-- Whoever may invite to a role holds `invite`, and the role is not owner. Unless the inviter is
-- the owner, the role is member or guest, or ranks below the inviter's, or is the inviter's own
-- and has no power over others.
pub may_invite_rank :
    (maker : Option Role) (role : Role) (table : Table)
    → may_invite maker role table ≡ true
    → (can maker invite table ≡ true)
      × (eq_role role owner ≡ false)
      × ((is_owner maker ≡ true)
          ⊎ (eq_role role member ≡ true)
          ⊎ (eq_role role guest ≡ true)
          ⊎ (rank_of (some role) < rank_of maker)
          ⊎ ((same_role maker role ≡ true)
              × (any is_power (or_empty (permissions_of (some role) table)) ≡ false)))
unfolding may_invite
may_invite_rank maker role table h = ground arith
