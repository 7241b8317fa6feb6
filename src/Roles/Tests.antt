-- ===== src/Roles/Tests.antt =====
-- The rules on roles at concrete inputs.
use hypergraph.Prelude.{◌≡◌, refl, true, false, some, [], ◌∷◌, get_text}
use hypergraph.Roles.{
  admin, moderator, member, guest, custom, decide, invite, post, Table, permissions_of, can,
  grantable, may_assign, may_invite, may_remove,
}
use hypergraph.Roles.Power.{may_assign_power, may_invite_power}

program : Unit {0}
unfolding permissions_of can grantable may_assign may_invite may_remove get_text
program = tt

abbrev table : Table
table = ("host", invite ∷ post ∷ []) ∷ ("chief", decide ∷ post ∷ []) ∷ []

-- Friends invite friends to their own role, which has no power over others.
host_invites_host : may_invite (some (custom "host")) (custom "host") table ≡ true
unfolding program
host_invites_host = refl

host_invites_no_chief : may_invite (some (custom "host")) (custom "chief") table ≡ false
unfolding program
host_invites_no_chief = refl

moderator_gives_no_role : may_assign (some moderator) (some guest) member table ≡ false
unfolding program
moderator_gives_no_role = refl

may_assign_power_example : can (some admin) decide table ≡ true
unfolding program
may_assign_power_example =
    may_assign_power (some admin) (custom "chief") table decide (some guest) refl refl refl

may_invite_power_example : can (some (custom "host")) invite table ≡ true
unfolding program
may_invite_power_example =
    may_invite_power (some (custom "host")) (custom "host") table invite refl refl refl
