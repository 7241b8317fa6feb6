-- ===== src/Roles.antt =====
-- The roles and permissions at the top of lib/decisions/state.js (ROLES, RANK, OWN, POWER and the
-- rules on who may give, invite to or take away a role). A role is a text in the source: the five
-- built-in names are constructors here and `custom` is any other text. `none` is the source's
-- null, the role of somebody who is no member. A custom role called like an inherited property of
-- a JavaScript object (`constructor`, `toString`) is outside the model: the source looks it up in
-- a plain object.
pub mod Order
pub mod Power
pub mod Tests
use hypergraph.Prelude.{
  ℕ, ◌≡◌, ◌↔◌, refl, ap, Bool, true, false, not, ◌&&◌, ◌||◌, Option, none, some, List, [], ◌∷◌,
  String, str_eq, eq_iff, arith, if◌then◌else◌, ltb, leb, all, any, is_some, get_text,
}

pub data Role : Type 0 where
  owner admin moderator member guest : Role
  custom : String → Role

pub data Permission : Type 0 where
  decide moderate invite roles post : Permission
  app : String → Permission

abbrev pub eq_role : Role → Role → Bool
eq_role owner owner = true
eq_role admin admin = true
eq_role moderator moderator = true
eq_role member member = true
eq_role guest guest = true
eq_role (custom a) (custom b) = str_eq a b
eq_role _ _ = false

abbrev pub eq_permission : Permission → Permission → Bool
eq_permission decide decide = true
eq_permission moderate moderate = true
eq_permission invite invite = true
eq_permission roles roles = true
eq_permission post post = true
eq_permission (app a) (app b) = str_eq a b
eq_permission _ _ = false

-- perms.includes(p)
abbrev pub has : Permission → List Permission → Bool
has p = any (λ q. eq_permission q p)

-- The custom roles known, with their permissions.
abbrev pub Table : Type 0
Table = List (String × List Permission)

abbrev pub builtin : Role → Option (List Permission)
builtin owner = some (decide ∷ moderate ∷ invite ∷ roles ∷ post ∷ [])
builtin admin = some (decide ∷ moderate ∷ invite ∷ roles ∷ post ∷ [])
builtin moderator = some (moderate ∷ post ∷ [])
builtin member = some (post ∷ [])
builtin guest = some (post ∷ [])
builtin (custom name) = none

-- `!role` holds of the empty text too.
permissions_of_custom : String → Table → Option (List Permission)
permissions_of_custom name table = if str_eq name "" then none else get_text table name

unfoldable pub permissions_of : Option Role → Table → Option (List Permission)
unfolding permissions_of_custom
permissions_of none table = none
permissions_of (some (custom name)) table = permissions_of_custom name table
permissions_of (some role) table = builtin role

abbrev pub custom_rank : ℕ
custom_rank = 2

abbrev pub rank_of : Option Role → ℕ
rank_of (some owner) = 5
rank_of (some admin) = 4
rank_of (some moderator) = 3
rank_of (some member) = 2
rank_of (some guest) = 1
rank_of _ = custom_rank

abbrev pub is_owner : Option Role → Bool
is_owner none = false
is_owner (some role) = eq_role role owner

abbrev pub is_admin : Option Role → Bool
is_admin none = false
is_admin (some role) = eq_role role admin

unfoldable pub can : Option Role → Permission → Table → Bool
can role permission table =
    if is_owner role
    then true
    else elim (permissions_of role table) [ none ↦ false | some perms ↦ has permission perms ]

-- OWN: hypergraph's own permissions.
abbrev pub is_own : Permission → Bool
is_own decide = true
is_own moderate = true
is_own invite = true
is_own roles = true
is_own post = false
is_own (app name) = false

abbrev pub or_empty : Option (List Permission) → List Permission
or_empty none = []
or_empty (some perms) = perms

unfoldable pub grantable : Option Role → List Permission → Table → Bool
grantable author perms table =
    if is_owner author
    then true
    else all (λ p. not (is_own p) || has p (or_empty (permissions_of author table))) perms

unfoldable pub may_assign : Option Role → Option Role → Role → Table → Bool
may_assign author current role table =
    if not (can author roles table) || eq_role role owner || is_owner current
    then false
    else elim (permissions_of (some role) table) [
      | none ↦ false
      | some perms ↦
          if is_owner author
          then true
          else if is_some current && leb (rank_of author) (rank_of current)
          then false
          else if leb (rank_of author) (rank_of (some role))
          then false
          else grantable author perms table
    ]

-- POWER: the permissions over others.
abbrev pub is_power : Permission → Bool
is_power decide = true
is_power moderate = true
is_power roles = true
is_power invite = false
is_power post = false
is_power (app name) = false

abbrev pub same_role : Option Role → Role → Bool
same_role none role = false
same_role (some maker) role = eq_role role maker

unfoldable pub may_invite : Option Role → Role → Table → Bool
may_invite maker role table =
    if not (can maker invite table) || eq_role role owner
    then false
    else elim (permissions_of (some role) table) [
      | none ↦ false
      | some perms ↦
          if is_owner maker
          then true
          else let peer = same_role maker role && not (any is_power perms) in
            if leb (rank_of maker) (rank_of (some role))
              && not (eq_role role member)
              && not (eq_role role guest)
              && not peer
            then false
            else grantable maker perms table
    ]

unfoldable pub may_remove : Option Role → Option Role → Permission → Table → Bool
may_remove author target permission table =
    if not (can author permission table) || is_owner target
    then false
    else not (is_some target) || is_owner author || ltb (rank_of target) (rank_of author)
