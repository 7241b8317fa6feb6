-- ===== src/Decisions/Chain.antt =====
-- Sub-spaces in the view of lib/decisions/apply.js: chainOf, subspacesOf, below, memberIn,
-- bannedIn, roleIn, and the custom roles loaded as they are needed. The loops that follow parents
-- take one round of fuel for each sub-space listed, and one more.
use hypergraph.Prelude.{
  ℕ, zero, suc, Bool, true, false, not, ◌&&◌, ◌||◌, Option, none, some, List, [], ◌∷◌, ◌++◌, str_eq,
  ◌==◌, if◌then◌else◌, is_some, any, includes, length, get_text, put_text,
}
use hypergraph.Roles.{Role, custom, Table, decide, moderate, can, is_owner, is_admin}
use hypergraph.Decisions.View.{Scope, top, sub, eq_scope, Member, Subspace, View}

abbrev pub listed_subspaces : View → List ℕ
listed_subspaces view = elim view.subspaces [ none ↦ [] | some keys ↦ keys ]

-- The loop of chainOf at `s`, with the chain so far. `none` is the source's null.
unfoldable pub chain_from : ℕ → View → Scope → List ℕ → Option (List ℕ)
chain_from fuel view top chain = some chain
chain_from zero view (sub s) chain = none
chain_from (suc fuel) view (sub s) chain = elim (view.subspace s) [
  | none ↦ none
  | some info ↦ elim (includes s chain) [
    | true ↦ none
    | false ↦ chain_from fuel view info.parent (chain ++ s ∷ [])
  ]
]

unfoldable pub chain_of : View → Scope → Option (List ℕ)
chain_of view scope = chain_from (suc (length (listed_subspaces view))) view scope []

pub record SubInfo : Type 0 where
  pub key : ℕ
  pub parent : Scope
  pub is_private : Bool

abbrev pub info_of : ℕ → Option Subspace → List SubInfo → List SubInfo
info_of key none rest = rest
info_of key (some info) rest =
    record { key = key; parent = info.parent; is_private = info.is_private } ∷ rest

unfoldable pub infos : View → List ℕ → List SubInfo
infos view [] = []
infos view (key ∷ keys) = info_of key (view.subspace key) (infos view keys)

unfoldable pub subspaces_of : View → List SubInfo
unfolding infos
subspaces_of view = infos view (listed_subspaces view)

-- byKey.get(key): a later entry of a Map replaces an earlier one
abbrev pub find_info : List SubInfo → ℕ → Option SubInfo
find_info [] key = none
find_info (s ∷ subs) key = elim (find_info subs key) [
  | none ↦ if s.key == key then some s else none
  | some t ↦ some t
]

unfoldable pub below_from : ℕ → List SubInfo → Scope → Scope → Bool
below_from fuel subs top above = false
below_from zero subs (sub key) above = false
below_from (suc fuel) subs (sub key) above = elim (find_info subs key) [
  | none ↦ false
  | some s ↦ elim (eq_scope s.parent above) [
    | true ↦ true
    | false ↦ below_from fuel subs s.parent above
  ]
]

-- Is the sub-space `key` below `above`?
unfoldable pub below : List SubInfo → ℕ → Scope → Bool
unfolding below_from
below subs key above = below_from (suc (length subs)) subs (sub key) above

unfoldable pub banned_in : View → List ℕ → ℕ → Bool
banned_in view chain id =
    any (λ s. is_some (view.banned (sub s) id)) chain || is_some (view.banned top id)

-- What a sub-space takes over from above: in a private one, owner and admins only.
unfoldable pub inherit : Option Subspace → Option Member → Option Member
inherit info none = none
inherit none (some up) = none
inherit (some info) (some up) =
    if info.is_private && not (is_owner (some up.role)) && not (is_admin (some up.role))
    then none
    else some up

unfoldable pub own : View → List ℕ → ℕ → Option Member
own view [] id = view.member top id
own view (s ∷ chain) id = elim (view.member (sub s) id) [
  | some m ↦ some m
  | none ↦ inherit (view.subspace s) (own view chain id)
]

unfoldable pub member_in : View → List ℕ → ℕ → Option Member
member_in view chain id = if banned_in view chain id then none else own view chain id

abbrev pub role_of_member : Option Member → Option Role
role_of_member none = none
role_of_member (some m) = some m.role

unfoldable pub role_in : View → List ℕ → ℕ → Option Role
role_in view chain id = role_of_member (member_in view chain id)

-- The scope of a chain, and the prefix of its own keys.
abbrev pub scope_of : List ℕ → Scope
scope_of [] = top
scope_of (s ∷ chain) = sub s

-- A custom role's permissions, read from the view unless they are known.
unfoldable pub load : View → Option Role → Table → Table
load view (some (custom name)) table =
    if str_eq name "" || is_some (get_text table name)
    then table
    else elim (view.role name) [ none ↦ table | some e ↦ put_text table name e.permissions ]
load view _ table = table

unfoldable pub may_write : Option Role → Table → Bool
may_write role table = can role decide table || can role moderate table

-- The roles that an identity has in the space and in each of its sub-spaces.
unfoldable pub roles_below : View → ℕ → List SubInfo → List (Option Role)
roles_below view id [] = []
roles_below view id (s ∷ subs) = elim (chain_of view (sub s.key)) [
  | none ↦ roles_below view id subs
  | some chain ↦ role_in view chain id ∷ roles_below view id subs
]

unfoldable pub writes_loop : View → List (Option Role) → Table → Bool × Table
writes_loop view [] table = (false, table)
writes_loop view (role ∷ rest) table =
    let loaded = load view role table in
    let next = writes_loop view rest loaded in
    if may_write role loaded then (true, loaded) else next

unfoldable pub writes_anywhere : View → ℕ → Table → Bool × Table
unfolding roles_below writes_loop
writes_anywhere view id table =
    writes_loop view (role_in view [] id ∷ roles_below view id (subspaces_of view)) table
