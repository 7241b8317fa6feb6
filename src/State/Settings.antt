-- ===== src/State/Settings.antt =====
-- The settings of a space or sub-space: `meta` of State and SubState in lib/decisions/state.js, and
-- its getters. A missing value and an empty text both give the default.
use hypergraph.Prelude.{
  ℕ, Bool, false, Option, none, some, List, [], ◌∷◌, String, str_eq, if◌then◌else◌, or_else, get,
}
use hypergraph.Decisions.Data.{WriteLimit}
use hypergraph.Decisions.View.{Scope, top, sub, Meta, Epochs}
use hypergraph.State.Data.{Part, State}
use hypergraph.State.Effective.{Layer, Layers}

abbrev pub or_text : Option String → String → String
or_text none default = default
or_text (some text) default = if str_eq text "" then default else text

abbrev pub policy_of : Option Meta → String
policy_of none = "auto"
policy_of (some m) = or_text m.policy "auto"

abbrev pub history_of : Option Meta → String
history_of none = "visible"
history_of (some m) = or_text m.history "visible"

abbrev pub rules_of : Option Meta → Option (List String)
rules_of none = none
rules_of (some m) = m.rules

abbrev pub write_limit_of : Option Meta → Option WriteLimit
write_limit_of none = none
write_limit_of (some m) = m.write_limit

abbrev pub is_public_of : Option Meta → Bool
is_public_of none = false
is_public_of (some m) = m.is_public

abbrev pub own_policy : Option Meta → Option String
own_policy none = none
own_policy (some m) = m.policy

abbrev pub parent_of : Scope → Option ℕ
parent_of top = none
parent_of (sub key) = some key

-- The maps of a scope's own.
abbrev pub part_at : State → Layers → Part
part_at state [] = state.own
part_at state (l ∷ up) = l.part

-- A sub-space's: its parent's, with its own in place of some.
abbrev pub merge_meta : Layer → Option Meta → Option Meta
merge_meta l none = none
merge_meta l (some up) = some (record up {
  name = some l.info.name;
  is_private = l.info.is_private;
  parent = parent_of l.info.parent;
  policy = some (or_text (own_policy l.part.meta) (policy_of (some up)));
  rules = or_else (rules_of l.part.meta) up.rules;
  write_limit = write_limit_of l.part.meta;
  history = some (history_of l.part.meta);
  is_public = is_public_of l.part.meta;
})

unfoldable pub meta_of : State → Layers → Option Meta
meta_of state [] = state.own.meta
meta_of state (l ∷ up) = merge_meta l (meta_of state up)

module _ (state : State) (layers : Layers) where
  unfoldable pub policy : String
  unfolding meta_of
  policy = policy_of (meta_of state layers)

  unfoldable pub history : String
  unfolding meta_of
  history = history_of (meta_of state layers)

  unfoldable pub rules : Option (List String)
  unfolding meta_of
  rules = rules_of (meta_of state layers)

  unfoldable pub write_limit : Option WriteLimit
  unfolding meta_of
  write_limit = write_limit_of (meta_of state layers)

  unfoldable pub is_public : Bool
  unfolding meta_of
  is_public = is_public_of (meta_of state layers)

  unfoldable pub helpers : List String
  unfolding meta_of
  helpers = elim (meta_of state layers) [
    | none ↦ []
    | some m ↦ elim m.helpers [ none ↦ [] | some keys ↦ keys ]
  ]

  unfoldable pub is_private : Bool
  is_private = elim layers [
    | [] ↦ elim state.own.meta [ none ↦ false | some m ↦ m.is_private ]
    | l ∷ up ↦ l.info.is_private
  ]

  unfoldable pub owner : Option ℕ
  owner = elim state.own.meta [ none ↦ none | some m ↦ m.owner ]

  unfoldable pub key_epochs : Option Epochs
  key_epochs = (part_at state layers).epochs

-- The text of the latest types.
unfoldable pub latest_types : State → Option String
latest_types state = elim (get state.type_versions state.types_version) [
  | none ↦ none
  | some text ↦ if str_eq text "" then none else some text
]
