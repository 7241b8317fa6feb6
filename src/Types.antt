-- ===== src/Types.antt =====
-- lib/types.js: record types as an app declares them, as a space stores them (`describe`), and which
-- declarations go together. A refusal is none: INVALID_TYPE of declare, INCOMPATIBLE_TYPES as false
-- of the checks. Names of fields and types are no array indexes, so objects keep their order.
pub mod All
pub mod Declare
pub mod Compatible
pub mod Same
pub mod Later
pub mod Versions
pub mod Agree
pub mod RoundTrip
pub mod Validate
pub mod Values
pub mod Again
pub mod Text
pub mod Tests
use hypergraph.Prelude.{
  ℕ, Bool, true, false, Option, none, some, List, [], ◌∷◌, ◌++◌, String, str_eq, ◌&&◌, ◌||◌,
  if◌then◌else◌, all, any, keep, not, or_else, get_text, put_text, is_some,
}

-- { by }: who may edit or put
pub data Rule : Type 0 where
  author members : Rule
  permission : String → Rule

-- `links`: for a link field, the types it may point at. `target`: the field one per member counts by.
pub record Declared : Type 0 where
  pub fields : List (String × String)
  pub links : List (String × List String)
  pub one_per_member : Bool
  pub target : Option String
  pub editable : Rule
  pub put : Rule
  pub index : List (List String)

-- What describe gives of a type; older versions stored no `links`, `put` or `index`.
pub record Stored : Type 0 where
  pub fields : List (String × String)
  pub links : Option (List (String × List String))
  pub one_per_member : Bool
  pub editable : Rule
  pub put : Option Rule
  pub index : Option (List (List String))

abbrev pub Named : Type 0 → Type 0
Named A = List (String × A)

abbrev pub in_texts : String → List String → Bool
in_texts s = any (λ t. str_eq t s)

abbrev pub is_link : String × String → Bool
is_link f = str_eq f.1 "link"

abbrev pub stored_of : Declared → Stored
stored_of t = record {
  fields = t.fields;
  links = some t.links;
  one_per_member = t.one_per_member;
  editable = t.editable;
  put = some t.put;
  index = some t.index;
}

abbrev pub builtin_names : List String
builtin_names =
    "hg/device" ∷ "hg/space" ∷ "hg/setting" ∷ "hg/heads" ∷ "hg/device-remove" ∷ "hg/relation"
    ∷ "hg/tag" ∷ "hg/grant" ∷ "hg/report" ∷ "hg/key-link" ∷ []

abbrev pub is_builtin : String → Bool
is_builtin name = in_texts name builtin_names

unfoldable pub describe : Named Declared → Named Stored
describe [] = []
describe ((name, t) ∷ types) =
    let rest = describe types in if is_builtin name then rest else (name, stored_of t) ∷ rest

abbrev pub link_allowed_in : Option (List String) → String → Bool
link_allowed_in none target = true
link_allowed_in (some allowed) target = in_texts target allowed

-- none: get throws
unfoldable pub link_allowed : Named Declared → String → String → String → Option Bool
link_allowed types name field target = elim (get_text types name) [
  | none ↦ none
  | some t ↦ some (link_allowed_in (get_text t.links field) target)
]
