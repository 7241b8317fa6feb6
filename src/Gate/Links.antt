-- ===== src/Gate/Links.antt =====
-- Which links of a record count: linksAllowed and linkCounts of lib/gate.js, with an app's types; and
-- builtinValid and brokenRule. A record's id is a number, and `values` its link fields by name.
use hypergraph.Prelude.{
  ℕ, Bool, true, false, Option, none, some, List, [], ◌∷◌, String, str_eq, ◌==◌, ◌&&◌, ◌||◌, not,
  any, keep, if◌then◌else◌, leb, length, get_text,
}
use hypergraph.Types.{Declared, Named, is_link, link_allowed_in}

-- types.linkAllowed for a type that is declared
abbrev pub allows : Declared → String → String × String → Bool
allows t target_type f = link_allowed_in (get_text t.links f.0) target_type

-- One field: no link, no value, no type held for it, or a type that is allowed.
abbrev pub type_allowed : Declared → String × String → Option String → Bool
type_allowed t f none = true
type_allowed t f (some target_type) = allows t target_type f

abbrev pub value_allowed : (ℕ → Option String) → Declared → String × String → Option ℕ → Bool
value_allowed type_of t f none = true
value_allowed type_of t f (some id) = type_allowed t f (type_of id)

abbrev pub fields_allowed : (ℕ → Option String) → Declared → Named ℕ → List (String × String) → Bool
fields_allowed type_of t values [] = true
fields_allowed type_of t values (f ∷ fs) =
    (if is_link f then value_allowed type_of t f (get_text values f.0) else true)
    && fields_allowed type_of t values fs

unfoldable pub links_allowed :
    Named Declared → String → Option (Named ℕ) → (ℕ → Option String) → Bool
links_allowed types type none type_of = true
links_allowed types type (some values) type_of = elim (get_text types type) [
  | none ↦ true
  | some t ↦ fields_allowed type_of t values t.fields
]

abbrev pub points_at : Named ℕ → ℕ → String × String → Bool
points_at values target f = elim (get_text values f.0) [ none ↦ false | some id ↦ id == target ]

abbrev pub is_empty : List (String × String) → Bool
is_empty [] = true
is_empty (f ∷ fs) = false

-- the last lines of linkCounts, given the type's link fields
abbrev pub counts_via : Declared → Named ℕ → ℕ → String → List (String × String) → Bool
counts_via t values target target_type fields =
    let via = keep (points_at values target) fields in
    is_empty via || any (allows t target_type) via

abbrev pub counts : Declared → Option (Named ℕ) → ℕ → String → Option Bool
counts t values target target_type =
    let fields = keep is_link t.fields in
    let allowing = keep (allows t target_type) fields in
    if length allowing == length fields
    then some true
    else (elim values [ none ↦ none | some vs ↦ some (counts_via t vs target target_type fields) ])

-- none: null, the record's fields matter and are not here
unfoldable pub link_counts :
    Named Declared → String → Option (Named ℕ) → ℕ → Option String → Option Bool
link_counts types type values target none = some true
link_counts types type values target (some target_type) = elim (get_text types type) [
  | none ↦ some true
  | some t ↦ counts t values target target_type
]

-- What builtinValid reads of a relation or a tag: a link, a text (none for what is no text), a number
-- (not there, finite or not) and the length of `data` in bytes.
pub data Number : Type 0 where
  no_number finite not_finite : Number

pub record Graph : Type 0 where
  pub on : Option ℕ
  pub from : Option ℕ
  pub to : Option ℕ
  pub tag : Option String
  pub rel : Option String
  pub value : Number
  pub size : Option ℕ

abbrev pub max_data : ℕ
max_data = 4096

abbrev pub is_there : Option ℕ → Bool
is_there none = false
is_there (some id) = true

abbrev pub has_text : Option String → Bool
has_text none = false
has_text (some s) = not (str_eq s "")

abbrev pub number_ok : Number → Bool
number_ok not_finite = false
number_ok _ = true

abbrev pub size_ok : Option ℕ → Bool
size_ok none = true
size_ok (some n) = leb n max_data

abbrev pub graph_ok : Bool → Graph → Bool
graph_ok is_tag g =
    if is_tag
    then is_there g.on && has_text g.tag
    else is_there g.from
      && (is_there g.to && (has_text g.rel && (number_ok g.value && size_ok g.size)))

unfoldable pub builtin_valid : String → Bool → Option Graph → Bool
builtin_valid type is_put values =
    if not (str_eq type "hg/relation" || str_eq type "hg/tag")
    then true
    else (elim values [ none ↦ false | some g ↦ is_put && graph_ok (str_eq type "hg/tag") g ])

-- The app's rules on a record: each has an id, and says true, false, or throws (none).
abbrev pub rule_ok : Option Bool → Bool
rule_ok none = false
rule_ok (some b) = b

unfoldable pub broken_rule {ℓ} :
    {R : Type ℓ} → List (String × (R → Option Bool)) → R → Option String
broken_rule [] record' = none
broken_rule ((id, validate) ∷ rules) record' =
    if rule_ok (validate record') then broken_rule rules record' else some id
