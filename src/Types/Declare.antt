-- ===== src/Types/Declare.antt =====
-- declare and declarationsOf of lib/types.js: what an app declares, checked.
use hypergraph.Prelude.{
  Bool, true, false, Option, none, some, List, [], ◌∷◌, String, str_eq, ◌&&◌, ◌||◌, starts_with,
  find, if◌then◌else◌, all, any, keep, map, not,
}
use hypergraph.Types.{Rule, author, members, permission, Declared, Stored, Named, is_link, in_texts}

abbrev pub kinds : List String
kinds =
    "string" ∷ "text" ∷ "int" ∷ "uint" ∷ "float" ∷ "bool" ∷ "bytes" ∷ "ref" ∷ "space" ∷ "link" ∷ []

abbrev pub reserved : List String
reserved = "id" ∷ "type" ∷ "author" ∷ "device" ∷ "stamp" ∷ "edited" ∷ "futureStamp" ∷ []

-- `editable` and `put` as declared: undefined, "author", "members", { permission }, or anything else.
pub data Who : Type 0 where
  unset : Who
  the_author the_members : Who
  who_has : String → Who
  other : Who

pub record Declaration : Type 0 where
  pub fields : List (String × String)
  pub links : Named (List String)
  pub one_per_member : Bool
  pub editable : Who
  pub put : Who
  pub index : List (List String)

abbrev pub field_ok : String × String → Bool
field_ok f = not (in_texts f.0 reserved) && in_texts f.1 kinds

abbrev pub is_named : String → String × String → Bool
is_named name f = str_eq f.0 name

-- byName.get(field) is a link field
abbrev pub is_link_field : List (String × String) → String → Bool
is_link_field fields field = elim (find (is_named field) fields) [
  | none ↦ false
  | some f ↦ is_link f
]

-- the types declared beside it, by name
abbrev pub links_ok : List (String × String) → List String → Named (List String) → Bool
links_ok fields names =
    all (λ l. is_link_field fields l.0 && all (λ target. in_texts target names) l.1)

abbrev pub not_empty : String → Bool
not_empty s = not (str_eq s "")

unfoldable pub editable_of : Who → Option Rule
editable_of unset = some author
editable_of the_author = some author
editable_of the_members = some members
editable_of (who_has p) = if not_empty p then some (permission p) else none
editable_of other = none

unfoldable pub put_of : Who → Option Rule
put_of unset = some members
put_of the_author = none
put_of the_members = some members
put_of (who_has p) = if not_empty p then some (permission p) else none
put_of other = none

abbrev pub is_filled : List String → Bool
is_filled [] = false
is_filled (k ∷ keys) = true

abbrev pub is_stamp : String → Bool
is_stamp k = str_eq k "stamp"

abbrev pub keys_ok : List (String × String) → List String → Bool
keys_ok fields keys = is_filled keys && all (λ k. is_stamp k || any (is_named k) fields) keys

abbrev pub index_of : List (List String) → List (List String)
index_of = map (keep (λ k. not (is_stamp k)))

-- `decl.onePerMember && firstLink ? firstLink.name : null`
abbrev pub target_of : Bool → List (String × String) → Option String
target_of one fields =
    if one then (elim (find is_link fields) [ none ↦ none | some f ↦ some f.0 ]) else none

abbrev pub made : Declaration → Rule → Rule → Declared
made d editable put = record {
  fields = d.fields;
  links = d.links;
  one_per_member = d.one_per_member;
  target = target_of d.one_per_member d.fields;
  editable = editable;
  put = put;
  index = index_of d.index;
}

abbrev pub declared : Declaration → Option Rule → Option Rule → Option Declared
declared d none put = none
declared d (some editable) none = none
declared d (some editable) (some put) = some (made d editable put)

abbrev pub shape_ok : String → Bool → List String → Declaration → Bool
shape_ok name builtin names d =
    (builtin || not (starts_with name "hg/"))
    && (all field_ok d.fields
        && (links_ok d.fields names d.links && all (keys_ok d.fields) d.index))

unfoldable pub declare : String → Declaration → List String → Bool → Option Declared
unfolding editable_of put_of
declare name d names builtin =
    if shape_ok name builtin names d
    then declared d (editable_of d.editable) (put_of d.put)
    else none

-- declarationsOf
abbrev pub who_of : Rule → Who
who_of author = the_author
who_of members = the_members
who_of (permission p) = who_has p

abbrev pub who_or : Option Rule → Who → Who
who_or none plain = plain
who_or (some r) plain = who_of r

abbrev pub or_empty {ℓ} : {A : Type ℓ} → Option (List A) → List A
or_empty none = []
or_empty (some xs) = xs

unfoldable pub declaration_of : Stored → Declaration
declaration_of t = record {
  fields = t.fields;
  links = or_empty t.links;
  one_per_member = t.one_per_member;
  editable = who_of t.editable;
  put = who_or t.put the_members;
  index = or_empty t.index;
}

unfoldable pub declarations_of : Named Stored → Named Declaration
unfolding declaration_of
declarations_of [] = []
declarations_of ((name, t) ∷ stored) = (name, declaration_of t) ∷ declarations_of stored
