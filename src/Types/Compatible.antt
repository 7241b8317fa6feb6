-- ===== src/Types/Compatible.antt =====
-- Types#checkCompatible, conflict, over and stale of lib/types.js.
use hypergraph.Prelude.{
  Bool, true, false, Option, none, some, List, [], ◌∷◌, String, str_eq, ◌&&◌, ◌||◌, leb, take,
  if◌then◌else◌, any, not, get_text, put_text, is_some, length,
}
use hypergraph.Types.{
  Rule, author, members, permission, Declared, Stored, Named, is_link, is_builtin, describe,
}

-- Of JSON texts: the same lists, the same rules.
abbrev pub same_texts : List String → List String → Bool
same_texts [] [] = true
same_texts (a ∷ as') (b ∷ bs) = str_eq a b && same_texts as' bs
same_texts _ _ = false

abbrev pub same_targets : Option (List String) → Option (List String) → Bool
same_targets none none = true
same_targets (some a) (some b) = same_texts a b
same_targets _ _ = false

abbrev pub same_rule : Rule → Rule → Bool
same_rule author author = true
same_rule members members = true
same_rule (permission a) (permission b) = str_eq a b
same_rule _ _ = false

abbrev pub same_flag : Bool → Bool → Bool
same_flag true b = b
same_flag false b = not b

abbrev pub same_lists : List (List String) → List (List String) → Bool
same_lists [] [] = true
same_lists (a ∷ as') (b ∷ bs) = same_texts a b && same_lists as' bs
same_lists _ _ = false

abbrev pub links_of : Option (Named (List String)) → Named (List String)
links_of none = []
links_of (some links) = links

abbrev pub put_or_members : Option Rule → Rule
put_or_members none = members
put_or_members (some r) = r

-- One field of the old version against the one in its place now.
unfoldable pub fits :
    Named (List String) → Named (List String) → String × String → String × String → Bool
fits old now (field, kind) (name, kind') =
    str_eq name field
    && (str_eq kind' kind
        && (not (str_eq kind "link") || same_targets (get_text old field) (get_text now field)))

unfoldable pub fields_fit :
    Named (List String)
    → Named (List String)
    → List (String × String)
    → List (String × String)
    → Bool
unfolding fits
fields_fit old now [] gs = true
fields_fit old now (f ∷ fs) [] = false
fields_fit old now (f ∷ fs) (g ∷ gs) = fits old now f g && fields_fit old now fs gs

-- One type: is what is declared now a later version of what is stored?
unfoldable pub type_fits : Stored → Declared → Bool
unfolding fields_fit
type_fits old now =
    fields_fit (links_of old.links) now.links old.fields now.fields
    && (same_flag old.one_per_member now.one_per_member
        && (not (now.one_per_member && (is_some now.target && not (any is_link old.fields)))
            && (same_rule old.editable now.editable && same_rule (put_or_members old.put) now.put)))

abbrev pub fits_now : Stored → Option Declared → Bool
fits_now old none = false
fits_now old (some now) = type_fits old now

unfoldable pub check_compatible : Named Declared → Named Stored → Bool
unfolding type_fits
check_compatible types [] = true
check_compatible types ((name, old) ∷ stored) =
    fits_now old (get_text types name) && check_compatible types stored

-- conflict: the types both have, with the fields both have
abbrev pub cut_fields : Stored → Declared → Stored
cut_fields old now = record old { fields = take (length now.fields) old.fields }

abbrev pub common_with : String → Stored → Option Declared → Named Stored → Named Stored
common_with name old none rest = rest
common_with name old (some now) rest =
    if is_builtin name then rest else (name, cut_fields old now) ∷ rest

unfoldable pub common : Named Declared → Named Stored → Named Stored
common types [] = []
common types ((name, old) ∷ stored) =
    common_with name old (get_text types name) (common types stored)

-- false: throws
unfoldable pub conflict : Named Declared → Named Stored → Bool
unfolding check_compatible common
conflict types stored = check_compatible types (common types stored)

abbrev pub takes_over : Stored → Option Stored → Bool
takes_over t none = true
takes_over t (some old) = leb (length old.fields) (length t.fields)

abbrev pub put_over : Named Stored → Named Stored → Named Stored
put_over out [] = out
put_over out ((name, t) ∷ described) =
    let set = put_over (put_text out name t) described in
    let same = put_over out described in if takes_over t (get_text out name) then set else same

unfoldable pub over : Named Declared → Named Stored → Named Stored
unfolding describe
over types stored = put_over stored (describe types)

abbrev pub index_changed : Stored → Declared → Bool
index_changed old now = elim old.index [ none ↦ false | some i ↦ not (same_lists i now.index) ]

abbrev pub is_stale : Option Stored → Declared → Bool
is_stale none now = true
is_stale (some old) now = index_changed old now

-- for a space whose types are stored
unfoldable pub stale : Named Declared → Named Stored → List String
stale [] stored = []
stale ((name, now) ∷ types) stored =
    let rest = stale types stored in
    if not (is_builtin name) && is_stale (get_text stored name) now then name ∷ rest else rest
