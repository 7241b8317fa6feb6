-- ===== src/Types/All.antt =====
-- The class Types of lib/types.js: hypergraph's own types, and all types of an app or a space.
use hypergraph.Prelude.{Bool, true, false, Option, none, some, List, [], ◌∷◌, String, put_text}
use hypergraph.Types.{Declared, Stored, Named}
use hypergraph.Types.Declare.{unset, Declaration, declare, declarations_of}

abbrev own : List (String × String) → List (List String) → Declaration
own fields index = record {
  fields = fields;
  links = [];
  one_per_member = false;
  editable = unset;
  put = unset;
  index = index;
}

-- BUILTIN
abbrev pub builtin : Named Declaration
builtin =
    ("hg/device", own (("key", "bytes") ∷ ("name", "string") ∷ []) [])
    ∷ ("hg/space", own (("space", "space") ∷ ("name", "string") ∷ ("root", "space") ∷ []) [])
    ∷ (
      "hg/setting",
      own (("name", "string") ∷ ("value", "text") ∷ []) (("name" ∷ "stamp" ∷ []) ∷ []),
    )
    ∷ ("hg/heads", own (("heads", "bytes") ∷ []) [])
    ∷ (
      "hg/device-remove",
      own (("removed", "bytes") ∷ ("cut", "bytes") ∷ ("proof", "bytes") ∷ []) [],
    )
    ∷ (
      "hg/relation",
      own
          (("from", "link")
            ∷ ("to", "link")
            ∷ ("rel", "string")
            ∷ ("value", "float")
            ∷ ("data", "text")
            ∷ ("off", "bool")
            ∷ [])
          [],
    )
    ∷ ("hg/tag", own (("on", "link") ∷ ("tag", "string") ∷ ("off", "bool") ∷ []) [])
    ∷ (
      "hg/grant",
      own (("to", "string") ∷ ("epoch", "uint") ∷ ("commit", "bytes") ∷ ("sealed", "bytes") ∷ [])
          (("to" ∷ []) ∷ []),
    )
    ∷ ("hg/report", own (("boxes", "bytes") ∷ []) [])
    ∷ (
      "hg/key-link",
      own (("from", "bytes") ∷ ("to", "bytes") ∷ ("epoch", "uint") ∷ ("sealed", "bytes") ∷ []) [],
    )
    ∷ []

abbrev pub names_of {ℓ} : {A : Type ℓ} → List (String × A) → List String
names_of [] = []
names_of ((name, a) ∷ xs) = name ∷ names_of xs

-- the first that is refused ends it
abbrev pub put_declared :
    Option Declared
    → String
    → Named Declared
    → (Named Declared → Option (Named Declared))
    → Option (Named Declared)
put_declared none name types more = none
put_declared (some t) name types more = more (put_text types name t)

unfoldable pub declare_all :
    Named Declaration → List String → Bool → Named Declared → Option (Named Declared)
unfolding declare
declare_all [] names own types = some types
declare_all ((name, d) ∷ ds) names own types =
    put_declared (declare name d names own) name types (declare_all ds names own)

abbrev pub then_own : Option (Named Declared) → Option (Named Declared)
then_own none = none
then_own (some types) = declare_all builtin (names_of builtin) true types

-- the constructor
unfoldable pub new_types : Named Declaration → Option (Named Declared)
unfolding declare_all
new_types ds = then_own (declare_all ds (names_of ds) false [])

-- Types.from; as lib/types.js says of one that is stored, its fields are a list
unfoldable pub from_stored : Named Stored → Option (Named Declared)
unfolding new_types declarations_of
from_stored stored = new_types (declarations_of stored)

abbrev pub spread {ℓ} : {A : Type ℓ} → List (String × A) → List (String × A) → List (String × A)
spread out [] = out
spread out ((name, a) ∷ xs) = spread (put_text out name a) xs

-- Types.adding
unfoldable pub adding : Named Stored → Named Declaration → Option (Named Declared)
unfolding new_types declarations_of
adding stored ds = new_types (spread (declarations_of stored) ds)
