-- ===== src/Types/Validate.antt =====
-- Types#validate and checkValue of lib/types.js: the values of a record, checked against its type and
-- normalized. Ids and z32 texts are read and written by `Texts`.
use hypergraph.Prelude.{
  ℕ, Bool, true, false, Option, none, some, List, [], ◌∷◌, String, str_eq, ◌==◌, ◌&&◌, not,
  if◌then◌else◌, get_text, length,
}
use hypergraph.Encodings.Ids.{Texts, id_of}
use hypergraph.Types.{Declared, Named}

-- A JavaScript value. `integer` is a safe integer with its sign, `number` any other number; of an
-- object, `ref` has a list of texts as `src`, `row` is known by its id, and `space` by its key, a text
-- or bytes; `other` is anything else. A ref's size is undefined, a number that is no size, or a size.
pub data Size : Type 0 where
  no_size bad_size : Size
  size : ℕ → Size

pub data Js : Type 0 where
  undefined null other : Js
  text : String → Js
  integer : Bool → ℕ → Js
  number : String → Js
  flag : Bool → Js
  bytes : List ℕ → Js
  ref : List String → Size → String → String → Bool → Js
  row : String → Js
  space : String → Js
  space_bytes : List ℕ → Js

abbrev pub size_or_zero : Size → ℕ
size_or_zero (size n) = n
size_or_zero _ = 0

abbrev pub checked_ref : List String → Size → String → String → Bool → Option Js
checked_ref src bad_size type digest mutable = none
checked_ref src no_size type digest mutable = some (ref src (size 0) type digest mutable)
checked_ref src (size n) type digest mutable = some (ref src (size n) type digest mutable)

abbrev pub as_text : Option String → Option Js
as_text none = none
as_text (some s) = some (text s)

abbrev pub is_undefined : Js → Bool
is_undefined undefined = true
is_undefined _ = false

abbrev pub is_null : Js → Bool
is_null null = true
is_null _ = false

abbrev pub then_rest : String → Option Js → Option (Named Js) → Option (Named Js)
then_rest field none rest = none
then_rest field (some v) none = none
then_rest field (some v) (some out) = some ((field, v) ∷ out)

pub data Validated : Type 0 where
  invalid_type invalid_record : Validated
  valid : Named Js → Validated

abbrev pub or_invalid : Option (Named Js) → Validated
or_invalid none = invalid_record
or_invalid (some out) = valid out

module _ (t : Texts) where
  abbrev pub checked_id : String → Option Js
  checked_id id = if str_eq id "" then none else as_text (id_of t id)

  abbrev pub checked_key : Option (List ℕ) → Option Js
  checked_key none = none
  checked_key (some b) = if length b == 32 then some (text (t.encode b)) else none

  abbrev pub checked_link : Js → Option Js
  checked_link (text s) = checked_id s
  checked_link (row id) = checked_id id
  checked_link _ = none

  abbrev pub checked_space : Js → Option Js
  checked_space (text s) = checked_key (t.decode s)
  checked_space (space s) = checked_key (t.decode s)
  checked_space (space_bytes b) = checked_key (some b)
  checked_space _ = none

  abbrev pub checked_text : Js → Option Js
  checked_text (text s) = some (text s)
  checked_text _ = none

  abbrev pub checked_int : Js → Option Js
  checked_int (integer negative n) = some (integer negative n)
  checked_int _ = none

  abbrev pub checked_uint : Js → Option Js
  checked_uint (integer negative n) =
      if negative && not (n == 0) then none else some (integer negative n)
  checked_uint _ = none

  abbrev pub checked_float : Js → Option Js
  checked_float (integer negative n) = some (integer negative n)
  checked_float (number s) = some (number s)
  checked_float _ = none

  abbrev pub checked_bool : Js → Option Js
  checked_bool (flag b) = some (flag b)
  checked_bool _ = none

  abbrev pub checked_bytes : Js → Option Js
  checked_bytes (bytes b) = some (bytes b)
  checked_bytes _ = none

  abbrev pub checked_reference : Js → Option Js
  checked_reference (ref src s type digest mutable) = checked_ref src s type digest mutable
  checked_reference _ = none

  -- none: throws INVALID_RECORD
  unfoldable pub check_value : String → Js → Option Js
  check_value kind v =
      if str_eq kind "string"
      then checked_text v
      else if str_eq kind "text"
      then checked_text v
      else if str_eq kind "int"
      then checked_int v
      else if str_eq kind "uint"
      then checked_uint v
      else if str_eq kind "float"
      then checked_float v
      else if str_eq kind "bool"
      then checked_bool v
      else if str_eq kind "bytes"
      then checked_bytes v
      else if str_eq kind "ref"
      then checked_reference v
      else if str_eq kind "link"
      then checked_link v
      else if str_eq kind "space"
      then checked_space v
      else none

  -- a field that is declared, with its kind, or is not
  abbrev pub then_field : String → Js → Option String → Option (Named Js) → Option (Named Js)
  then_field field v none rest = none
  then_field field v (some kind) rest =
      if is_null v then rest else then_rest field (check_value kind v) rest

  unfoldable pub validate_fields : List (String × String) → Named Js → Option (Named Js)
  unfolding check_value
  validate_fields fields [] = some []
  validate_fields fields ((field, v) ∷ values) =
      let rest = validate_fields fields values in
      if is_undefined v then rest else then_field field v (get_text fields field) rest

  unfoldable pub validate : Named Declared → String → Named Js → Validated
  unfolding validate_fields
  validate types name values = elim (get_text types name) [
    | none ↦ invalid_type
    | some d ↦ or_invalid (validate_fields d.fields values)
  ]
