-- ===== src/Types/Tests.antt =====
-- An app whose posts gain a field and a link in later versions, and what a space stores of it.
use Prim.Native.Char.{code}
use hypergraph.Prelude.{
  false, Option, none, some, List, [], ◌∷◌, String, ◌≡◌, refl, get_text, put_text, zero, suc, ◌+◌,
  ◌++◌, ◌==◌, if◌then◌else◌, ap, ◌∙◌, arith, ℕ,
}
use hypergraph.Types.{Rule, Declared, Named, describe, stored_of}
use hypergraph.Types.Declare.{
  Declaration, unset, the_members, who_has, declare, declaration_of, made,
}
use hypergraph.Types.Compatible.{check_compatible}
use hypergraph.Types.All.{new_types, from_stored}
use hypergraph.Types.Validate.{
  Js, undefined, null, text, row, ref, no_size, size, validate, valid, invalid_record,
}
use hypergraph.Encodings.Ids.{Texts, IsTexts, id_from_string, id_of}
use hypergraph.Encodings.Records.{is_id}
use hypergraph.Encodings.Tests.{wire}
use hypergraph.Types.Again.{validate_again, unknown_refused}
use hypergraph.Types.RoundTrip.{declare-declaration_of}

abbrev post : List (String × String) → Declaration
post fields = record {
  fields = fields;
  links = ("topic", "topic" ∷ []) ∷ [];
  one_per_member = false;
  editable = the_members;
  put = who_has "post";
  index = ("topic" ∷ "stamp" ∷ []) ∷ [];
}

abbrev topic : Declaration
topic = record {
  fields = ("title", "string") ∷ [];
  links = [];
  one_per_member = false;
  editable = unset;
  put = unset;
  index = [];
}

abbrev first : List (String × String)
first = ("text", "text") ∷ ("topic", "link") ∷ []

abbrev second : List (String × String)
second = ("text", "text") ∷ ("topic", "link") ∷ ("size", "uint") ∷ []

abbrev third : List (String × String)
third = ("text", "text") ∷ ("topic", "link") ∷ ("size", "uint") ∷ ("note", "string") ∷ []

abbrev app : List (String × String) → Named Declaration
app fields = ("post", post fields) ∷ ("topic", topic) ∷ []

abbrev or_none : Option (Named Declared) → Named Declared
or_none none = []
or_none (some types) = types

unfoldable types : List (String × String) → Named Declared
unfolding new_types
types fields = or_none (new_types (app fields))

stored_again : from_stored (describe (types third)) ≡ some (types third)
unfolding from_stored describe types put_text
stored_again = refl

moved :
    check_compatible (types (("topic", "link") ∷ ("text", "text") ∷ [])) (describe (types first))
    ≡ false
unfolding check_compatible describe types put_text get_text
moved = refl

abbrev made_post : Declared
made_post = made (post second) Rule.members (Rule.permission "post")

declare-declaration_of_example :
    declare "post" (declaration_of (stored_of made_post)) ("post" ∷ "topic" ∷ []) false
    ≡ some made_post
unfolding declare
declare-declaration_of_example =
    declare-declaration_of "post" (post second) ("post" ∷ "topic" ∷ []) false made_post (refl, tt)
      refl

-- A type indexed by its stamp alone is declared, and its stored form is refused.
abbrev by_stamp : Declaration
by_stamp = record topic { index = ("stamp" ∷ []) ∷ [] }

by_stamp_declared :
    new_types (("topic", by_stamp) ∷ []) ≡ some (or_none (new_types (("topic", by_stamp) ∷ [])))
unfolding new_types
by_stamp_declared = refl

by_stamp_refused : from_stored (describe (or_none (new_types (("topic", by_stamp) ∷ [])))) ≡ none
unfolding new_types from_stored describe put_text
by_stamp_refused = refl

-- z32 of any bytes is read back; a byte of 0 is written as `b`.
abbrev pub letters : ℕ → String → String
letters zero s = String.◌∷◌ "b" s
letters (suc n) s = String.◌∷◌ "a" (letters n s)

abbrev pub key_of : List ℕ → String
key_of [] = String.[]
key_of (n ∷ b) = letters n (key_of b)

abbrev pub counted : ℕ → String → List ℕ
counted n String.[] = []
counted n (String.◌∷◌ c s) =
    let end = n ∷ counted 0 s in let on = counted (suc n) s in if code c == 98 then end else on

counted-letters : (n k : ℕ) (s : String) → counted k (letters n s) ≡ (k + n) ∷ counted 0 s
counted-letters zero k s = ap (λ m. m ∷ counted 0 s) (omega arith)
counted-letters (suc n) k s = counted-letters n (suc k) s ∙ ap (λ m. m ∷ counted 0 s) (omega arith)

counted-key_of : (b : List ℕ) → counted 0 (key_of b) ≡ b
counted-key_of [] = refl
counted-key_of (n ∷ b) =
    counted-letters n 0 (key_of b) ∙ rw (counted-key_of b) (ap (λ m. m ∷ b) (omega arith))

abbrev pub texts : Texts
texts = record { wire = wire; decode = λ s. some (counted 0 s); encode = key_of }

texts-IsTexts : IsTexts texts
texts-IsTexts = record { same_key = λ b. ap some (counted-key_of b); empty = refl }

-- The id of block 0 of a log whose key is 32 bytes of 0.
abbrev pub some_id : String
some_id = "bbbbbbbbbbbbbbbbbbbbbbbbbbbbbbbbb"

abbrev note : Declared
note = record {
  fields = ("text", "text") ∷ ("by", "link") ∷ ("size", "uint") ∷ ("at", "ref") ∷ [];
  links = [];
  one_per_member = false;
  target = none;
  editable = Rule.author;
  put = Rule.members;
  index = [];
}

abbrev given : Named Js
given =
    ("text", text "hello")
    ∷ ("by", row some_id)
    ∷ ("size", null)
    ∷ ("gone", undefined)
    ∷ ("at", ref ("here" ∷ []) no_size "" "" false)
    ∷ []

abbrev checked : Named Js
checked =
    ("text", text "hello")
    ∷ ("by", text some_id)
    ∷ ("at", ref ("here" ∷ []) (size 0) "" "" false)
    ∷ []

validate_again_example : validate texts (("note", note) ∷ []) "note" checked ≡ valid checked
unfolding validate get_text id_of id_from_string is_id
validate_again_example =
    validate_again texts texts-IsTexts (("note", note) ∷ []) "note" given checked refl

unknown_refused_example :
    validate texts (("note", note) ∷ []) "note" (given ++ (("txt", null) ∷ [])) ≡ invalid_record
unfolding get_text
unknown_refused_example =
    unknown_refused texts (("note", note) ∷ []) "note" note given [] "txt" null refl refl refl
