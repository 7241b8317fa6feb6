-- ===== src/Types/Text.antt =====
-- A text for stored types that reads back, in place of JSON's in the tests: a number is that many
-- letters `a` before a `b`, a list its length before its members.
use Prim.Native.Char.{code}
use hypergraph.Prelude.{
  ℕ, zero, suc, ◌≡◌, refl, Bool, true, false, Option, none, some, List, [], ◌∷◌, String, ◌==◌,
  if◌then◌else◌, length,
}
use hypergraph.Types.{Rule, Stored, Named}

-- What reads a value at the start of a text, and what writes one before the rest of a text.
pub record Coder (A : Type 0) : Type 0 where
  pub write : A → String → String
  pub read : String → Option (A × String)
  pub same : (a : A) (rest : String) → read (write a rest) ≡ some (a, rest)

abbrev then_read : {A B : Type 0} → (A → String → Option B) → Option (A × String) → Option B
then_read f none = none
then_read f (some (a, rest)) = f a rest

pub letters : ℕ → String → String
letters zero s = String.◌∷◌ "b" s
letters (suc n) s = String.◌∷◌ "a" (letters n s)

pub counted : String → Option (ℕ × String)
counted String.[] = none
counted (String.◌∷◌ c s) =
    let more = counted s in
    if code c == 98 then some (0, s) else then_read (λ n rest. some (suc n, rest)) more

pub counted-letters : (n : ℕ) (rest : String) → counted (letters n rest) ≡ some (n, rest)
unfolding letters counted
counted-letters zero rest = refl
counted-letters (suc n) rest = rw (counted, counted-letters n rest) refl

numbers : Coder ℕ
numbers = record { write = letters; read = counted; same = counted-letters }

-- A value as one of another type.
module _ {A B : Type 0} (c : Coder A) (to : B → A) (of : A → B)
    (back : (b : B) → of (to b) ≡ b) where
  through : Coder B
  through = record {
    write = λ b rest. c.write (to b) rest;
    read = λ s. then_read (λ a rest. some (of a, rest)) (c.read s);
    same = λ b rest. rw (c.same (to b) rest, back b) refl;
  }

module _ {A B : Type 0} (c : Coder A) (d : Coder B) where
  both : Coder (A × B)
  both = record {
    write = λ p rest. c.write p.0 (d.write p.1 rest);
    read = λ s.
        then_read (λ a rest. then_read (λ b more. some ((a, b), more)) (d.read rest)) (c.read s);
    same = λ p rest. rw (c.same p.0 (d.write p.1 rest), d.same p.1 rest) refl;
  }

module _ {A : Type 0} (c : Coder A) where
  pub write_all : List A → String → String
  write_all [] rest = rest
  write_all (a ∷ list) rest = c.write a (write_all list rest)

  pub read_all : ℕ → String → Option (List A × String)
  read_all zero s = some ([], s)
  read_all (suc n) s =
      then_read (λ a rest. then_read (λ list more. some (a ∷ list, more)) (read_all n rest))
        (c.read s)

  pub read_all-write_all :
      (list : List A) (rest : String)
      → read_all (length list) (write_all list rest) ≡ some (list, rest)
  unfolding read_all write_all
  read_all-write_all [] rest = refl
  read_all-write_all (a ∷ list) rest =
      rw (c.same a (write_all list rest), read_all-write_all list rest) refl

  lists : Coder (List A)
  lists = record {
    write = λ list rest. letters (length list) (write_all list rest);
    read = λ s. then_read read_all (counted s);
    same = λ list rest.
        rw (counted-letters (length list) (write_all list rest)) (read_all-write_all list rest);
  }

abbrev size : String → ℕ
size String.[] = 0
size (String.◌∷◌ c s) = suc (size s)

pub before : String → String → String
before String.[] rest = rest
before (String.◌∷◌ c s) rest = String.◌∷◌ c (before s rest)

pub split : ℕ → String → Option (String × String)
split zero s = some (String.[], s)
split (suc n) String.[] = none
split (suc n) (String.◌∷◌ c s) = then_read (λ t rest. some (String.◌∷◌ c t, rest)) (split n s)

pub split-before : (s rest : String) → split (size s) (before s rest) ≡ some (s, rest)
unfolding split before
split-before String.[] rest = refl
split-before (String.◌∷◌ c s) rest = rw (split-before s rest) refl

strings : Coder String
strings = record {
  write = λ s rest. letters (size s) (before s rest);
  read = λ s. then_read split (counted s);
  same = λ s rest. rw (counted-letters (size s) (before s rest)) (split-before s rest);
}

module _ {A : Type 0} where
  abbrev as_list : Option A → List A
  as_list none = []
  as_list (some a) = a ∷ []

  abbrev as_option : List A → Option A
  as_option [] = none
  as_option (a ∷ list) = some a

  pub as_option-as_list : (o : Option A) → as_option (as_list o) ≡ o
  as_option-as_list none = refl
  as_option-as_list (some a) = refl

options : {A : Type 0} → Coder A → Coder (Option A)
options c = through (lists c) as_list as_option as_option-as_list

abbrev bit : Bool → ℕ
bit false = 0
bit true = 1

abbrev bool_of : ℕ → Bool
bool_of n = n == 1

pub bool_of-bit : (b : Bool) → bool_of (bit b) ≡ b
bool_of-bit false = refl
bool_of-bit true = refl

abbrev of_rule : Rule → Option String × Bool
of_rule Rule.author = (none, false)
of_rule Rule.members = (none, true)
of_rule (Rule.permission p) = (some p, false)

abbrev to_rule : Option String × Bool → Rule
to_rule (none, false) = Rule.author
to_rule (none, true) = Rule.members
to_rule (some p, b) = Rule.permission p

pub to_rule-of_rule : (r : Rule) → to_rule (of_rule r) ≡ r
to_rule-of_rule Rule.author = refl
to_rule-of_rule Rule.members = refl
to_rule-of_rule (Rule.permission p) = refl

rules : Coder Rule
rules =
    through (both (options strings) (through numbers bit bool_of bool_of-bit)) of_rule to_rule
      to_rule-of_rule

abbrev Parts : Type 0
Parts =
    (List (String × String) × Option (List (String × List String)))
    × ((Bool × Rule) × (Option Rule × Option (List (List String))))

abbrev parts : Stored → Parts
parts t = ((t.fields, t.links), ((t.one_per_member, t.editable), (t.put, t.index)))

abbrev whole : Parts → Stored
whole ((fields, links), ((one, editable), (put, index))) = record {
  fields = fields;
  links = links;
  one_per_member = one;
  editable = editable;
  put = put;
  index = index;
}

stored_types : Coder Stored
stored_types =
    let texts = lists strings in
    through
      (both (both (lists (both strings strings)) (options (lists (both strings texts)))) (
        both (both (through numbers bit bool_of bool_of-bit) rules)
          (both (options rules) (options (lists texts)))))
      parts whole (λ t. refl)

all_types : Coder (Named Stored)
all_types = lists (both strings stored_types)

unfoldable pub print : Named Stored → String
unfolding letters counted before split numbers strings through both write_all read_all lists options
    rules stored_types all_types
print types = all_types.write types String.[]

unfoldable pub parse : String → Option (Named Stored)
unfolding letters counted before split numbers strings through both write_all read_all lists options
    rules stored_types all_types
parse s = then_read (λ types rest. some types) (all_types.read s)

pub parse-print : (types : Named Stored) → parse (print types) ≡ some types
unfolding parse print
parse-print types = rw (all_types.same types String.[]) refl
