-- ===== src/Fields/Names.antt =====
-- Objects whose fields have different names (out in decode of lib/fields.js).
use hypergraph.Prelude.{
  ◌≡◌, refl, ap, Bool, false, [], ◌∷◌, ◌++◌, String, str_eq, eq_iff, any, put_text, arith,
  Bool-cases, inl, inr,
}
use hypergraph.Types.{Named}
use hypergraph.Types.Validate.{Js}
use hypergraph.Fields.Kinds.{FieldKind, FieldList}

abbrev pub has_name : String → Named Js → Bool
has_name name = any (λ e. str_eq e.0 name)

abbrev pub AllFresh : Named Js → FieldList → Type 0
AllFresh out [] = Unit
AllFresh out (f ∷ hs) = (has_name f.0 out ≡ false) × AllFresh out hs

abbrev pub Distinct : FieldList → Type 0
Distinct [] = Unit
Distinct (f ∷ hs) = (any (λ g. str_eq f.0 g.0) hs ≡ false) × Distinct hs

pub put_text-fresh :
    (out rest : Named Js) (name : String) (v w : Js)
    → has_name name out ≡ false
    → put_text (out ++ ((name, v) ∷ rest)) name w ≡ out ++ ((name, w) ∷ rest)
unfolding put_text
put_text-fresh [] rest name v w h = rw ((eq_iff name name).1 refl) refl
put_text-fresh ((n, x) ∷ out) rest name v w h = elim (Bool-cases (str_eq n name)) [
  | inl k ↦ ground arith
  | inr k ↦ rw k (ap (λ l. (n, x) ∷ l) (put_text-fresh out rest name v w (ground arith)))
]

pub has_name-append :
    (name n : String) (v : Js) (out : Named Js)
    → has_name name out ≡ false
    → str_eq n name ≡ false
    → has_name name (out ++ ((n, v) ∷ [])) ≡ false
has_name-append name n v [] h k = ground arith
has_name-append name n v ((m, x) ∷ out) h k =
    ground (arith, has_name-append name n v out (ground arith) k)

pub fresh_after :
    (out : Named Js) (f : String × FieldKind) (v : Js) (hs : FieldList)
    → AllFresh out hs
    → any (λ g. str_eq f.0 g.0) hs ≡ false
    → AllFresh (out ++ ((f.0, v) ∷ [])) hs
fresh_after out f v [] a d = tt
fresh_after out f v (g ∷ hs) a d =
    (has_name-append g.0 f.0 v out a.0 (ground arith), fresh_after out f v hs a.1 (ground arith))
