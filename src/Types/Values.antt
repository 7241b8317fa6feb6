-- ===== src/Types/Values.antt =====
-- What the check of a value gives, it gives again (checkValue of lib/types.js).
use hypergraph.Prelude.{
  none_not, some_inj, ℕ, Bool, true, false, Option, none, some, List, String, str_eq, ◌==◌, ◌&&◌,
  not, if◌then◌else◌, length, ◌≡◌, ◌≢◌, refl, subst, arith, Bool-cases, Option-cases, inl, inr,
}
use hypergraph.Encodings.Ids.{Texts, IsTexts, id_of, id_of-id_of}
use hypergraph.Types.{Named}
use hypergraph.Types.Validate.{
  no_size, bad_size, size, Js, text, integer, number, flag, bytes, ref, row, space, space_bytes,
  checked_id, checked_key, checked_link, checked_space, checked_text, checked_int, checked_uint,
  checked_float, checked_bool, checked_bytes, checked_reference, check_value, is_undefined, is_null,
  invalid_type, invalid_record, valid,
}

-- A value that the check gives is there, and the check gives it again.
abbrev pub Stays : (Js → Option Js) → Js → Type 0
Stays f w = (f w ≡ some w) × (not (is_undefined w) ≡ true) × (not (is_null w) ≡ true)

pub valid_inj : (v w : Named Js) → valid v ≡ valid w → v ≡ w
valid_inj v w h = cc

pub type_not : (out : Named Js) → invalid_type ≢ valid out
type_not out h = cc

pub record_not : (out : Named Js) → invalid_record ≢ valid out
record_not out h = cc

pub not-true : (b : Bool) → not b ≡ true → b ≡ false
not-true b h = ground arith

stays : (f : Js → Option Js) (v w : Js) → some v ≡ some w → Stays f v → Stays f w
stays f v w h s = subst (Stays f) (some_inj v w h) s

-- Of a check chosen by a test, both sides have it.
either :
    (b : Bool) (f g : Js → Option Js) (v w : Js)
    → (f v ≡ some w → Stays f w)
    → (g v ≡ some w → Stays g w)
    → (if b then f v else g v) ≡ some w
    → Stays (λ x. if b then f x else g x) w
either true f g v w p q h = p h
either false f g v w p q h = q h

module _ (t : Texts) where
  text-Stays : (v w : Js) → checked_text t v ≡ some w → Stays (checked_text t) w
  text-Stays (text s) w h = stays (checked_text t) (text s) w h (refl, refl, refl)
  text-Stays _ w h = cc

  int-Stays : (v w : Js) → checked_int t v ≡ some w → Stays (checked_int t) w
  int-Stays (integer b n) w h = stays (checked_int t) (integer b n) w h (refl, refl, refl)
  int-Stays _ w h = cc

  uint-Stays : (v w : Js) → checked_uint t v ≡ some w → Stays (checked_uint t) w
  uint-Stays (integer b n) w h = elim (Bool-cases (b && not (n == 0))) [
    | inl e ↦ absurd (none_not w (rw e at h))
    | inr e ↦ stays (checked_uint t) (integer b n) w (rw e at h) (rw e refl, refl, refl)
  ]
  uint-Stays _ w h = cc

  float-Stays : (v w : Js) → checked_float t v ≡ some w → Stays (checked_float t) w
  float-Stays (integer b n) w h = stays (checked_float t) (integer b n) w h (refl, refl, refl)
  float-Stays (number s) w h = stays (checked_float t) (number s) w h (refl, refl, refl)
  float-Stays _ w h = cc

  bool-Stays : (v w : Js) → checked_bool t v ≡ some w → Stays (checked_bool t) w
  bool-Stays (flag b) w h = stays (checked_bool t) (flag b) w h (refl, refl, refl)
  bool-Stays _ w h = cc

  bytes-Stays : (v w : Js) → checked_bytes t v ≡ some w → Stays (checked_bytes t) w
  bytes-Stays (bytes b) w h = stays (checked_bytes t) (bytes b) w h (refl, refl, refl)
  bytes-Stays _ w h = cc

  reference-Stays : (v w : Js) → checked_reference t v ≡ some w → Stays (checked_reference t) w
  reference-Stays (ref src no_size a b m) w h =
      stays (checked_reference t) (ref src (size 0) a b m) w h (refl, refl, refl)
  reference-Stays (ref src bad_size a b m) w h = cc
  reference-Stays (ref src (size n) a b m) w h =
      stays (checked_reference t) (ref src (size n) a b m) w h (refl, refl, refl)
  reference-Stays _ w h = cc

module _ (t : Texts) (laws : IsTexts t) where
  id-Stays : (s : String) (w : Js) → checked_id t s ≡ some w → Stays (checked_link t) w
  id-Stays s w h = elim (Bool-cases (str_eq s "")) [
    | inl e ↦ absurd (none_not w (rw e at h))
    | inr e ↦ elim (Option-cases (id_of t s)) [
      | inl k ↦ absurd (none_not w (rw (e, k) at h))
      | inr (id, k) ↦
          stays (checked_link t) (text id) w (rw (e, k) at h)
            (rw ((id_of-id_of t laws s id k).1, (id_of-id_of t laws s id k).0) refl, refl, refl)
    ]
  ]

  link-Stays : (v w : Js) → checked_link t v ≡ some w → Stays (checked_link t) w
  link-Stays (text s) w h = id-Stays s w h
  link-Stays (row s) w h = id-Stays s w h
  link-Stays _ w h = cc

  key-Stays : (b : Option (List ℕ)) (w : Js) → checked_key t b ≡ some w → Stays (checked_space t) w
  key-Stays none w h = absurd (none_not w h)
  key-Stays (some b) w h = elim (Bool-cases (length b == 32)) [
    | inl e ↦
        stays (checked_space t) (text (t.encode b)) w (rw e at h)
          (rw (laws.same_key b) (rw e refl), refl, refl)
    | inr e ↦ absurd (none_not w (rw e at h))
  ]

  space-Stays : (v w : Js) → checked_space t v ≡ some w → Stays (checked_space t) w
  space-Stays (text s) w h = key-Stays (t.decode s) w h
  space-Stays (space s) w h = key-Stays (t.decode s) w h
  space-Stays (space_bytes b) w h = key-Stays (some b) w h
  space-Stays _ w h = cc

  -- The kinds from one on, as check_value tries them.
  abbrev nothing : String → Js → Option Js
  nothing kind v = none

  nothing-Stays : (kind : String) (v w : Js) → nothing kind v ≡ some w → Stays (nothing kind) w
  nothing-Stays kind v w h = absurd (none_not w h)

  abbrev after_space : String → Js → Option Js
  after_space kind v = if str_eq kind "space" then checked_space t v else nothing kind v

  after_space-Stays :
      (kind : String) (v w : Js) → after_space kind v ≡ some w → Stays (after_space kind) w
  after_space-Stays kind v w h =
      either (str_eq kind "space") (checked_space t) (nothing kind) v w (space-Stays v w)
        (nothing-Stays kind v w) h

  abbrev after_link : String → Js → Option Js
  after_link kind v = if str_eq kind "link" then checked_link t v else after_space kind v

  after_link-Stays :
      (kind : String) (v w : Js) → after_link kind v ≡ some w → Stays (after_link kind) w
  after_link-Stays kind v w h =
      either (str_eq kind "link") (checked_link t) (after_space kind) v w (link-Stays v w)
        (after_space-Stays kind v w) h

  abbrev after_ref : String → Js → Option Js
  after_ref kind v = if str_eq kind "ref" then checked_reference t v else after_link kind v

  after_ref-Stays :
      (kind : String) (v w : Js) → after_ref kind v ≡ some w → Stays (after_ref kind) w
  after_ref-Stays kind v w h =
      either (str_eq kind "ref") (checked_reference t) (after_link kind) v w (reference-Stays t v w)
        (after_link-Stays kind v w) h

  abbrev after_bytes : String → Js → Option Js
  after_bytes kind v = if str_eq kind "bytes" then checked_bytes t v else after_ref kind v

  after_bytes-Stays :
      (kind : String) (v w : Js) → after_bytes kind v ≡ some w → Stays (after_bytes kind) w
  after_bytes-Stays kind v w h =
      either (str_eq kind "bytes") (checked_bytes t) (after_ref kind) v w (bytes-Stays t v w)
        (after_ref-Stays kind v w) h

  abbrev after_bool : String → Js → Option Js
  after_bool kind v = if str_eq kind "bool" then checked_bool t v else after_bytes kind v

  after_bool-Stays :
      (kind : String) (v w : Js) → after_bool kind v ≡ some w → Stays (after_bool kind) w
  after_bool-Stays kind v w h =
      either (str_eq kind "bool") (checked_bool t) (after_bytes kind) v w (bool-Stays t v w)
        (after_bytes-Stays kind v w) h

  abbrev after_float : String → Js → Option Js
  after_float kind v = if str_eq kind "float" then checked_float t v else after_bool kind v

  after_float-Stays :
      (kind : String) (v w : Js) → after_float kind v ≡ some w → Stays (after_float kind) w
  after_float-Stays kind v w h =
      either (str_eq kind "float") (checked_float t) (after_bool kind) v w (float-Stays t v w)
        (after_bool-Stays kind v w) h

  abbrev after_uint : String → Js → Option Js
  after_uint kind v = if str_eq kind "uint" then checked_uint t v else after_float kind v

  after_uint-Stays :
      (kind : String) (v w : Js) → after_uint kind v ≡ some w → Stays (after_uint kind) w
  after_uint-Stays kind v w h =
      either (str_eq kind "uint") (checked_uint t) (after_float kind) v w (uint-Stays t v w)
        (after_float-Stays kind v w) h

  abbrev after_int : String → Js → Option Js
  after_int kind v = if str_eq kind "int" then checked_int t v else after_uint kind v

  after_int-Stays :
      (kind : String) (v w : Js) → after_int kind v ≡ some w → Stays (after_int kind) w
  after_int-Stays kind v w h =
      either (str_eq kind "int") (checked_int t) (after_uint kind) v w (int-Stays t v w)
        (after_uint-Stays kind v w) h

  abbrev after_text : String → Js → Option Js
  after_text kind v = if str_eq kind "text" then checked_text t v else after_int kind v

  after_text-Stays :
      (kind : String) (v w : Js) → after_text kind v ≡ some w → Stays (after_text kind) w
  after_text-Stays kind v w h =
      either (str_eq kind "text") (checked_text t) (after_int kind) v w (text-Stays t v w)
        (after_int-Stays kind v w) h

  abbrev after_string : String → Js → Option Js
  after_string kind v = if str_eq kind "string" then checked_text t v else after_text kind v

  after_string-Stays :
      (kind : String) (v w : Js) → after_string kind v ≡ some w → Stays (after_string kind) w
  after_string-Stays kind v w h =
      either (str_eq kind "string") (checked_text t) (after_text kind) v w (text-Stays t v w)
        (after_text-Stays kind v w) h

  pub value-Stays :
      (kind : String) (v w : Js) → check_value t kind v ≡ some w → Stays (check_value t kind) w
  unfolding check_value
  value-Stays kind v w h = after_string-Stays kind v w h
