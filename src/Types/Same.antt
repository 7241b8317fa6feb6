-- ===== src/Types/Same.antt =====
-- Fields, rules and link targets that are the same in two versions (checkCompatible of lib/types.js).
use hypergraph.Prelude.{
  Bool, true, Option, none, some, List, [], ◌∷◌, String, str_eq, ◌&&◌, ◌||◌, eq_iff, arith, ◌≡◌,
  refl, not, get_text, &&-true, Bool-cases, inl, inr,
}
use hypergraph.Types.{Rule, author, members, permission, Named}
use hypergraph.Types.Compatible.{same_texts, same_targets, same_rule, same_flag, fits}

text_self : (s : String) → str_eq s s ≡ true
text_self s = (eq_iff s s).1 refl

same_texts_trans :
    (a b c : List String) → same_texts a b ≡ true → same_texts b c ≡ true → same_texts a c ≡ true
same_texts_trans [] [] c h k = k
same_texts_trans [] (b ∷ bs) c h k = cc
same_texts_trans (a ∷ as') [] c h k = cc
same_texts_trans (a ∷ as') (b ∷ bs) [] h k = cc
same_texts_trans (a ∷ as') (b ∷ bs) (c ∷ cs) h k =
    let (p, q) = &&-true (str_eq a b) (same_texts as' bs) h in
    let (r, s) = &&-true (str_eq b c) (same_texts bs cs) k in
    ground (arith, eq_iff a b, eq_iff b c, eq_iff a c, same_texts_trans as' bs cs q s)

same_texts_self : (a : List String) → same_texts a a ≡ true
same_texts_self [] = refl
same_texts_self (a ∷ as') = ground (arith, text_self a, same_texts_self as')

same_targets_trans :
    (a b c : Option (List String))
    → same_targets a b ≡ true
    → same_targets b c ≡ true
    → same_targets a c ≡ true
same_targets_trans none none c h k = k
same_targets_trans none (some b) c h k = cc
same_targets_trans (some a) none c h k = cc
same_targets_trans (some a) (some b) none h k = cc
same_targets_trans (some a) (some b) (some c) h k = same_texts_trans a b c h k

same_targets_self : (a : Option (List String)) → same_targets a a ≡ true
same_targets_self none = refl
same_targets_self (some a) = same_texts_self a

pub same_rule_trans :
    (a b c : Rule) → same_rule a b ≡ true → same_rule b c ≡ true → same_rule a c ≡ true
same_rule_trans author author c h k = k
same_rule_trans members members c h k = k
same_rule_trans (permission a) (permission b) (permission c) h k =
    ground (arith, eq_iff a b, eq_iff b c, eq_iff a c)
same_rule_trans (permission a) (permission b) author h k = cc
same_rule_trans (permission a) (permission b) members h k = cc
same_rule_trans author members c h k = cc
same_rule_trans author (permission b) c h k = cc
same_rule_trans members author c h k = cc
same_rule_trans members (permission b) c h k = cc
same_rule_trans (permission a) author c h k = cc
same_rule_trans (permission a) members c h k = cc

pub same_rule_self : (a : Rule) → same_rule a a ≡ true
same_rule_self author = refl
same_rule_self members = refl
same_rule_self (permission a) = text_self a

pub flag_self : (a : Bool) → same_flag a a ≡ true
flag_self a = ground arith

pub and_parts :
    (a b c d e : Bool)
    → a && (b && (c && (d && e))) ≡ true
    → (a ≡ true) × (b ≡ true) × (c ≡ true) × (d ≡ true) × (e ≡ true)
and_parts a b c d e h = (ground arith, ground arith, ground arith, ground arith, ground arith)

pub same_flag_trans :
    (a b c : Bool) → same_flag a b ≡ true → same_flag b c ≡ true → same_flag a c ≡ true
same_flag_trans a b c h k = ground arith

-- What one field asks of the next version's: its name, its kind and, for a link, its targets.
abbrev pub links_fit : Named (List String) → Named (List String) → String → String → Bool
links_fit old now field kind =
    not (str_eq kind "link") || same_targets (get_text old field) (get_text now field)

pub fits_parts :
    (old now : Named (List String)) (f g : String × String)
    → fits old now f g ≡ true
    → (g.0 ≡ f.0) × (g.1 ≡ f.1) × (links_fit old now f.0 f.1 ≡ true)
unfolding fits
fits_parts old now (n, k) (m, j) h =
    let (a, rest) = &&-true (str_eq m n) (str_eq j k && links_fit old now n k) h in
    let (b, c) = &&-true (str_eq j k) (links_fit old now n k) rest in
    ((eq_iff m n).0 a, (eq_iff j k).0 b, c)

pub fits_whole :
    (old now : Named (List String)) (f g : String × String)
    → g.0 ≡ f.0
    → g.1 ≡ f.1
    → links_fit old now f.0 f.1 ≡ true
    → fits old now f g ≡ true
unfolding fits
fits_whole old now (n, k) (m, j) a b c = rw ((eq_iff m n).1 a, (eq_iff j k).1 b, c) refl

pub links_fit_trans :
    (la lb lc : Named (List String)) (n k : String)
    → links_fit la lb n k ≡ true
    → links_fit lb lc n k ≡ true
    → links_fit la lc n k ≡ true
links_fit_trans la lb lc n k x y = elim (Bool-cases (str_eq k "link")) [
  | inl h ↦
      rw h
        (same_targets_trans (get_text la n) (get_text lb n) (get_text lc n) (rw h at x) (rw h at y))
  | inr h ↦ rw h refl
]

pub links_fit_self : (l : Named (List String)) (n k : String) → links_fit l l n k ≡ true
links_fit_self l n k = rw (same_targets_self (get_text l n)) (ground arith)
