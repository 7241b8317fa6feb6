-- ===== src/Activity/Distinct.antt =====
-- The entries that wait, by log and period, as they are set and taken out (Activity of
-- lib/activity.js).
use hypergraph.Prelude.{
  suc, ◌≡◌, ◌≤◌, inl, inr, refl, sym, ◌∙◌, Bool, true, false, Option, none, some, List, [], ◌∷◌,
  if◌then◌else◌, arith, if_splits, Bool-cases, keep, length, is_some,
}
use hypergraph.Activity.Waiting.{Entry, Waiting, is_same, waiting_of, put_waiting}

-- No two for the same log and period.
abbrev pub AreDistinct : List Waiting → Type 0
AreDistinct [] = Unit
AreDistinct (w ∷ ws) = (waiting_of ws w.entry ≡ none) × AreDistinct ws

is_same_of : (a b c : Entry) → is_same a b ≡ true → is_same a c ≡ is_same b c
unfolding is_same
is_same_of a b c h = ground arith

is_same_apart : (a b c : Entry) → is_same a b ≡ false → is_same a c ≡ true → is_same b c ≡ false
unfolding is_same
is_same_apart a b c h k = ground arith

is_same_sym : (a b : Entry) → is_same a b ≡ is_same b a
unfolding is_same
is_same_sym a b = ground arith

is_same_to : (a b c : Entry) → is_same a b ≡ true → is_same c a ≡ is_same c b
unfolding is_same
is_same_to a b c h = ground arith

waiting_of_same :
    (ws : List Waiting) (a b : Entry) → is_same a b ≡ true → waiting_of ws a ≡ waiting_of ws b
waiting_of_same [] a b h = refl
waiting_of_same (w ∷ ws) a b h = rw (is_same_to a b w.entry h, waiting_of_same ws a b h) refl

pub waiting_of-put_waiting :
    (ws : List Waiting) (v : Waiting) (e : Entry)
    → waiting_of (put_waiting ws v) e ≡ (if is_same v.entry e then some v else waiting_of ws e)
unfolding put_waiting
waiting_of-put_waiting [] v e = ground arith
waiting_of-put_waiting (w ∷ ws) v e = elim (Bool-cases (is_same w.entry v.entry)) [
  | inl h ↦ rw (h, is_same_of w.entry v.entry e h) (ground arith)
  | inr h ↦ elim (Bool-cases (is_same w.entry e)) [
    | inl k ↦ rw (h, k, is_same_apart w.entry v.entry e h k) refl
    | inr k ↦ rw (h, k) (waiting_of-put_waiting ws v e)
  ]
]

pub length-put_waiting :
    (ws : List Waiting) (v : Waiting)
    → length (put_waiting ws v)
      ≡ (if is_some (waiting_of ws v.entry) then length ws else suc (length ws))
unfolding put_waiting
length-put_waiting [] v = refl
length-put_waiting (w ∷ ws) v = elim (Bool-cases (is_same w.entry v.entry)) [
  | inl h ↦ rw h refl
  | inr h ↦ rw h (ground (arith, length-put_waiting ws v))
]

pub put_waiting-AreDistinct :
    (ws : List Waiting) (v : Waiting) → AreDistinct ws → AreDistinct (put_waiting ws v)
unfolding put_waiting
put_waiting-AreDistinct [] v d = (refl, tt)
put_waiting-AreDistinct (w ∷ ws) v d = elim (Bool-cases (is_same w.entry v.entry)) [
  | inl h ↦ rw h (sym (waiting_of_same ws w.entry v.entry h) ∙ d.0, d.1)
  | inr h ↦ rw h (
    waiting_of-put_waiting ws v w.entry ∙ rw (is_same_sym v.entry w.entry, h) d.0,
    put_waiting-AreDistinct ws v d.1,
  )
]

if_none :
    (b : Bool) (w : Waiting) (o : Option Waiting)
    → (if b then some w else o) ≡ none
    → (b ≡ false) × (o ≡ none)
if_none true w o h = cc
if_none false w o h = (refl, h)

keep-none :
    (p : Waiting → Bool) (ws : List Waiting) (e : Entry)
    → waiting_of ws e ≡ none
    → waiting_of (keep p ws) e ≡ none
keep-none p [] e h = refl
keep-none p (w ∷ ws) e h =
    let (k, rest) = if_none (is_same w.entry e) w (waiting_of ws e) h in
    if_splits (p w) (λ xs. waiting_of xs e ≡ none) (λ q. rw k (keep-none p ws e rest))
      (λ q. keep-none p ws e rest)

pub length-keep : (p : Waiting → Bool) (ws : List Waiting) → length (keep p ws) ≤ length ws
length-keep p [] = omega arith
length-keep p (w ∷ ws) = ground (arith, length-keep p ws)

pub keep-AreDistinct :
    (p : Waiting → Bool) (ws : List Waiting) → AreDistinct ws → AreDistinct (keep p ws)
keep-AreDistinct p [] d = tt
keep-AreDistinct p (w ∷ ws) d =
    if_splits (p w) AreDistinct (λ h. (keep-none p ws w.entry d.0, keep-AreDistinct p ws d.1))
      (λ h. keep-AreDistinct p ws d.1)
