-- ===== src/Activity/Parts.antt =====
-- Deriving a log's entries in parts gives what deriving them at once does (derive of
-- lib/activity.js).
use hypergraph.Prelude.{
  ℕ, zero, suc, ◌-◌, ◌≡◌, ◌≤◌, inl, inr, refl, sym, ap, ◌∙◌, Option, some, ◌++◌, arith, Bool-cases,
}
use hypergraph.Limit.{BlockStamp}
use hypergraph.Activity.{period_of, Place, Derived, is_after, begin, stop, derive_from, derive}
use hypergraph.Activity.Steps.{Stamp-cases, absent_step, wiped_step, new_step, same_step}

-- what was derived first, and then
abbrev pub join : Derived → Derived → Derived
join d e = record { entries = d.entries ++ e.entries; place = e.place }

-- Deriving on from where it stopped.
abbrev pub continued : (ℕ → BlockStamp) → ℕ → Derived → Derived
continued at end d = join d (derive at d.place end)

left_suc : (end seq left : ℕ) → suc left ≤ end - seq → end - seq ≡ suc (end - suc seq)
left_suc end seq left l = omega arith

derive_from-parts :
    (left : ℕ) (at : ℕ → BlockStamp) (seq last end : ℕ) (period : Option ℕ)
    → left ≤ end - seq
    → derive_from (end - seq) at seq last period
      ≡ continued at end (derive_from left at seq last period)
unfolding derive
derive_from-parts zero at seq last end period l = refl
derive_from-parts (suc left) at seq last end period l =
    let more : left ≤ end - suc seq = omega arith in
    let n = end - suc seq in
    let go = continued at end in
    let open_up = ap (λ k. derive_from k at seq last period) (left_suc end seq left l) in
    elim (Stamp-cases (at seq)) [
      | inl h ↦
          absent_step at seq last period (end - seq) h
          ∙ ap (join (stop seq last period)) (sym (absent_step at seq last period (end - seq) h))
          ∙ ap go (sym (absent_step at seq last period (suc left) h))
      | inr (inl h) ↦
          open_up
          ∙ wiped_step at seq last period n h
          ∙ derive_from-parts left at (suc seq) last end period more
          ∙ ap go (sym (wiped_step at seq last period left h))
      | inr (inr (s, h)) ↦ elim (Bool-cases (is_after (period_of s) period)) [
        | inl a ↦
            open_up
            ∙ new_step at seq last period n s h a
            ∙ ap (begin (record { period = period_of s; start = suc last }))
                (derive_from-parts left at (suc seq) seq end (some (period_of s)) more)
            ∙ ap go (sym (new_step at seq last period left s h a))
        | inr a ↦
            open_up
            ∙ same_step at seq last period n s h a
            ∙ derive_from-parts left at (suc seq) seq end period more
            ∙ ap go (sym (same_step at seq last period left s h a))
      ]
    ]

pub derive_parts :
    (at : ℕ → BlockStamp) (place : Place) (first end : ℕ)
    → first ≤ end
    → derive at place end
      ≡ join (derive at place first) (derive at (derive at place first).place end)
unfolding derive
derive_parts at place first end l =
    derive_from-parts (first - place.next) at place.next place.last end place.period (omega arith)
