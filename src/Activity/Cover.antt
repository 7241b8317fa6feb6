-- ===== src/Activity/Cover.antt =====
-- A reader who opens a log where its entries say misses no record (derive of lib/activity.js).
use hypergraph.Prelude.{
  ℕ, zero, suc, ◌-◌, ◌≡◌, ◌≢◌, ◌≤◌, ◌<◌, ◌⊎◌, inl, inr, sym, ap, ◌∙◌, false, Option, none, some,
  List, [], ◌∷◌, ◌++◌, ltb, arith, Bool-cases, subst,
}
use hypergraph.Limit.{BlockStamp, wiped, stamped}
use hypergraph.Activity.{
  period_of, Start, Derived, is_after, begin, derive_from, derive, first_place,
}
use hypergraph.Activity.Parts.{derive_parts}
use hypergraph.Activity.Steps.{Stamp-cases, absent_step, wiped_step, new_step, same_step}

-- An entry of the period or a later one starts at block `k` or before it.
abbrev pub Covers : ℕ → ℕ → List Start → Type 0
Covers k p [] = ⊥
Covers k p (e ∷ es) = ((p ≤ e.period) × (e.start ≤ k)) ⊎ Covers k p es

abbrev Reached : ℕ → Option ℕ → Type 0
Reached p none = ⊥
Reached p (some q) = p ≤ q

not_wiped : (s : ℕ) → stamped s ≢ wiped
not_wiped s e = cc

stamped_inj : (s s' : ℕ) → stamped s ≡ stamped s' → s ≡ s'
stamped_inj s s' e = cc

Reached-same : (p : ℕ) (period : Option ℕ) → is_after p period ≡ false → Reached p period
Reached-same p none h = cc
Reached-same p (some q) h = ground arith

-- Read by the loop: an entry covers it, or its period was reached before.
abbrev Meets : ℕ → ℕ → Option ℕ → Derived → Type 0
Meets k p period d = k < d.place.next → Covers k p d.entries ⊎ Reached p period

-- At a block of period `p'` that starts it: the block itself, or a later one.
module _ (k p p' last : ℕ) (period : Option ℕ) (d : Derived) (l : suc last ≤ k) where
  Meets-new_here : p ≡ p' → Meets k p period (begin (record { period = p'; start = suc last }) d)
  Meets-new_here e u = inl (inl (omega arith, l))

  Meets-new_later :
      Meets k p (some p') d → Meets k p period (begin (record { period = p'; start = suc last }) d)
  Meets-new_later m u = elim (m u) [ inl c ↦ inl (inr c) | inr r ↦ inl (inl (r, l)) ]

same_period :
    (at : ℕ → BlockStamp) (k seq s s' : ℕ)
    → k ≡ seq
    → at k ≡ stamped s
    → at seq ≡ stamped s'
    → period_of s ≡ period_of s'
same_period at k seq s s' e h h' = ap period_of (stamped_inj s s' (sym h ∙ ap at e ∙ h'))

seq-cases : (seq k : ℕ) → seq ≤ k → (k ≡ seq) ⊎ (suc seq ≤ k)
seq-cases seq k l = elim (Bool-cases (ltb seq k)) [
  | inl h ↦ inr (ground arith)
  | inr h ↦ inl (ground arith)
]

derive_from-Meets :
    (left : ℕ) (at : ℕ → BlockStamp) (seq last : ℕ) (period : Option ℕ) (k s : ℕ)
    → last < seq
    → seq ≤ k
    → at k ≡ stamped s
    → Meets k (period_of s) period (derive_from left at seq last period)
unfolding derive_from
derive_from-Meets zero at seq last period k s l b h = λ u. absurd (omega arith)
derive_from-Meets (suc left) at seq last period k s l b h =
    let P = Meets k (period_of s) period in
    elim (Stamp-cases (at seq)) [
      | inl e ↦
          subst P (sym (absent_step at seq last period (suc left) e)) (λ u. absurd (omega arith))
      | inr (inl e) ↦
          subst P (sym (wiped_step at seq last period left e)) (elim (seq-cases seq k b) [
            | inl i ↦ absurd (not_wiped s (sym h ∙ ap at i ∙ e))
            | inr m ↦ derive_from-Meets left at (suc seq) last period k s (omega arith) m h
          ])
      | inr (inr (s', e)) ↦ elim (Bool-cases (is_after (period_of s') period)) [
        | inl a ↦
            subst P (sym (new_step at seq last period left s' e a)) (elim (seq-cases seq k b) [
              | inl i ↦
                  Meets-new_here k (period_of s) (period_of s') last period
                    (derive_from left at (suc seq) seq (some (period_of s'))) (omega arith)
                    (same_period at k seq s s' i h e)
              | inr m ↦
                  Meets-new_later k (period_of s) (period_of s') last period
                    (derive_from left at (suc seq) seq (some (period_of s'))) (omega arith)
                    (derive_from-Meets left at (suc seq) seq (some (period_of s')) k s (omega arith)
                      m h)
            ])
        | inr a ↦
            subst P (sym (same_step at seq last period left s' e a)) (elim (seq-cases seq k b) [
              | inl i ↦ λ u. inr (
                  subst (λ p. Reached p period) (sym (same_period at k seq s s' i h e))
                    (Reached-same (period_of s') period a))
              | inr m ↦ derive_from-Meets left at (suc seq) seq period k s (omega arith) m h
            ])
      ]
    ]

derived-Covers :
    (at : ℕ → BlockStamp) (end k s : ℕ)
    → 1 ≤ k
    → k < (derive at first_place end).place.next
    → at k ≡ stamped s
    → Covers k (period_of s) (derive at first_place end).entries
unfolding derive
derived-Covers at end k s l u h =
    elim (derive_from-Meets (end - 1) at 1 0 none k s (omega arith) l h u) [
      | inl c ↦ c
      | inr r ↦ absurd r
    ]

-- Whoever opens a log where its entries say misses no record: of a log's entries, derived in two
-- parts or at once, one of the record's period or a later one starts at the record's block or
-- before it, for every readable block that was reached.
pub derive-Covers :
    (at : ℕ → BlockStamp) (first end k s : ℕ)
    → first ≤ end
    → 1 ≤ k
    → k < (derive at (derive at first_place first).place end).place.next
    → at k ≡ stamped s
    → Covers k (period_of s) (
        (derive at first_place first).entries
        ++ (derive at (derive at first_place first).place end).entries)
derive-Covers at first end k s o l u h =
    let same = derive_parts at first_place first end o in
    subst (λ d. Covers k (period_of s) d.entries) same
      (derived-Covers at end k s l (subst (λ d. k < d.place.next) (sym same) u) h)
