-- ===== src/Activity/Derive.antt =====
-- What derive says of a log passes the check of whoever has its blocks (derive and checkEntry of
-- lib/activity.js).
use hypergraph.Prelude.{
  ℕ, zero, suc, ◌-◌, ◌+◌, ◌≡◌, ◌≤◌, ◌<◌, ◌⊎◌, inl, inr, refl, sym, subst, true, false, Option, none,
  some, List, [], ◌∷◌, arith, if_splits,
}
use hypergraph.Limit.{BlockStamp, wiped, stamped}
use hypergraph.Activity.{
  period_of, Start, Place, Derived, is_after, derive_from, derive, holds, is_beyond, check_before,
  check_at, check_entry,
}
use hypergraph.Activity.Steps.{Stamp-cases}

-- The stamp of the last readable block, if it is not the header, is of the period or an earlier one.
abbrev pub IsReached : (ℕ → BlockStamp) → ℕ → Option ℕ → Type 0
IsReached at last none = last ≡ 0
IsReached at last (some p) = (s : ℕ) × (at last ≡ stamped s) × (period_of s ≤ p)

-- Nothing but wiped blocks lies between the last readable block and the next.
abbrev pub IsPlaced : (ℕ → BlockStamp) → ℕ → ℕ → Option ℕ → Type 0
IsPlaced at seq last period =
    (last < seq) × ((suc last ≡ seq) ⊎ (at (suc last) ≡ wiped)) × IsReached at last period

-- Each passes the check of a reader who has the blocks, where no cut is below `end`.
abbrev pub AllHold : (ℕ → BlockStamp) → Option ℕ → List Start → Type 0
AllHold at limit [] = Unit
AllHold at limit (e ∷ es) =
    (check_entry e (at (e.start - 1)) (at e.start) limit ≡ holds) × AllHold at limit es

abbrev pub IsBelow : ℕ → Option ℕ → Type 0
IsBelow n none = Unit
IsBelow n (some limit) = n ≤ limit

abbrev pub Continues : (ℕ → BlockStamp) → Place → Type 0
Continues at place = IsPlaced at place.next place.last place.period

abbrev Sound : (ℕ → BlockStamp) → Option ℕ → Derived → Type 0
Sound at limit d = AllHold at limit d.entries × Continues at d.place

not_cut : (n seq : ℕ) (limit : Option ℕ) → n < seq → IsBelow seq limit → is_beyond n limit ≡ false
not_cut n seq none l b = refl
not_cut n seq (some limit) l b = ground arith

at_holds :
    (at : ℕ → BlockStamp) (last seq s : ℕ)
    → ((suc last ≡ seq) ⊎ (at (suc last) ≡ wiped))
    → at seq ≡ stamped s
    → check_at (period_of s) (at (suc last)) ≡ holds
unfolding check_at
at_holds at last seq s (inl e) h = rw (e, h) (ground arith)
at_holds at last seq s (inr e) h = rw e refl

before_holds :
    (at : ℕ → BlockStamp) (last p : ℕ) (period : Option ℕ)
    → IsReached at last period
    → is_after p period ≡ true
    → 0 < last
    → check_before p (at last) ≡ holds
unfolding check_before
before_holds at last p none h a l = absurd (omega arith)
before_holds at last p (some q) (s, e, le) a l = rw e (ground arith)

entry_holds :
    (at : ℕ → BlockStamp) (seq last s : ℕ) (period limit : Option ℕ)
    → IsPlaced at seq last period
    → IsBelow (suc seq) limit
    → at seq ≡ stamped s
    → is_after (period_of s) period ≡ true
    → check_entry
        (record { period = period_of s; start = suc last })
        (at (suc last - 1))
        (at (suc last))
        limit
      ≡ holds
unfolding check_entry
entry_holds at seq last s period limit (l, next, reached) below h a =
    let back : suc last - 1 ≡ last = omega arith in
    rw back (
      ground (
        arith,
        not_cut (suc last) (suc seq) limit (omega arith) below,
        at_holds at last seq s next h,
        before_holds at last (period_of s) period reached a,
      ))

IsBelow-down : (n m : ℕ) (limit : Option ℕ) → n ≤ m → IsBelow m limit → IsBelow n limit
IsBelow-down n m none l b = tt
IsBelow-down n m (some limit) l b = omega arith

-- The place after a wiped block, after a block that starts its period, and after any other.
wiped_next :
    (at : ℕ → BlockStamp) (seq last : ℕ) (period : Option ℕ)
    → at seq ≡ wiped
    → IsPlaced at seq last period
    → IsPlaced at (suc seq) last period
wiped_next at seq last period h (l, inl e, reached) =
    (omega arith, inr (subst (λ n. at n ≡ wiped) (sym e) h), reached)
wiped_next at seq last period h (l, inr e, reached) = (omega arith, inr e, reached)

new-IsPlaced :
    (at : ℕ → BlockStamp) (seq s : ℕ)
    → at seq ≡ stamped s
    → IsPlaced at (suc seq) seq (some (period_of s))
new-IsPlaced at seq s h = (omega arith, inl refl, (s, h, omega arith))

same-IsReached :
    (at : ℕ → BlockStamp) (seq s : ℕ) (period : Option ℕ)
    → at seq ≡ stamped s
    → is_after (period_of s) period ≡ false
    → IsReached at seq period
same-IsReached at seq s none h a = cc
same-IsReached at seq s (some p) h a = (s, h, ground arith)

derive_from-Sound :
    (left : ℕ) (at : ℕ → BlockStamp) (seq last : ℕ) (period limit : Option ℕ)
    → IsPlaced at seq last period
    → IsBelow (seq + left) limit
    → Sound at limit (derive_from left at seq last period)
unfolding derive_from
derive_from-Sound zero at seq last period limit placed below = (tt, placed)
derive_from-Sound (suc left) at seq last period limit placed below =
    let more = IsBelow-down (suc seq + left) (seq + suc left) limit (omega arith) below in
    elim (Stamp-cases (at seq)) [
      | inl h ↦ rw (h, derive_from) (tt, placed)
      | inr (inl h) ↦
          rw (h, derive_from)
            (derive_from-Sound left at (suc seq) last period limit
              (wiped_next at seq last period h placed) more)
      | inr (inr (s, h)) ↦
          rw (h, derive_from)
            (if_splits (is_after (period_of s) period) (Sound at limit)
              (λ a.
                let rest =
                  derive_from-Sound left at (suc seq) seq (some (period_of s)) limit
                    (new-IsPlaced at seq s h) more in
                let below' = IsBelow-down (suc seq) (seq + suc left) limit (omega arith) below in
                ((entry_holds at seq last s period limit placed below' h a, rest.0), rest.1))
              (λ a.
                derive_from-Sound left at (suc seq) seq period limit
                  (omega arith, inl refl, same-IsReached at seq s period h a) more))
    ]

-- Deriving from a place that deriving left off at, or from a log's first block, up to a block that
-- no cut is below: each entry passes checkEntry for a reader who has the log's blocks, and
-- deriving can go on from the place it gives.
pub derive_holds :
    (at : ℕ → BlockStamp) (place : Place) (end : ℕ) (limit : Option ℕ)
    → Continues at place
    → place.next ≤ end
    → IsBelow end limit
    → AllHold at limit (derive at place end).entries × Continues at (derive at place end).place
unfolding derive
derive_holds at place end limit placed l below =
    derive_from-Sound (end - place.next) at place.next place.last place.period limit placed
      (IsBelow-down (place.next + (end - place.next)) end limit (omega arith) below)
