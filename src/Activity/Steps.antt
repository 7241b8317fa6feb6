-- ===== src/Activity/Steps.antt =====
-- One step of the loop of derive (lib/activity.js), for each kind of block.
use hypergraph.Prelude.{ℕ, zero, suc, ◌≡◌, ◌⊎◌, inl, inr, refl, true, false, Option, some}
use hypergraph.Limit.{BlockStamp, absent, wiped, stamped}
use hypergraph.Activity.{period_of, is_after, begin, stop, derive_from}

pub Stamp-cases : (b : BlockStamp) → (b ≡ absent) ⊎ (b ≡ wiped) ⊎ ((s : ℕ) × (b ≡ stamped s))
Stamp-cases absent = inl refl
Stamp-cases wiped = inr (inl refl)
Stamp-cases (stamped s) = inr (inr (s, refl))

-- A block that is not here, one that is wiped, one that starts a period, and any other.
module _ (at : ℕ → BlockStamp) (seq last : ℕ) (period : Option ℕ) where
  pub absent_step :
      (n : ℕ) → at seq ≡ absent → derive_from n at seq last period ≡ stop seq last period
  unfolding derive_from
  absent_step zero h = refl
  absent_step (suc n) h = rw (h, derive_from) refl

  pub wiped_step :
      (n : ℕ)
      → at seq ≡ wiped
      → derive_from (suc n) at seq last period ≡ derive_from n at (suc seq) last period
  unfolding derive_from
  wiped_step n h = rw (h, derive_from) refl

  pub new_step :
      (n s : ℕ)
      → at seq ≡ stamped s
      → is_after (period_of s) period ≡ true
      → derive_from (suc n) at seq last period
        ≡ begin
            (record { period = period_of s; start = suc last })
            (derive_from n at (suc seq) seq (some (period_of s)))
  unfolding derive_from
  new_step n s h a = rw (h, derive_from, a) refl

  pub same_step :
      (n s : ℕ)
      → at seq ≡ stamped s
      → is_after (period_of s) period ≡ false
      → derive_from (suc n) at seq last period ≡ derive_from n at (suc seq) seq period
  unfolding derive_from
  same_step n s h a = rw (h, derive_from, a) refl
