-- ===== src/Limit/Window.antt =====
-- What the write limit promises (lib/limit.js).
use hypergraph.Prelude.{
  ℕ, zero, suc, ◌≡◌, ◌≢◌, ◌≤◌, ◌<◌, ◌-◌, ◌+◌, ◌⊎◌, inl, inr, refl, Option, none, some,
  if◌then◌else◌, leb, arith, sym, ◌∙◌, leb→le,
}
use hypergraph.Decisions.Data.{WriteLimit}
use hypergraph.Limit.{
  BlockStamp, absent, wiped, stamped, Verdict, ok, over, judge_from, judge, next_from, next_allowed,
}

-- What the answer of nextAllowed says of a record with a stamp.
abbrev pub verdict_by : Option ℕ → ℕ → Verdict
verdict_by none stamp = over
verdict_by (some from) stamp = if leb from stamp then ok else over

BlockStamp-cases : (b : BlockStamp) → (b ≡ absent) ⊎ ((b ≡ wiped) ⊎ ((s : ℕ) × (b ≡ stamped s)))
BlockStamp-cases absent = inl refl
BlockStamp-cases wiped = inr (inl refl)
BlockStamp-cases (stamped s) = inr (inr (s, refl))

judge_from-next_from :
    (left i now stamp period : ℕ) (at : ℕ → BlockStamp)
    → ((j : ℕ) → at j ≢ absent)
    → now ≤ stamp
    → judge_from left i stamp period at ≡ verdict_by (next_from left i now period at) stamp
unfolding judge_from next_from
judge_from-next_from zero i now stamp period at h l = refl
judge_from-next_from (suc left) i now stamp period at h l = elim (BlockStamp-cases (at i)) [
  | inl e ↦ ground (arith, h i)
  | inr (inl e) ↦ ground (arith, judge_from-next_from left (suc i) now stamp period at h l)
  | inr (inr (s, e)) ↦ ground arith
]

-- For a log each block of which is held or wiped, the time that nextAllowed gives tells what judge
-- says of a record from now on: it counts from that time on, and is over the limit before, or
-- always if there is no such time.
pub judge-next_allowed :
    (seq now stamp : ℕ) (limit : Option WriteLimit) (at : ℕ → BlockStamp)
    → ((j : ℕ) → at j ≢ absent)
    → now ≤ stamp
    → judge seq stamp limit at ≡ verdict_by (next_allowed seq now limit at) stamp
unfolding judge next_allowed
judge-next_allowed seq now stamp none at h l = ground arith
judge-next_allowed seq now stamp (some limit) at h l = ground (
  arith,
  judge_from-next_from limit.records (seq - limit.records) now stamp limit.period_ms at h l,
)

-- The stamps go up along the log.
abbrev pub Ordered : (ℕ → BlockStamp) → Type 0
Ordered at = (i j a b : ℕ) → i ≤ j → at i ≡ stamped a → at j ≡ stamped b → a ≤ b

module _ (at after : ℕ → BlockStamp) (w : (j : ℕ) → (after j ≡ at j) ⊎ (after j ≡ wiped)) where
  first_ok :
      (left i j stamp period a : ℕ)
      → Ordered at
      → i ≤ j
      → at i ≡ stamped a
      → ((k : ℕ) → at k ≢ absent)
      → judge_from left j stamp period after ≡ ok
      → a + period ≤ stamp
  unfolding judge_from
  first_ok zero i j stamp period a o l e n h = ground arith
  first_ok (suc left) i j stamp period a o l e n h = elim (BlockStamp-cases (after j)) [
    | inl q ↦ ground arith
    | inr (inl q) ↦ first_ok left i (suc j) stamp period a o (omega arith) e n (ground arith)
    | inr (inr (s, q)) ↦ elim (w j) [
      | inl u ↦ omega (arith, o i j a s l e (sym u ∙ q), leb→le (s + period) stamp (ground arith))
      | inr u ↦ ground arith
    ]
  ]

  wipe_from :
      (left i stamp period : ℕ)
      → Ordered at
      → ((k : ℕ) → at k ≢ absent)
      → judge_from left i stamp period after ≡ ok
      → judge_from left i stamp period at ≡ ok
  unfolding judge_from
  wipe_from zero i stamp period o n h = ground arith
  wipe_from (suc left) i stamp period o n h = elim (BlockStamp-cases (at i)) [
    | inl q ↦ ground (arith, n i)
    | inr (inl q) ↦ elim (w i) [
      | inl u ↦ ground (arith, wipe_from left (suc i) stamp period o n)
      | inr u ↦ ground (arith, wipe_from left (suc i) stamp period o n)
    ]
    | inr (inr (s, q)) ↦
        ground (arith, first_ok (suc left) i i stamp period s o (omega arith) q n h)
  ]

  -- Deleting never frees room: where stamps go up along a log and each block of it is held or
  -- wiped, a record that counts after any blocks were wiped counted before.
  pub judge-wiped :
      (seq stamp : ℕ) (limit : Option WriteLimit)
      → Ordered at
      → ((k : ℕ) → at k ≢ absent)
      → judge seq stamp limit after ≡ ok
      → judge seq stamp limit at ≡ ok
  unfolding judge
  judge-wiped seq stamp none o n h = refl
  judge-wiped seq stamp (some limit) o n h =
      ground (arith, wipe_from limit.records (seq - limit.records) stamp limit.period_ms o n)

-- A record whose block number is above `records` and that counts under a limit is stamped at least
-- the limit's period after every readable block that comes `records` blocks or more before it,
-- where stamps go up along the log and each block is held or wiped: so a log counts at most
-- `records` records within any period.
pub judge-window :
    (seq stamp i s : ℕ) (limit : WriteLimit) (at : ℕ → BlockStamp)
    → Ordered at
    → ((k : ℕ) → at k ≢ absent)
    → limit.records < seq
    → i + limit.records ≤ seq
    → at i ≡ stamped s
    → judge seq stamp (some limit) at ≡ ok
    → s + limit.period_ms ≤ stamp
unfolding judge
judge-window seq stamp i s limit at o n r l e h =
    first_ok at at (λ j. inl refl) limit.records i (seq - limit.records) stamp limit.period_ms s o
      (omega arith) e n (ground arith)
