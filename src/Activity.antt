-- ===== src/Activity.antt =====
-- lib/activity.js: from which block on a log has records of a period, and the entries that wait for
-- their check. A log's stamps are a function of the block's number.
pub mod Steps
pub mod Derive
pub mod Parts
pub mod Cover
pub mod Waiting
pub mod Events
pub mod Distinct
pub mod Bounds
pub mod Accounted
pub mod Strangers
pub mod Tests
use Prim.Native.Nat.{◌/◌}
use hypergraph.Prelude.{
  ℕ, zero, suc, ◌-◌, ◌*◌, Bool, true, false, Option, none, some, List, [], ◌∷◌, if◌then◌else◌, ltb,
  leb,
}
use hypergraph.Limit.{BlockStamp, absent, wiped, stamped}

abbrev pub period_ms : ℕ
period_ms = 60 * 60 * 1000

unfoldable pub period_of : ℕ → ℕ
period_of stamp = stamp / period_ms

pub record Start : Type 0 where
  pub period : ℕ
  pub start : ℕ

-- `next`, `last`, `period`: what derive takes and gives to continue. The period is none for -1.
pub record Place : Type 0 where
  pub next : ℕ
  pub last : ℕ
  pub period : Option ℕ

pub record Derived : Type 0 where
  pub entries : List Start
  pub place : Place

abbrev pub is_after : ℕ → Option ℕ → Bool
is_after p none = true
is_after p (some period) = ltb period p

abbrev pub begin : Start → Derived → Derived
begin e d = record { entries = e ∷ d.entries; place = d.place }

abbrev pub stop : ℕ → ℕ → Option ℕ → Derived
stop seq last period = record {
  entries = [];
  place = record { next = seq; last = last; period = period };
}

-- The loop at block `seq`, with so many blocks left.
unfoldable pub derive_from : ℕ → (ℕ → BlockStamp) → ℕ → ℕ → Option ℕ → Derived
derive_from zero at seq last period = stop seq last period
derive_from (suc left) at seq last period = elim (at seq) [
  | absent ↦ stop seq last period
  | wiped ↦ derive_from left at (suc seq) last period
  | stamped stamp ↦
      let p = period_of stamp in
      let new = derive_from left at (suc seq) seq (some p) in
      let same = derive_from left at (suc seq) seq period in
      if is_after p period then begin (record { period = p; start = suc last }) new else same
]

unfoldable pub derive : (ℕ → BlockStamp) → Place → ℕ → Derived
unfolding derive_from
derive at place end = derive_from (end - place.next) at place.next place.last place.period

-- `last = from - 1, period = -1`, of a log from its first block on
abbrev pub first_place : Place
first_place = record { next = 1; last = 0; period = none }

pub data Verdict : Type 0 where
  holds fails waits : Verdict

-- `limit`: none is Infinity.
abbrev pub is_beyond : ℕ → Option ℕ → Bool
is_beyond start none = false
is_beyond start (some limit) = leb limit start

-- the block before the entry's start
unfoldable pub check_before : ℕ → BlockStamp → Verdict
check_before period absent = waits
check_before period wiped = fails
check_before period (stamped stamp) = if leb period (period_of stamp) then fails else holds

-- the block at the start
unfoldable pub check_at : ℕ → BlockStamp → Verdict
check_at period absent = holds
check_at period wiped = holds
check_at period (stamped stamp) = if leb period (period_of stamp) then holds else fails

unfoldable pub check_entry : Start → BlockStamp → BlockStamp → Option ℕ → Verdict
unfolding check_before check_at
check_entry e before at limit =
    if ltb e.start 1
    then fails
    else if is_beyond e.start limit
    then fails
    else if ltb 1 e.start
    then (elim (check_before e.period before) [
      | holds ↦ check_at e.period at
      | fails ↦ fails
      | waits ↦ waits
    ])
    else check_at e.period at
