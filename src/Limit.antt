-- ===== src/Limit.antt =====
-- lib/limit.js: whether a record counts under the write limit of an open space, and when a log may
-- write again. A stamp is a number of milliseconds; `stamp - s >= periodMs` is written with the
-- period on the other side, since the difference may be negative.
pub mod Window
pub mod Tests
use hypergraph.Prelude.{
  ℕ, zero, suc, ◌-◌, ◌+◌, Bool, not, ◌||◌, Option, none, some, is_some, if◌then◌else◌, leb,
}
use hypergraph.Decisions.Data.{WriteLimit}

-- A block's stamp: null, WIPED or a number.
pub data BlockStamp : Type 0 where
  absent wiped : BlockStamp
  stamped : ℕ → BlockStamp

pub data Verdict : Type 0 where
  ok over wait : Verdict

-- The loop over the blocks from `i` on, with so many left before the record's own.
unfoldable pub judge_from : ℕ → ℕ → ℕ → ℕ → (ℕ → BlockStamp) → Verdict
judge_from zero i stamp period at = over
judge_from (suc left) i stamp period at =
    let rest = judge_from left (suc i) stamp period at in
    elim (at i) [
      | absent ↦ wait
      | wiped ↦ rest
      | stamped s ↦ if leb (s + period) stamp then ok else over
    ]

unfoldable pub judge : ℕ → ℕ → Option WriteLimit → (ℕ → BlockStamp) → Verdict
unfolding judge_from
judge seq stamp none at = ok
judge seq stamp (some limit) at =
    if leb seq limit.records
    then ok
    else judge_from limit.records (seq - limit.records) stamp limit.period_ms at

-- `none` is Infinity.
unfoldable pub next_from : ℕ → ℕ → ℕ → ℕ → (ℕ → BlockStamp) → Option ℕ
next_from zero i stamp period at = none
next_from (suc left) i stamp period at =
    let rest = next_from left (suc i) stamp period at in
    elim (at i) [
      | absent ↦ rest
      | wiped ↦ rest
      | stamped s ↦ some (if leb (s + period) stamp then 0 else s + period)
    ]

unfoldable pub next_allowed : ℕ → ℕ → Option WriteLimit → (ℕ → BlockStamp) → Option ℕ
unfolding next_from
next_allowed seq stamp none at = some 0
next_allowed seq stamp (some limit) at =
    if leb seq limit.records
    then some 0
    else next_from limit.records (seq - limit.records) stamp limit.period_ms at
