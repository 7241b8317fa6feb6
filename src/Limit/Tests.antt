-- ===== src/Limit/Tests.antt =====
-- A limit of two records a second, on a log with its third block wiped.
use hypergraph.Prelude.{ℕ, ◌≡◌, ◌≢◌, ◌≤◌, ◌+◌, ◌⊎◌, refl, some, if◌then◌else◌, ◌==◌, arith}
use hypergraph.Decisions.Data.{WriteLimit}
use hypergraph.Limit.{BlockStamp, absent, wiped, stamped, ok, judge_from, judge, next_allowed}
use hypergraph.Limit.Window.{verdict_by, Ordered, judge-next_allowed, judge-wiped, judge-window}

abbrev limit : WriteLimit
limit = record { records = 2; period_ms = 1000 }

-- block `i` is stamped twice i
abbrev log : ℕ → BlockStamp
log i = stamped (i + i)

abbrev log_after : ℕ → BlockStamp
log_after i = if i == 3 then wiped else stamped (i + i)

log-held : (j : ℕ) → log j ≢ absent
log-held j = ground arith

log-Ordered : Ordered log
log-Ordered i j a b l p q = ground arith

log_after-wiped : (j : ℕ) → (log_after j ≡ log j) ⊎ (log_after j ≡ wiped)
log_after-wiped j = ground arith

judge-next_allowed_example :
    judge 5 2000 (some limit) log ≡ verdict_by (next_allowed 5 9 (some limit) log) 2000
judge-next_allowed_example = judge-next_allowed 5 9 2000 (some limit) log log-held (omega arith)

judge-wiped_example : judge 5 2000 (some limit) log ≡ ok
unfolding judge judge_from
judge-wiped_example =
    judge-wiped log log_after log_after-wiped 5 2000 (some limit) log-Ordered log-held refl

judge-window_example : 6 + 1000 ≤ 2000
unfolding judge judge_from
judge-window_example =
    judge-window 5 2000 3 6 limit log log-Ordered log-held (omega arith) (omega arith) refl refl
