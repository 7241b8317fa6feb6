-- ===== src/Activity/Tests.antt =====
-- A log whose third block is wiped, its entries taken in two parts; and the lists of a space that
-- meets a log's entry, reads its blocks and hears a stranger.
use hypergraph.Prelude.{
  ℕ, zero, suc, ◌≡◌, ◌≢◌, ◌≤◌, inl, refl, Bool, true, false, none, some, List, [], ◌∷◌, ◌++◌, arith,
  length, ◌==◌,
}
use hypergraph.Limit.{BlockStamp, absent, wiped, stamped}
use hypergraph.Activity.{period_of, derive, first_place, check_entry, fails}
use hypergraph.Activity.Derive.{AllHold, Continues, derive_holds}
use hypergraph.Activity.Cover.{Covers, derive-Covers}
use hypergraph.Activity.Waiting.{
  Entry, Channel, new_lists, unknown, accepted, refused, max_waiting, receive, receive_checked,
}
use hypergraph.Activity.Events.{
  received, settled, not_accepted, asked, answered, retried, opened, Moment, run, Event,
}
use hypergraph.Activity.Distinct.{AreDistinct}
use hypergraph.Activity.Bounds.{run-IsBounded}
use hypergraph.Activity.Strangers.{only_members_answer}
use hypergraph.Activity.Accounted.{IsTaken, IsCounted, entry-IsCounted}

abbrev in_list : List BlockStamp → ℕ → BlockStamp
in_list [] n = absent
in_list (b ∷ bs) zero = b
in_list (b ∷ bs) (suc n) = in_list bs n

abbrev stamps : ℕ → BlockStamp
stamps = in_list (
    absent
    ∷ stamped 3600001
    ∷ stamped 3600500
    ∷ wiped
    ∷ stamped 7300000
    ∷ stamped 7200000
    ∷ stamped 36000000
    ∷ [])

two_parts :
    (derive stamps (derive stamps first_place 3).place 9).entries
    ≡ record { period = 2; start = 3 } ∷ record { period = 10; start = 6 } ∷ []
unfolding derive period_of
two_parts = refl

derive_holds_example :
    AllHold stamps (some 9) (derive stamps first_place 9).entries
    × Continues stamps (derive stamps first_place 9).place
derive_holds_example =
    derive_holds stamps first_place 9 (some 9) (omega arith, inl refl, refl) (omega arith)
      (omega arith)

derive-Covers_example : Covers 5 (period_of 7200000) (
    (derive stamps first_place 3).entries
    ++ (derive stamps (derive stamps first_place 3).place 9).entries)
unfolding derive period_of
derive-Covers_example =
    derive-Covers stamps 3 9 5 7200000 (omega arith) (omega arith) (omega arith) refl

abbrev first : Entry
first = record { log = 4; period = 2; start = 3 }

abbrev lower : Entry
lower = record { log = 4; period = 2; start = 2 }

abbrev member : ℕ → Bool
member i = i == 8

abbrev stranger : ℕ → Bool
stranger ch = ch == 1

abbrev channels : List Channel
channels = record { id = 1; identity = none } ∷ record { id = 2; identity = some 8 } ∷ []

abbrev nobody : ℕ → Bool
nobody id = false

abbrev at_time : (ℕ → Bool) → Event → Moment
at_time is_member e = record { members = is_member; event = e }

-- The member of the second channel is none any more at the end.
abbrev events : List Moment
events =
    at_time member (received unknown first 10)
    ∷ at_time member (received unknown lower 20)
    ∷ at_time member (asked 0 channels)
    ∷ at_time member (answered 1 (some 0) true channels)
    ∷ at_time member (received (accepted none) lower 30)
    ∷ at_time member (settled none (stamped 3600500) (stamped 7300000) lower 40)
    ∷ at_time member (opened channels)
    ∷ at_time nobody (retried 90 (some 0) channels)
    ∷ at_time nobody (not_accepted 5)
    ∷ []

kept_now : (run new_lists events).rows ≡ lower ∷ []
unfolding run check_entry period_of
kept_now = refl

run-IsBounded_example :
    (length (run new_lists events).waiting ≤ max_waiting)
    × AreDistinct (run new_lists events).waiting
run-IsBounded_example = run-IsBounded new_lists events (omega arith) tt

only_members_answer_example : (run new_lists events).reached_from ≡ none
only_members_answer_example = only_members_answer stranger new_lists events refl tt (
  tt,
  (
    tt,
    (
      (λ h. refl, (λ h. ground arith, tt)),
      (
        (refl, (λ h. refl, (λ h. ground arith, tt))),
        (
          tt,
          (
            tt,
            (
              (λ h. refl, (λ h. ground arith, tt)),
              ((λ h. refl, (λ h. ground arith, tt)), (tt, tt)),
            ),
          ),
        ),
      ),
    ),
  ),
)

is_unknown : unknown ≢ refused
is_unknown h = cc

holds_now :
    check_entry (record { period = 2; start = 3 }) (stamped 3600500) (stamped 7300000) none ≢ fails
unfolding check_entry period_of
holds_now h = cc

entry-IsCounted_example :
    IsTaken (receive new_lists unknown first 10) first
    × IsCounted (receive_checked new_lists none (stamped 3600500) (stamped 7300000) first 20) first
entry-IsCounted_example =
    entry-IsCounted new_lists new_lists unknown none (stamped 3600500) (stamped 7300000) first 10 20
      refl refl is_unknown holds_now
