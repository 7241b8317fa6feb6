-- ===== src/Activity/Waiting.antt =====
-- Activity of lib/activity.js: the entries kept, being checked and waiting, and which member is asked
-- for those this side lacks. `receive` runs up to the reading of blocks, `receive_checked` after it; what the
-- directory says of a log, the stamps read, the clock and the members are given.
use hypergraph.Prelude.{
  ℕ, ◌+◌, Bool, true, false, Option, none, some, List, [], ◌∷◌, ◌==◌, ◌&&◌, ◌||◌, if◌then◌else◌,
  not, any, find, includes, keep, leb, length, ltb,
}
use hypergraph.Limit.{BlockStamp}
use hypergraph.Activity.{holds, fails, waits, check_entry}

abbrev pub max_waiting : ℕ
max_waiting = 1000

abbrev pub wait_ms : ℕ
wait_ms = 60000

pub record Entry : Type 0 where
  pub log : ℕ
  pub period : ℕ
  pub start : ℕ

pub record Waiting : Type 0 where
  pub entry : Entry
  pub since : ℕ

-- { from, asked }
pub record Asking : Type 0 where
  pub from : ℕ
  pub asked : List ℕ

-- `rows`: what is kept in the index. `waiting` is in the Map's order. `reached_from`: none is
-- Infinity.
pub record Lists : Type 0 where
  pub rows : List Entry
  pub waiting : List Waiting
  pub checking : List Entry
  pub reached_from : Option ℕ
  pub asking : Option Asking
  pub closed : Bool

abbrev pub new_lists : Lists
new_lists = record {
  rows = [];
  waiting = [];
  checking = [];
  reached_from = none;
  asking = none;
  closed = false;
}

-- `${log}:${period}`, the key of a Map and of a row
unfoldable pub is_same : Entry → Entry → Bool
is_same a b = (a.log == b.log) && (a.period == b.period)

-- `${log}:${period}:${start}`
abbrev pub is_equal : Entry → Entry → Bool
is_equal a b = is_same a b && (a.start == b.start)

-- a < b, none being Infinity
abbrev pub is_lower : Option ℕ → Option ℕ → Bool
is_lower none b = false
is_lower (some a) none = true
is_lower (some a) (some b) = ltb a b

abbrev pub max_from : Option ℕ → ℕ → Option ℕ
max_from none b = none
max_from (some a) b = some (if ltb a b then b else a)

abbrev pub row_of : List Entry → Entry → Option Entry
row_of rows e = find (λ r. is_same r e) rows

abbrev pub waiting_of : List Waiting → Entry → Option Waiting
waiting_of ws e = find (λ w. is_same w.entry e) ws

-- Map#set, in the place of what has the key, and insert.
unfoldable pub put_waiting : List Waiting → Waiting → List Waiting
put_waiting [] v = v ∷ []
put_waiting (w ∷ ws) v = if is_same w.entry v.entry then v ∷ ws else w ∷ put_waiting ws v

unfoldable pub put_row : List Entry → Entry → List Entry
put_row [] e = e ∷ []
put_row (r ∷ rows) e = if is_same r e then e ∷ rows else r ∷ put_row rows e

-- #wait
unfoldable pub wait : Lists → Entry → ℕ → Lists
unfolding put_waiting is_same
wait s e now =
    let set = record s { waiting = put_waiting s.waiting (record { entry = e; since = now }) } in
    elim (waiting_of s.waiting e) [
      | some w ↦ if ltb e.start w.entry.start then set else s
      | none ↦ if ltb (length s.waiting) max_waiting then set else record s { reached_from = none }
    ]

-- What the directory says of a log, with the log's cut where it was accepted.
pub data Status : Type 0 where
  unknown refused : Status
  accepted : Option ℕ → Status

abbrev pub is_kept : List Entry → Entry → Bool
is_kept rows e = elim (row_of rows e) [ none ↦ false | some r ↦ leb r.start e.start ]

unfoldable pub receive : Lists → Status → Entry → ℕ → Lists
unfolding wait
receive s status e now =
    if s.closed || (any (is_equal e) s.checking || is_kept s.rows e) then s else (elim status [
      | unknown ↦ wait s e now
      | refused ↦ s
      | accepted limit ↦ record s { checking = e ∷ s.checking }
    ])

-- An entry that holds becomes a row if there is none with a start as low.
unfoldable pub keep_row : Lists → Entry → Lists
unfolding put_row
keep_row s e = if s.closed || is_kept s.rows e then s else record s { rows = put_row s.rows e }

-- no entry for the log and the period waits any more, if the one that does is `gone`
unfoldable pub unwait : (Entry → Bool) → Lists → Entry → Lists
unfolding is_same
unwait gone s e = record s {
  waiting = keep (λ w. not (is_same w.entry e && gone w.entry)) s.waiting;
}

-- `finally`
unfoldable pub checked : Lists → Entry → Lists
checked s e = record s { checking = keep (λ c. not (is_equal c e)) s.checking }

unfoldable pub receive_checked : Lists → Option ℕ → BlockStamp → BlockStamp → Entry → ℕ → Lists
unfolding wait keep_row unwait checked
receive_checked s limit before at e now =
    elim (check_entry (record { period = e.period; start = e.start }) before at limit) [
      | waits ↦ checked (wait s e now) e
      | holds ↦ checked (unwait (λ w. leb e.start w.start) (keep_row s e) e) e
      | fails ↦ checked (unwait (λ w. w.start == e.start) s e) e
    ]

unfoldable pub log_refused : Lists → ℕ → Lists
log_refused s log = record s { waiting = keep (λ w. not (w.entry.log == log)) s.waiting }

unfoldable pub close : Lists → Lists
close s = record s { closed = true }

unfoldable pub waiting_from : Lists → ℕ → Bool
waiting_from s period =
    any (λ w. leb period w.entry.period) s.waiting || any (λ e. leb period e.period) s.checking

-- A channel, and who its hello proved its peer to be.
pub record Channel : Type 0 where
  pub id : ℕ
  pub identity : Option ℕ

module _ (is_member : ℕ → Bool) where
  abbrev pub is_askable : List ℕ → Channel → Bool
  is_askable asked ch =
      not (includes ch.id asked) && elim ch.identity [ none ↦ false | some i ↦ is_member i ]

  unfoldable pub ask_next : Lists → List Channel → Lists
  ask_next s channels = elim s.asking [
    | none ↦ s
    | some a ↦
        if is_lower (some a.from) s.reached_from
        then (elim (find (is_askable a.asked) channels) [
          | none ↦ record s { asking = some (record { from = a.from; asked = [] }) }
          | some ch ↦ record s { asking = some (record { from = a.from; asked = ch.id ∷ a.asked }) }
        ])
        else record s { asking = none }
  ]

  abbrev pub asks_from : Option Asking → ℕ → Bool
  asks_from none from = false
  asks_from (some a) from = leb a.from from

  unfoldable pub ask : Lists → ℕ → List Channel → Lists
  unfolding ask_next
  ask s from channels =
      if s.closed || not (is_lower (some from) s.reached_from)
      then s
      else if asks_from s.asking from
      then ask_next s channels
      else ask_next (record s { asking = some (record { from = from; asked = [] }) }) channels

  -- channelOpened
  unfoldable pub channel_opened : Lists → List Channel → Lists
  unfolding ask_next
  channel_opened s channels = elim s.asking [ none ↦ s | some a ↦ ask_next s channels ]

  -- onList, once its entries were received; `reach` is its new `reachedFrom`
  unfoldable pub reach : Lists → Option ℕ → Lists
  reach s reached =
      if is_lower reached s.reached_from then record s { reached_from = reached } else s

  unfoldable pub finish : Lists → ℕ → List Channel → Lists
  unfolding ask_next
  finish s from channels =
      if is_lower (some from) s.reached_from
      then ask_next s channels
      else record s { asking = none }

  unfoldable pub on_list : Lists → ℕ → Option ℕ → Bool → List Channel → Lists
  unfolding reach finish
  on_list s ch from done channels = elim s.asking [
    | none ↦ s
    | some a ↦
        if s.closed || not (done && includes ch a.asked)
        then s
        else finish (reach s (max_from from a.from)) a.from channels
  ]

  -- #retry: what waited too long is dropped; `horizon` is the period the space reads back to. The
  -- entries that still wait are received again, or their logs considered.
  unfoldable pub ask_again : Lists → Option ℕ → List Channel → Lists
  unfolding ask ask_next
  ask_again s none channels = ask_next s channels
  ask_again s (some h) channels =
      if is_lower (some h) s.reached_from then ask s h channels else ask_next s channels

  unfoldable pub retry : Lists → ℕ → Option ℕ → List Channel → Lists
  unfolding ask_again
  retry s now horizon channels =
      if s.closed
      then s
      else ask_again (record s { waiting = keep (λ w. leb now (w.since + wait_ms)) s.waiting })
          horizon channels
