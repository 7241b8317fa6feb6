-- ===== src/Activity/Bounds.antt =====
-- How many entries wait (Activity of lib/activity.js).
use hypergraph.Prelude.{
  ℕ, ◌+◌, ◌≡◌, ◌≤◌, inl, inr, refl, ◌∙◌, Bool, Option, none, some, List, [], ◌∷◌, ltb, leb, arith,
  if_splits, ◌==◌, ◌&&◌, ◌||◌, any, keep, length, find, Option-cases, not, includes, ltb→lt,
  if_same,
}
use hypergraph.Limit.{BlockStamp}
use hypergraph.Activity.{check_entry}
use hypergraph.Activity.Waiting.{
  max_waiting, Entry, Waiting, Lists, is_same, waiting_of, wait, Status, unknown, refused, accepted,
  reach, finish, ask_again, asks_from, is_askable, is_lower, max_from, receive, is_equal, is_kept,
  receive_checked, keep_row, unwait, checked, log_refused, Channel, ask_next, ask, on_list, retry,
  channel_opened, close, wait_ms,
}
use hypergraph.Activity.Events.{
  Event, received, settled, not_accepted, asked, answered, retried, opened, shut, happen, Moment,
  run, Verdict-cases,
}
use hypergraph.Activity.Distinct.{
  AreDistinct, length-put_waiting, put_waiting-AreDistinct, length-keep, keep-AreDistinct,
}

abbrev IsBounded : List Waiting → Type 0
IsBounded ws = (length ws ≤ max_waiting) × AreDistinct ws

wait-IsBounded :
    (s : Lists) (e : Entry) (now : ℕ) → IsBounded s.waiting → IsBounded (wait s e now).waiting
unfolding wait
wait-IsBounded s e now (l, d) =
    let v : Waiting = record { entry = e; since = now } in
    let longer = length-put_waiting s.waiting v in
    let distinct = put_waiting-AreDistinct s.waiting v d in
    elim (Option-cases (waiting_of s.waiting e)) [
      | inl h ↦
          rw (h, wait)
            (if_splits (ltb (length s.waiting) max_waiting) (λ (x : Lists). IsBounded x.waiting)
              (λ k. (
                omega (arith, ltb→lt (length s.waiting) max_waiting k, (rw h at longer)),
                distinct,
              ))
              (λ k. (l, d)))
      | inr (w, h) ↦
          rw (h, wait)
            (if_splits (ltb e.start w.entry.start) (λ (x : Lists). IsBounded x.waiting)
              (λ k. (omega (arith, (rw h at longer)), distinct)) (λ k. (l, d)))
    ]

receive-IsBounded :
    (s : Lists) (status : Status) (e : Entry) (now : ℕ)
    → IsBounded s.waiting
    → IsBounded (receive s status e now).waiting
unfolding receive
receive-IsBounded s unknown e now b =
    if_splits (s.closed || (any (is_equal e) s.checking || is_kept s.rows e))
      (λ (x : Lists). IsBounded x.waiting) (λ h. b) (λ h. wait-IsBounded s e now b)
receive-IsBounded s refused e now b =
    if_splits (s.closed || (any (is_equal e) s.checking || is_kept s.rows e))
      (λ (x : Lists). IsBounded x.waiting) (λ h. b) (λ h. b)
receive-IsBounded s (accepted limit) e now b =
    if_splits (s.closed || (any (is_equal e) s.checking || is_kept s.rows e))
      (λ (x : Lists). IsBounded x.waiting) (λ h. b) (λ h. b)

keep-IsBounded : (p : Waiting → Bool) (ws : List Waiting) → IsBounded ws → IsBounded (keep p ws)
keep-IsBounded p ws (l, d) = (omega (arith, length-keep p ws), keep-AreDistinct p ws d)

keep_row-waiting : (s : Lists) (e : Entry) → (keep_row s e).waiting ≡ s.waiting
unfolding keep_row
keep_row-waiting s e = if_same (s.closed || is_kept s.rows e) (λ (x : Lists). x.waiting) refl refl

receive_checked-IsBounded :
    (s : Lists) (limit : Option ℕ) (before at : BlockStamp) (e : Entry) (now : ℕ)
    → IsBounded s.waiting
    → IsBounded (receive_checked s limit before at e now).waiting
unfolding receive_checked unwait checked
receive_checked-IsBounded s limit before at e now b =
    elim (Verdict-cases
      (check_entry (record { period = e.period; start = e.start }) before at limit)) [
        | inl h ↦
            rw (h, receive_checked)
              (keep-IsBounded (λ w. not (is_same w.entry e && leb e.start w.entry.start))
                (keep_row s e).waiting (rw (keep_row-waiting s e) b))
        | inr (inl h) ↦
            rw (h, receive_checked)
              (keep-IsBounded (λ w. not (is_same w.entry e && (w.entry.start == e.start))) s.waiting
                b)
        | inr (inr h) ↦ rw (h, receive_checked) (wait-IsBounded s e now b)
      ]

-- Asking changes nothing of what waits.
module _ (is_member : ℕ → Bool) (channels : List Channel) where
  ask_next-waiting : (s : Lists) → (ask_next is_member s channels).waiting ≡ s.waiting
  unfolding ask_next
  ask_next-waiting s = elim (Option-cases s.asking) [
    | inl h ↦ rw (h, ask_next) refl
    | inr (a, h) ↦
        rw (h, ask_next)
          (if_same (is_lower (some a.from) s.reached_from) (λ (x : Lists). x.waiting)
            (elim (Option-cases (find (is_askable is_member a.asked) channels)) [
              | inl k ↦ rw k refl
              | inr (ch, k) ↦ rw k refl
            ])
            refl)
  ]

  channel_opened-waiting : (s : Lists) → (channel_opened is_member s channels).waiting ≡ s.waiting
  unfolding channel_opened
  channel_opened-waiting s = elim (Option-cases s.asking) [
    | inl h ↦ rw (h, channel_opened) refl
    | inr (a, h) ↦ rw (h, channel_opened) (ask_next-waiting s)
  ]

  ask-waiting : (s : Lists) (from : ℕ) → (ask is_member s from channels).waiting ≡ s.waiting
  unfolding ask
  ask-waiting s from =
      if_same (s.closed || not (is_lower (some from) s.reached_from)) (λ (x : Lists). x.waiting)
        refl
        (if_same (asks_from is_member s.asking from) (λ (x : Lists). x.waiting) (ask_next-waiting s)
          (ask_next-waiting (record s { asking = some (record { from = from; asked = [] }) })))

  reach-waiting : (s : Lists) (r : Option ℕ) → (reach is_member s r).waiting ≡ s.waiting
  unfolding reach
  reach-waiting s r = if_same (is_lower r s.reached_from) (λ (x : Lists). x.waiting) refl refl

  finish-waiting : (s : Lists) (from : ℕ) → (finish is_member s from channels).waiting ≡ s.waiting
  unfolding finish
  finish-waiting s from =
      if_same (is_lower (some from) s.reached_from) (λ (x : Lists). x.waiting) (ask_next-waiting s)
        refl

  on_list-waiting :
      (s : Lists) (ch : ℕ) (from : Option ℕ) (done : Bool)
      → (on_list is_member s ch from done channels).waiting ≡ s.waiting
  unfolding on_list
  on_list-waiting s ch from done = elim (Option-cases s.asking) [
    | inl h ↦ rw (h, on_list) refl
    | inr (a, h) ↦
        rw (h, on_list)
          (if_same (s.closed || not (done && includes ch a.asked)) (λ (x : Lists). x.waiting) refl
            (finish-waiting (reach is_member s (max_from from a.from)) a.from
              ∙ reach-waiting s (max_from from a.from)))
  ]

  ask_again-waiting :
      (s : Lists) (horizon : Option ℕ)
      → (ask_again is_member s horizon channels).waiting ≡ s.waiting
  unfolding ask_again
  ask_again-waiting s none = ask_next-waiting s
  ask_again-waiting s (some h) =
      if_same (is_lower (some h) s.reached_from) (λ (x : Lists). x.waiting) (ask-waiting s h)
        (ask_next-waiting s)

  retry-IsBounded :
      (s : Lists) (now : ℕ) (horizon : Option ℕ)
      → IsBounded s.waiting
      → IsBounded (retry is_member s now horizon channels).waiting
  unfolding retry
  retry-IsBounded s now horizon b =
      let p : Waiting → Bool = λ w. leb now (w.since + wait_ms) in
      let s' : Lists = record s { waiting = keep p s.waiting } in
      if_splits s.closed (λ (x : Lists). IsBounded x.waiting) (λ h. b)
        (λ h. rw (ask_again-waiting s' horizon) (keep-IsBounded p s.waiting b))

happen-IsBounded :
    (is_member : ℕ → Bool) (s : Lists) (e : Event)
    → IsBounded s.waiting
    → IsBounded (happen is_member s e).waiting
unfolding happen log_refused close
happen-IsBounded m s (received status e now) b = receive-IsBounded s status e now b
happen-IsBounded m s (settled limit before at e now) b =
    receive_checked-IsBounded s limit before at e now b
happen-IsBounded m s (not_accepted log) b =
    keep-IsBounded (λ w. not (w.entry.log == log)) s.waiting b
happen-IsBounded m s (asked from channels) b = rw (ask-waiting m channels s from) b
happen-IsBounded m s (answered ch from done channels) b =
    rw (on_list-waiting m channels s ch from done) b
happen-IsBounded m s (retried now horizon channels) b = retry-IsBounded m channels s now horizon b
happen-IsBounded m s (opened channels) b = rw (channel_opened-waiting m channels s) b
happen-IsBounded m s shut b = b

-- Whatever entries, answers and refused logs come in, if at most 1000 entries wait and no two of
-- them are for the same log and period, so it is afterwards.
pub run-IsBounded :
    (s : Lists) (ms : List Moment)
    → length s.waiting ≤ max_waiting
    → AreDistinct s.waiting
    → (length (run s ms).waiting ≤ max_waiting) × AreDistinct (run s ms).waiting
unfolding run
run-IsBounded s [] l d = (l, d)
run-IsBounded s (m ∷ ms) l d =
    let b = happen-IsBounded m.members s m.event (l, d) in
    run-IsBounded (happen m.members s m.event) ms b.0 b.1
