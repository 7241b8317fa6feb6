-- ===== src/Activity/Accounted.antt =====
-- No entry is lost in silence (Activity#receive of lib/activity.js).
use hypergraph.Prelude.{
  ℕ, ◌≡◌, ◌≢◌, ◌≤◌, ◌⊎◌, inl, inr, refl, ◌∙◌, Bool, true, false, Option, none, some, List, [], ◌∷◌,
  ltb, arith, if_splits, Bool-cases, ◌||◌, any, length, Option-cases,
}
use hypergraph.Limit.{BlockStamp}
use hypergraph.Activity.{fails, check_entry}
use hypergraph.Activity.Waiting.{
  max_waiting, Entry, Waiting, Lists, is_same, waiting_of, put_waiting, wait, Status, unknown,
  refused, accepted, receive, receive_checked, keep_row, unwait, checked, is_equal, is_kept, row_of,
  put_row,
}
use hypergraph.Activity.Events.{Verdict-cases}
use hypergraph.Activity.Distinct.{waiting_of-put_waiting}

-- An entry for the log and the period, with a start as low, waits.
abbrev pub Waits : Lists → Entry → Type 0
Waits s e = (w : Waiting) × (waiting_of s.waiting e ≡ some w) × (w.entry.start ≤ e.start)

-- A row or an entry that waits is as good, or it is known that the lists are not whole.
abbrev pub IsCounted : Lists → Entry → Type 0
IsCounted s e = (is_kept s.rows e ≡ true) ⊎ Waits s e ⊎ (s.reached_from ≡ none)

abbrev pub IsChecking : Lists → Entry → Type 0
IsChecking s e = any (is_equal e) s.checking ≡ true

same_self : (e : Entry) → is_same e e ≡ true
unfolding is_same
same_self e = ground arith

equal_self : (e : Entry) → is_equal e e ≡ true
unfolding is_same
equal_self e = ground arith

wait-IsCounted : (s : Lists) (e : Entry) (now : ℕ) → IsCounted (wait s e now) e
unfolding wait
wait-IsCounted s e now =
    let v : Waiting = record { entry = e; since = now } in
    let there : waiting_of (put_waiting s.waiting v) e ≡ some v =
      waiting_of-put_waiting s.waiting v e ∙ rw (same_self e) refl in
    elim (Option-cases (waiting_of s.waiting e)) [
      | inl h ↦
          rw (h, wait)
            (if_splits (ltb (length s.waiting) max_waiting) (λ (x : Lists). IsCounted x e)
              (λ k. inr (inl (v, there, omega arith))) (λ k. inr (inr refl)))
      | inr (w, h) ↦
          rw (h, wait)
            (if_splits (ltb e.start w.entry.start) (λ (x : Lists). IsCounted x e)
              (λ k. inr (inl (v, there, omega arith))) (λ k. inr (inl (w, h, ground arith))))
    ]

row_of-put_row : (rows : List Entry) (e : Entry) → row_of (put_row rows e) e ≡ some e
unfolding put_row
row_of-put_row [] e = rw (same_self e) refl
row_of-put_row (r ∷ rows) e = elim (Bool-cases (is_same r e)) [
  | inl h ↦ rw (h, same_self e) refl
  | inr h ↦ rw (h, h) (row_of-put_row rows e)
]

is_kept-put_row : (rows : List Entry) (e : Entry) → is_kept (put_row rows e) e ≡ true
is_kept-put_row rows e = rw (is_kept, row_of-put_row rows e) (ground arith)

keep_row-is_kept : (s : Lists) (e : Entry) → s.closed ≡ false → is_kept (keep_row s e).rows e ≡ true
unfolding keep_row
keep_row-is_kept s e c = rw c (
    if_splits (is_kept s.rows e) (λ (x : Lists). is_kept x.rows e ≡ true) (λ h. h)
      (λ h. is_kept-put_row s.rows e))

abbrev pub IsTaken : Lists → Entry → Type 0
IsTaken s e = IsCounted s e ⊎ IsChecking s e

or_right : (a b : Bool) → a ≡ false → a || b ≡ true → b ≡ true
or_right a b c h = ground arith

already :
    (s : Lists) (e : Entry) → any (is_equal e) s.checking || is_kept s.rows e ≡ true → IsTaken s e
already s e h = elim (Bool-cases (is_kept s.rows e)) [
  | inl k ↦ inl (inl k)
  | inr k ↦ inr (ground arith)
]

receive_counts :
    (s : Lists) (status : Status) (e : Entry) (now : ℕ)
    → s.closed ≡ false
    → status ≢ refused
    → IsTaken (receive s status e now) e
unfolding receive
receive_counts s unknown e now c n =
    if_splits (s.closed || (any (is_equal e) s.checking || is_kept s.rows e))
      (λ (x : Lists). IsTaken x e)
      (λ h. already s e (or_right s.closed (any (is_equal e) s.checking || is_kept s.rows e) c h))
      (λ h. inl (wait-IsCounted s e now))
receive_counts s refused e now c n = absurd (n refl)
receive_counts s (accepted limit) e now c n =
    if_splits (s.closed || (any (is_equal e) s.checking || is_kept s.rows e))
      (λ (x : Lists). IsTaken x e)
      (λ h. already s e (or_right s.closed (any (is_equal e) s.checking || is_kept s.rows e) c h))
      (λ h. inr (rw (equal_self e) refl))

receive_checked_counts :
    (s : Lists) (limit : Option ℕ) (before at : BlockStamp) (e : Entry) (now : ℕ)
    → s.closed ≡ false
    → check_entry (record { period = e.period; start = e.start }) before at limit ≢ fails
    → IsCounted (receive_checked s limit before at e now) e
unfolding receive_checked unwait checked
receive_checked_counts s limit before at e now c n =
    elim (Verdict-cases
      (check_entry (record { period = e.period; start = e.start }) before at limit)) [
        | inl h ↦ rw (h, receive_checked) (inl (keep_row-is_kept s e c))
        | inr (inl h) ↦ absurd (n h)
        | inr (inr h) ↦ rw (h, receive_checked) (wait-IsCounted s e now)
      ]

-- An entry received while the lists are open, for a log not refused, is being checked, or is kept
-- or waits with a start as low, or the lists are known not to be whole; and once its check was
-- made and did not fail, it is kept or waits so, or the lists are known not to be whole.
pub entry-IsCounted :
    (s s' : Lists) (status : Status) (limit : Option ℕ) (before at : BlockStamp) (e : Entry)
    (now now' : ℕ)
    → s.closed ≡ false
    → s'.closed ≡ false
    → status ≢ refused
    → check_entry (record { period = e.period; start = e.start }) before at limit ≢ fails
    → IsTaken (receive s status e now) e × IsCounted (receive_checked s' limit before at e now') e
entry-IsCounted s s' status limit before at e now now' c c' n v =
    (receive_counts s status e now c n, receive_checked_counts s' limit before at e now' c' v)
