-- ===== src/Activity/Strangers.antt =====
-- Only a member's answer says from which period on a list is whole (Activity of lib/activity.js).
use hypergraph.Prelude.{
  ℕ, ◌≡◌, ◌≢◌, inl, inr, refl, sym, ap, ◌∙◌, Bool, true, false, Option, none, some, List, [], ◌∷◌,
  ltb, arith, if_splits, Bool-cases, subst, ◌==◌, ◌&&◌, ◌||◌, any, keep, length, find, Option-cases,
  not, includes, ==_iff, leb, ◌+◌,
}
use hypergraph.Limit.{BlockStamp}
use hypergraph.Activity.{check_entry}
use hypergraph.Activity.Waiting.{
  max_waiting, Entry, Asking, Lists, waiting_of, wait, Status, unknown, refused, accepted, receive,
  receive_checked, keep_row, unwait, checked, log_refused, Channel, ask_next, ask, on_list, retry,
  channel_opened, close, wait_ms, is_askable, is_equal, is_kept, is_lower, asks_from, ask_again,
}
use hypergraph.Activity.Events.{
  Event, received, settled, not_accepted, asked, answered, retried, opened, shut, happen, Moment,
  run, Verdict-cases,
}

||-false : (a b : Bool) → a || b ≡ false → (a ≡ false) × (b ≡ false)
||-false a b h = ground arith

true≢false : true ≢ false
true≢false h = cc

done_not : (closed done : Bool) → closed || not (done && false) ≡ true
done_not closed done = ground arith

some_inj : (a b : Channel) → some a ≡ some b → a ≡ b
some_inj a b h = cc

-- No stranger was asked.
abbrev pub NoneAsked : (ℕ → Bool) → Option Asking → Type 0
NoneAsked stranger none = Unit
NoneAsked stranger (some a) = any stranger a.asked ≡ false

module _ (is_member stranger : ℕ → Bool) where
  -- No stranger's channel is of a member.
  abbrev pub AreStrange : List Channel → Type 0
  AreStrange [] = Unit
  AreStrange (ch ∷ chs) =
      (stranger ch.id ≡ true → is_askable is_member [] ch ≡ false) × AreStrange chs

  -- Only strangers answer.
  abbrev pub IsStrange : Event → Type 0
  IsStrange (asked from channels) = AreStrange channels
  IsStrange (answered ch from done channels) = (stranger ch ≡ true) × AreStrange channels
  IsStrange (retried now horizon channels) = AreStrange channels
  IsStrange (opened channels) = AreStrange channels
  IsStrange _ = Unit

  abbrev IsUnreached : Lists → Type 0
  IsUnreached s = (s.reached_from ≡ none) × NoneAsked stranger s.asking

  askable_member :
      (ids : List ℕ) (ch : Channel)
      → is_askable is_member ids ch ≡ true
      → is_askable is_member [] ch ≡ true
  askable_member ids ch h = ground arith

  found_member :
      (ids : List ℕ) (channels : List Channel) (ch : Channel)
      → AreStrange channels
      → find (is_askable is_member ids) channels ≡ some ch
      → stranger ch.id ≡ false
  found_member ids [] ch a h = cc
  found_member ids (c ∷ cs) ch a h = elim (Bool-cases (is_askable is_member ids c)) [
    | inl k ↦
        subst (λ c'. stranger c'.id ≡ false) (some_inj c ch (rw k at h))
          (elim (Bool-cases (stranger c.id)) [
            | inl t ↦ absurd (true≢false (sym (askable_member ids c k) ∙ a.0 t))
            | inr f ↦ f
          ])
    | inr k ↦ found_member ids cs ch a.1 (rw k at h)
  ]

  same_stranger : (x ch : ℕ) → x ≡ ch → stranger ch ≡ true → stranger x ≢ false
  same_stranger x ch e s p = true≢false (sym s ∙ sym (ap stranger e) ∙ p)

  not_asked :
      (ids : List ℕ) (ch : ℕ)
      → stranger ch ≡ true
      → any stranger ids ≡ false
      → includes ch ids ≡ false
  not_asked [] ch s h = refl
  not_asked (x ∷ xs) ch s h =
      let (p, q) = ||-false (stranger x) (any stranger xs) h in
      elim (Bool-cases (x == ch)) [
        | inl e ↦ absurd (same_stranger x ch ((==_iff x ch).0 e) s p)
        | inr e ↦ rw e (not_asked xs ch s q)
      ]

  ask_next-IsUnreached :
      (s : Lists) (channels : List Channel)
      → AreStrange channels
      → IsUnreached s
      → IsUnreached (ask_next is_member s channels)
  unfolding ask_next
  ask_next-IsUnreached s channels q u = elim (Option-cases s.asking) [
    | inl h ↦ rw (h, ask_next) u
    | inr (a, h) ↦
        rw (h, ask_next)
          (if_splits (is_lower (some a.from) s.reached_from) IsUnreached
            (λ b. elim (Option-cases (find (is_askable is_member a.asked) channels)) [
              | inl k ↦ rw k (u.0, refl)
              | inr (ch, k) ↦ rw k (u.0, rw (found_member a.asked channels ch q k) (rw h at u.1))
            ])
            (λ b. (u.0, tt)))
  ]

  ask-IsUnreached :
      (s : Lists) (from : ℕ) (channels : List Channel)
      → AreStrange channels
      → IsUnreached s
      → IsUnreached (ask is_member s from channels)
  unfolding ask
  ask-IsUnreached s from channels q u =
      if_splits (s.closed || not (is_lower (some from) s.reached_from)) IsUnreached (λ h. u)
        (λ h.
          if_splits (asks_from is_member s.asking from) IsUnreached
            (λ k. ask_next-IsUnreached s channels q u)
            (λ k.
              ask_next-IsUnreached (record s { asking = some (record { from = from; asked = [] }) })
                channels q (u.0, refl)))

  on_list-IsUnreached :
      (s : Lists) (ch : ℕ) (from : Option ℕ) (done : Bool) (channels : List Channel)
      → stranger ch ≡ true
      → IsUnreached s
      → IsUnreached (on_list is_member s ch from done channels)
  unfolding on_list
  on_list-IsUnreached s ch from done channels t u = elim (Option-cases s.asking) [
    | inl h ↦ rw (h, on_list) u
    | inr (a, h) ↦
        let no : includes ch a.asked ≡ false = not_asked a.asked ch t (rw h at u.1) in
        rw (h, on_list, no, done_not s.closed done) u
  ]

  retry-IsUnreached :
      (s : Lists) (now : ℕ) (horizon : Option ℕ) (channels : List Channel)
      → AreStrange channels
      → IsUnreached s
      → IsUnreached (retry is_member s now horizon channels)
  unfolding retry ask_again
  retry-IsUnreached s now none channels q u =
      let s' : Lists = record s { waiting = keep (λ w. leb now (w.since + wait_ms)) s.waiting } in
      if_splits s.closed IsUnreached (λ h. u) (λ h. ask_next-IsUnreached s' channels q u)
  retry-IsUnreached s now (some p) channels q u =
      let s' : Lists = record s { waiting = keep (λ w. leb now (w.since + wait_ms)) s.waiting } in
      if_splits s.closed IsUnreached (λ h. u)
        (λ h.
          if_splits (is_lower (some p) s.reached_from) IsUnreached
            (λ k. ask-IsUnreached s' p channels q u) (λ k. ask_next-IsUnreached s' channels q u))

  wait-IsUnreached : (s : Lists) (e : Entry) (now : ℕ) → IsUnreached s → IsUnreached (wait s e now)
  unfolding wait
  wait-IsUnreached s e now u = elim (Option-cases (waiting_of s.waiting e)) [
    | inl h ↦
        rw (h, wait)
          (if_splits (ltb (length s.waiting) max_waiting) IsUnreached (λ k. u) (λ k. (refl, u.1)))
    | inr (w, h) ↦
        rw (h, wait) (if_splits (ltb e.start w.entry.start) IsUnreached (λ k. u) (λ k. u))
  ]

  receive-IsUnreached :
      (s : Lists) (status : Status) (e : Entry) (now : ℕ)
      → IsUnreached s
      → IsUnreached (receive s status e now)
  unfolding receive
  receive-IsUnreached s unknown e now u =
      if_splits (s.closed || (any (is_equal e) s.checking || is_kept s.rows e)) IsUnreached (λ h. u)
        (λ h. wait-IsUnreached s e now u)
  receive-IsUnreached s refused e now u =
      if_splits (s.closed || (any (is_equal e) s.checking || is_kept s.rows e)) IsUnreached (λ h. u)
        (λ h. u)
  receive-IsUnreached s (accepted limit) e now u =
      if_splits (s.closed || (any (is_equal e) s.checking || is_kept s.rows e)) IsUnreached (λ h. u)
        (λ h. u)

  receive_checked-IsUnreached :
      (s : Lists) (limit : Option ℕ) (before at : BlockStamp) (e : Entry) (now : ℕ)
      → IsUnreached s
      → IsUnreached (receive_checked s limit before at e now)
  unfolding receive_checked unwait checked keep_row
  receive_checked-IsUnreached s limit before at e now u =
      elim (Verdict-cases
        (check_entry (record { period = e.period; start = e.start }) before at limit)) [
          | inl h ↦
              rw (h, receive_checked)
                (if_splits (s.closed || is_kept s.rows e)
                  (λ (x : Lists). (x.reached_from ≡ none) × NoneAsked stranger x.asking) (λ k. u)
                  (λ k. u))
          | inr (inl h) ↦ rw (h, receive_checked) u
          | inr (inr h) ↦ rw (h, receive_checked) (wait-IsUnreached s e now u)
        ]

  channel_opened-IsUnreached :
      (s : Lists) (channels : List Channel)
      → AreStrange channels
      → IsUnreached s
      → IsUnreached (channel_opened is_member s channels)
  unfolding channel_opened
  channel_opened-IsUnreached s channels q u = elim (Option-cases s.asking) [
    | inl h ↦ rw (h, channel_opened) u
    | inr (a, h) ↦ rw (h, channel_opened) (ask_next-IsUnreached s channels q u)
  ]

  happen-IsUnreached :
      (s : Lists) (e : Event) → IsStrange e → IsUnreached s → IsUnreached (happen is_member s e)
  unfolding happen log_refused close
  happen-IsUnreached s (received status e now) q u = receive-IsUnreached s status e now u
  happen-IsUnreached s (settled limit before at e now) q u =
      receive_checked-IsUnreached s limit before at e now u
  happen-IsUnreached s (not_accepted log) q u = u
  happen-IsUnreached s (asked from channels) q u = ask-IsUnreached s from channels q u
  happen-IsUnreached s (answered ch from done channels) q u =
      on_list-IsUnreached s ch from done channels q.0 u
  happen-IsUnreached s (retried now horizon channels) q u =
      retry-IsUnreached s now horizon channels q u
  happen-IsUnreached s (opened channels) q u = channel_opened-IsUnreached s channels q u
  happen-IsUnreached s shut q u = u

module _ (stranger : ℕ → Bool) where
  abbrev pub StrangeMoments : List Moment → Type 0
  StrangeMoments [] = Unit
  StrangeMoments (m ∷ ms) = IsStrange m.members stranger m.event × StrangeMoments ms

  -- If no list was received whole and no stranger asked, and none but strangers answer, channels
  -- whose peers did not prove to be members, then whatever happens no list counts as received
  -- whole.
  pub only_members_answer :
      (s : Lists) (ms : List Moment)
      → s.reached_from ≡ none
      → NoneAsked stranger s.asking
      → StrangeMoments ms
      → (run s ms).reached_from ≡ none
  unfolding run
  only_members_answer s [] r n q = r
  only_members_answer s (m ∷ ms) r n q =
      let next = happen-IsUnreached m.members stranger s m.event q.0 (r, n) in
      only_members_answer (happen m.members s m.event) ms next.0 next.1 q.1
