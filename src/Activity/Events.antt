-- ===== src/Activity/Events.antt =====
-- What happens to the lists of a space over time (Activity of lib/activity.js), while its members
-- change.
use hypergraph.Prelude.{ℕ, ◌≡◌, ◌⊎◌, inl, inr, refl, Bool, Option, List, [], ◌∷◌}
use hypergraph.Limit.{BlockStamp}
use hypergraph.Activity.{Verdict, holds, fails, waits}
use hypergraph.Activity.Waiting.{
  Entry, Lists, Status, receive, receive_checked, log_refused, Channel, ask, on_list, retry,
  channel_opened, close,
}

-- What happens to the lists of a space.
pub data Event : Type 0 where
  received : Status → Entry → ℕ → Event
  settled : Option ℕ → BlockStamp → BlockStamp → Entry → ℕ → Event
  not_accepted : ℕ → Event
  asked : ℕ → List Channel → Event
  answered : ℕ → Option ℕ → Bool → List Channel → Event
  retried : ℕ → Option ℕ → List Channel → Event
  opened : List Channel → Event
  shut : Event

module _ (is_member : ℕ → Bool) where
  unfoldable pub happen : Lists → Event → Lists
  unfolding receive receive_checked log_refused ask on_list retry channel_opened close
  happen s (received status e now) = receive s status e now
  happen s (settled limit before at e now) = receive_checked s limit before at e now
  happen s (not_accepted log) = log_refused s log
  happen s (asked from channels) = ask is_member s from channels
  happen s (answered ch from done channels) = on_list is_member s ch from done channels
  happen s (retried now horizon channels) = retry is_member s now horizon channels
  happen s (opened channels) = channel_opened is_member s channels
  happen s shut = close s

-- What happens, and who is a member when it does.
pub record Moment : Type 0 where
  pub members : ℕ → Bool
  pub event : Event

unfoldable pub run : Lists → List Moment → Lists
unfolding happen
run s [] = s
run s (m ∷ ms) = run (happen m.members s m.event) ms

pub Verdict-cases : (v : Verdict) → (v ≡ holds) ⊎ (v ≡ fails) ⊎ (v ≡ waits)
Verdict-cases holds = inl refl
Verdict-cases fails = inr (inl refl)
Verdict-cases waits = inr (inr refl)
