-- ===== src/Stamp/Rising.antt =====
-- A device's own stamps (Stamper of lib/stamp.js).
use hypergraph.Prelude.{ℕ, ◌≤◌, ◌<◌, List, [], ◌∷◌}
use hypergraph.Stamp.{max, seen, next}

-- What a Stamper is told and asked, with the clock's time at each stamp.
pub data Event : Type 0 where
  see : ℕ → Event
  give : ℕ → ℕ → Event

-- The stamps given, in order.
unfoldable pub given : ℕ → List Event → List ℕ
unfolding seen next
given newest [] = []
given newest (see stamp ∷ events) = given (seen newest stamp) events
given newest (give now replaces ∷ events) =
    next newest now replaces ∷ given (next newest now replaces) events

-- Of the newest stamp known, the events and the stamps given: each is above every stamp seen or
-- given before and above the one it replaces, and no lower than the clock.
unfoldable pub Follows : ℕ → List Event → List ℕ → Type 0
Follows known [] [] = Unit
Follows known [] (x ∷ xs) = ⊥
Follows known (see stamp ∷ events) xs = Follows (max known stamp) events xs
Follows known (give now replaces ∷ events) [] = ⊥
Follows known (give now replaces ∷ events) (x ∷ xs) =
    (known < x) × (replaces < x) × (now ≤ x) × Follows x events xs
