-- ===== src/Stamp.antt =====
-- lib/stamp.js: the stamps that a device gives, and which of several versions of a record counts.
-- Devices' keys are numbers in the order of b4a.compare; `content` is the rest of a version.
pub mod Rising
pub mod Latest
pub mod Tests
use hypergraph.Prelude.{
  ℕ, suc, ◌+◌, ◌*◌, Bool, Option, none, some, List, [], ◌∷◌, ◌==◌, if◌then◌else◌, not, ltb,
}

abbrev pub max : ℕ → ℕ → ℕ
max a b = if ltb a b then b else a

-- Stamper: the newest stamp seen of the identity
unfoldable pub seen : ℕ → ℕ → ℕ
seen newest stamp = if ltb newest stamp then stamp else newest

-- next, at a time of the device's clock: the stamp given, which is the newest then
unfoldable pub next : ℕ → ℕ → ℕ → ℕ
next newest now replaces = max now (max (suc newest) (suc replaces))

pub record Version : Type 0 where
  pub stamp : ℕ
  pub device : ℕ
  pub content : ℕ

-- compare(a, b) > 0
unfoldable pub wins : Version → Version → Bool
wins a b = if a.stamp == b.stamp then ltb a.device b.device else ltb b.stamp a.stamp

unfoldable pub latest_from : Version → List Version → Version
unfolding wins
latest_from best [] = best
latest_from best (v ∷ versions) = latest_from (if wins v best then v else best) versions

unfoldable pub latest : List Version → Option Version
unfolding latest_from
latest [] = none
latest (v ∷ versions) = some (latest_from v versions)

abbrev pub future_ms : ℕ
future_ms = 10 * 60 * 1000

unfoldable pub is_future : ℕ → ℕ → Bool
is_future stamp now = ltb (now + future_ms) stamp
