-- ===== src/State/Touched.antt =====
-- What changed view keys touch (touched in lib/decisions/state.js), and what they leave alone.
use hypergraph.Prelude.{
  ℕ, Bool, true, false, Option, none, some, List, [], ◌∷◌, ◌++◌, if◌then◌else◌, includes,
}
use hypergraph.State.Data
use hypergraph.State.Data.{Part, State, Entry, Change, at, part_of}

pub record Touched : Type 0 where
  pub all : Bool
  pub ids : List ℕ
  pub mods : List ℕ
  pub listed : List ℕ
  pub types : Bool

-- Set#add
abbrev pub add : List ℕ → ℕ → List ℕ
add xs x = if includes x xs then xs else xs ++ x ∷ []

abbrev pub touch_id : ℕ → Touched → Touched
touch_id id t = record t { ids = add t.ids id }

abbrev pub touch_all : Touched → Touched
touch_all t = record t { all = true }

unfoldable pub touch_entry : Entry → Touched → Touched
touch_entry (Data.meta v) t = touch_all t
touch_entry (Data.epochs v) t = t
touch_entry (Data.member id v) t = touch_id id t
touch_entry (Data.revoked id v) t = t
touch_entry (Data.cut id v) t = touch_id id t
touch_entry (Data.admit id v) t = touch_id id t
touch_entry (Data.editcut id v) t = touch_id id t
touch_entry (Data.banned id v) t = touch_id id t
touch_entry (Data.moderated id v) t = record t { mods = add t.mods id }
touch_entry (Data.redeemed invite id v) t = t
touch_entry (Data.uses invite v) t = t

unfoldable pub touch : Change → Touched → Touched
unfolding touch_entry
touch (at s e) t = touch_entry e t
touch (Data.writer key v) t = t
touch (Data.writers id v) t = t
touch (Data.gone id device v) t = t
touch (Data.role name v) t = touch_all t
touch (Data.subspace key v) t = touch_all t
touch (Data.subspaces v) t = touch_all t
touch (Data.listed log v) t = record t { listed = add t.listed log }
touch (Data.types v) t = record t { all = true; types = true }
touch (Data.types_at version v) t = touch_all t

unfoldable pub touch_each : List Change → Touched → Touched
unfolding touch
touch_each [] t = t
touch_each (c ∷ changes) t = touch_each changes (touch c t)

-- `none` is null, a full read: everything may have changed.
unfoldable pub touched : Option (List Change) → Touched
unfolding touch_each
touched none = record { all = true; ids = []; mods = []; listed = []; types = true }
touched (some changes) =
    touch_each changes (record { all = false; ids = []; mods = []; listed = []; types = false })
