-- ===== src/State/Effective.antt =====
-- A sub-space's state as it counts (State#sub and SubState of lib/decisions/state.js). A SubState
-- is made from its parent's; the parents are followed with one round of fuel for each sub-space
-- held, and one more.
use hypergraph.Prelude.{
  ℕ, zero, suc, Bool, not, ◌||◌, Option, none, some, List, [], ◌∷◌, if◌then◌else◌, is_some, length,
  get, put, min,
}
use hypergraph.Roles.{Permission, eq_permission, is_owner, is_admin}
use hypergraph.Decisions.View.{Scope, top, sub, Subspace}
use hypergraph.State.Data.{Known, Part, State, part_of}

-- One SubState: its key, its parent's entry for it, and its own entries.
pub record Layer : Type 0 where
  pub key : ℕ
  pub info : Subspace
  pub part : Part

-- The state of a scope: the layers from the sub-space itself up, above the space's own state.
-- No layer: the space itself.
abbrev pub Layers : Type 0
Layers = List Layer

-- A private sub-space takes over its parent's owner and admins only.
unfoldable pub pass : Subspace → Option Known → Option Known
pass info none = none
pass info (some up) =
    if not info.is_private || is_owner (some up.role) || is_admin (some up.role)
    then some up
    else none

-- lowest(a, b): every log of either, with the lower length
abbrev pub lower : Option ℕ → ℕ → ℕ
lower none length = length
lower (some other) length = min other length

unfoldable pub lowest : List (ℕ × ℕ) → List (ℕ × ℕ) → List (ℕ × ℕ)
lowest a [] = a
lowest a ((log, length) ∷ b) = lowest (put a log (lower (get a log) length)) b

abbrev pub or_no_logs : Option (List (ℕ × ℕ)) → List (ℕ × ℕ)
or_no_logs none = []
or_no_logs (some logs) = logs

abbrev pub EditCuts : Type 0
EditCuts = List (Permission × List (ℕ × ℕ))

unfoldable pub get_cut : EditCuts → Permission → Option (List (ℕ × ℕ))
get_cut [] p = none
get_cut ((q, logs) ∷ cuts) p = if eq_permission q p then some logs else get_cut cuts p

unfoldable pub put_cut : EditCuts → Permission → List (ℕ × ℕ) → EditCuts
put_cut [] p v = (p, v) ∷ []
put_cut ((q, logs) ∷ cuts) p v =
    if eq_permission q p then (q, v) ∷ cuts else (q, logs) ∷ put_cut cuts p v

unfoldable pub merge_cuts : EditCuts → EditCuts → EditCuts
unfolding get_cut put_cut lowest
merge_cuts a [] = a
merge_cuts a ((p, logs) ∷ b) = merge_cuts (put_cut a p (lowest (or_no_logs (get_cut a p)) logs)) b

abbrev pub or_no_cuts : Option EditCuts → EditCuts
or_no_cuts none = []
or_no_cuts (some cuts) = cuts

module _ (state : State) where
  -- _banned
  unfoldable pub banned : Layers → ℕ → Bool
  banned [] id = is_some (get state.own.banned id)
  banned (l ∷ up) id = is_some (get l.part.banned id) || banned up id

  -- _member
  unfoldable pub member : Layers → ℕ → Option Known
  unfolding banned pass
  member [] id = get state.own.members id
  member (l ∷ up) id =
      let above = member up id in
      if banned (l ∷ up) id
      then none
      else elim (get l.part.members id) [ some m ↦ some m | none ↦ pass l.info above ]

  -- _cut
  unfoldable pub cut : Layers → ℕ → Option (List (ℕ × ℕ))
  unfolding lowest
  cut [] id = get state.own.cuts id
  cut (l ∷ up) id =
      let above = cut up id in
      elim (get l.part.cuts id) [ none ↦ above | some mine ↦ some (lowest (or_no_logs above) mine) ]

  -- _admit
  unfoldable pub admission : Layers → ℕ → Option ℕ
  admission [] id = get state.own.admits id
  admission (l ∷ up) id =
      let above = admission up id in
      elim (get l.part.admits id) [ none ↦ above | some code ↦ some code ]

  -- _editcut
  unfoldable pub editcut : Layers → ℕ → Option EditCuts
  unfolding merge_cuts
  editcut [] id = get state.own.editcuts id
  editcut (l ∷ up) id =
      let above = editcut up id in
      elim (get l.part.editcuts id) [
        | none ↦ above
        | some mine ↦ some (merge_cuts (or_no_cuts above) mine)
      ]

  -- State#sub, through the parents
  unfoldable pub layers_from : ℕ → Scope → Option Layers
  layers_from fuel top = some []
  layers_from zero (sub key) = none
  layers_from (suc fuel) (sub key) = elim (get state.subspaces key) [
    | none ↦ none
    | some info ↦ elim (layers_from fuel info.parent) [
      | none ↦ none
      | some up ↦ some (record { key = key; info = info; part = part_of state (sub key) } ∷ up)
    ]
  ]

  unfoldable pub layers_of : Scope → Option Layers
  unfolding layers_from
  layers_of = layers_from (suc (length state.subspaces))
