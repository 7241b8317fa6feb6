-- ===== src/State/Cuts.antt =====
-- Cuts in sub-spaces (lowest, SubState._cut and limitOf of lib/decisions/state.js).
use hypergraph.Prelude.{
  ℕ, ◌≡◌, ◌≤◌, ◌⊎◌, inl, inr, refl, Option, none, some, List, [], ◌∷◌, arith, ◌==◌, if◌then◌else◌,
  get, put, get-put, min, Option-cases, Bool-cases, subst, sym,
}
use hypergraph.State.Data.{State}
use hypergraph.State.Effective.{Layer, Layers, lower, lowest, or_no_logs, cut}
use hypergraph.State.Limits.{up_to, length_in, limit_of}

-- A list of cuts names the log, at this length or a lower one.
abbrev IsCutBy : List (ℕ × ℕ) → ℕ → ℕ → Type 0
IsCutBy logs log m = (n : ℕ) × (get logs log ≡ some n) × (n ≤ m)

lower-put :
    (a : List (ℕ × ℕ)) (log j n m : ℕ)
    → get a log ≡ some m
    → IsCutBy (put a j (lower (get a j) n)) log m
lower-put a log j n m h = elim (Option-cases (get a j)) [
  | inl e ↦ (m, ground (arith, get-put a j log (lower (get a j) n)), ground arith)
  | inr (k, e) ↦ (
    (if j == log then min k n else m),
    ground (arith, get-put a j log (lower (get a j) n)),
    ground arith,
  )
]

lowest-left : (a b : List (ℕ × ℕ)) (log m : ℕ) → get a log ≡ some m → IsCutBy (lowest a b) log m
unfolding lowest
lowest-left a [] log m h = (m, h, ground arith)
lowest-left a ((j, n) ∷ b) log m h =
    let (k, e, l) = lower-put a log j n m h in
    let (i, f, r) = lowest-left (put a j (lower (get a j) n)) b log k e in (i, f, omega arith)

lower_le : (o : Option ℕ) (n : ℕ) → lower o n ≤ n
lower_le none n = ground arith
lower_le (some k) n = ground arith

lower_own : (a : List (ℕ × ℕ)) (log n : ℕ) → IsCutBy (put a log (lower (get a log) n)) log n
lower_own a log n = (
  lower (get a log) n,
  ground (arith, get-put a log log (lower (get a log) n)),
  lower_le (get a log) n,
)

lowest-right : (a b : List (ℕ × ℕ)) (log m : ℕ) → get b log ≡ some m → IsCutBy (lowest a b) log m
unfolding lowest get
lowest-right a [] log m h = ground arith
lowest-right a ((j, n) ∷ b) log m h = elim (Bool-cases (j == log)) [
  | inl e ↦
      let (k, f, l) = lower_own a log n in
      let (i, g, r) = lowest-left (put a log (lower (get a log) n)) b log k f in
      (
        i,
        subst (λ x. get (lowest (put a x (lower (get a x) n)) b) log ≡ some i) (ground arith) g,
        ground arith,
      )
  | inr e ↦ lowest-right (put a j (lower (get a j) n)) b log m (ground arith)
]

above_in :
    (above : Option (List (ℕ × ℕ))) (mine : List (ℕ × ℕ)) (log m : ℕ)
    → length_in above log ≡ some m
    → IsCutBy (lowest (or_no_logs above) mine) log m
above_in none mine log m h = ground arith
above_in (some logs) mine log m h = lowest-left logs mine log m h

module _ (state : State) (l : Layer) (up : Layers) (id log m : ℕ) where
  -- a cut that names the log, at `m` or a lower length
  abbrev Names : Option (List (ℕ × ℕ)) → Type 0
  Names c = (n : ℕ) × (length_in c log ≡ some n) × (n ≤ m)

  cut_only_above : get l.part.cuts id ≡ none → cut state (l ∷ up) id ≡ cut state up id
  unfolding cut
  cut_only_above e = rw (e, cut) refl

  cut_both :
      (mine : List (ℕ × ℕ))
      → get l.part.cuts id ≡ some mine
      → cut state (l ∷ up) id ≡ some (lowest (or_no_logs (cut state up id)) mine)
  unfolding cut
  cut_both mine e = rw (e, cut) refl

  cut_above : length_in (cut state up id) log ≡ some m → Names (cut state (l ∷ up) id)
  cut_above h = elim (Option-cases (get l.part.cuts id)) [
    | inl e ↦ subst Names (sym (cut_only_above e)) (m, h, ground arith)
    | inr (mine, e) ↦ subst Names (sym (cut_both mine e)) (above_in (cut state up id) mine log m h)
  ]

  cut_own : length_in (get l.part.cuts id) log ≡ some m → Names (cut state (l ∷ up) id)
  cut_own h = elim (Option-cases (get l.part.cuts id)) [
    | inl e ↦ ground arith
    | inr (mine, e) ↦ subst Names (sym (cut_both mine e)) (
        lowest-right (or_no_logs (cut state up id)) mine log m
          (subst (λ c. length_in c log ≡ some m) e h))
  ]

  limit_cut :
      Names (cut state (l ∷ up) id) → (n : ℕ) × (limit_of state (l ∷ up) id log ≡ up_to n) × (n ≤ m)
  unfolding limit_of
  limit_cut (n, e, r) = (n, rw (e) refl, r)

  -- A cut reaches down: where a cut of the parent, or one of the sub-space's own, names a log at a
  -- length, no record of it from that length on counts in the sub-space, whatever role its writer
  -- has there.
  pub cut_reaches_down :
      (length_in (cut state up id) log ≡ some m) ⊎ (length_in (get l.part.cuts id) log ≡ some m)
      → (n : ℕ) × (limit_of state (l ∷ up) id log ≡ up_to n) × (n ≤ m)
  cut_reaches_down (inl h) = limit_cut (cut_above h)
  cut_reaches_down (inr h) = limit_cut (cut_own h)
