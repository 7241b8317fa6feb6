-- ===== src/State/Subs.antt =====
-- SubState of lib/decisions/state.js against memberIn and chainOf of lib/decisions/apply.js: who is
-- a member of a sub-space.
use hypergraph.Prelude.{
  ℕ, zero, suc, ◌≡◌, ◌≤◌, refl, sym, ap, ◌∙◌, subst, true, false, Option, none, some, List, [], ◌∷◌,
  ◌++◌, arith, includes, length, get, remove, get-remove, if_splits, Option-cases, Bool-cases, inl,
  inr,
}
use hypergraph.Decisions.View.{Scope, top, sub, View, Member, Subspace}
use hypergraph.Decisions.Chain.{
  chain_from, chain_of, inherit, own, banned_in, member_in, listed_subspaces,
}
use hypergraph.State.Data.{State, part_of}
use hypergraph.State.Apply.{known}
use hypergraph.State.Effective.{Layer, Layers, pass, banned, member, layers_from, layers_of}
use hypergraph.State.Follows.{Follows}

-- The keys from a scope's own up to the space.
pub data IsChain (view : View) : Scope → List ℕ → Type 0 where
  root : IsChain view top []
  next :
      {key : ℕ} {info : Subspace} {chain : List ℕ}
      → view.subspace key ≡ some info
      → IsChain view info.parent chain
      → IsChain view (sub key) (key ∷ chain)

-- What is left of the sub-spaces when those of a chain are taken away.
remove_each {ℓ} : {V : Type ℓ} → List (ℕ × V) → List ℕ → List (ℕ × V)
unfolding remove
remove_each m [] = m
remove_each m (key ∷ keys) = remove_each (remove m key) keys

remove_each-last {ℓ} :
    {V : Type ℓ} (m : List (ℕ × V)) (keys : List ℕ) (key : ℕ)
    → remove_each m (keys ++ key ∷ []) ≡ remove (remove_each m keys) key
unfolding remove_each
remove_each-last m [] key = refl
remove_each-last m (k ∷ keys) key = remove_each-last (remove m k) keys key

get-remove_each {ℓ} :
    {V : Type ℓ} (m : List (ℕ × V)) (keys : List ℕ) (key : ℕ)
    → includes key keys ≡ false
    → get (remove_each m keys) key ≡ get m key
unfolding remove_each
get-remove_each m [] key h = refl
get-remove_each m (k ∷ keys) key h =
    ground (arith, get-remove_each (remove m k) keys key, get-remove m k key)

length-remove {ℓ} : {V : Type ℓ} (m : List (ℕ × V)) (key : ℕ) → length (remove m key) ≤ length m
unfolding remove
length-remove [] key = ground arith
length-remove ((j, w) ∷ m) key = ground (arith, length-remove m key)

length-remove_found {ℓ} :
    {V : Type ℓ} (m : List (ℕ × V)) (key : ℕ) (v : V)
    → get m key ≡ some v
    → suc (length (remove m key)) ≤ length m
unfolding remove get
length-remove_found [] key v h = ground arith
length-remove_found ((j, w) ∷ m) key v h =
    ground (arith, length-remove m key, length-remove_found m key v)

append_nil {ℓ} : {A : Type ℓ} (xs : List A) → xs ≡ xs ++ []
append_nil [] = refl
append_nil (x ∷ xs) = ap (λ l. x ∷ l) (append_nil xs)

append_assoc {ℓ} :
    {A : Type ℓ} (xs : List A) (y : A) (ys : List A) → (xs ++ y ∷ []) ++ ys ≡ xs ++ y ∷ ys
append_assoc [] y ys = refl
append_assoc (x ∷ xs) y ys = ap (λ l. x ∷ l) (append_assoc xs y ys)

module _ (view : View) (m : List (ℕ × Subspace))
    (h : (key : ℕ) → get m key ≡ view.subspace key) where
  -- What the loop of chainOf has added to its chain when it returns one.
  abbrev Added : Scope → List ℕ → List ℕ → Type 0
  Added s acc chain =
      (rest : List ℕ) × (chain ≡ acc ++ rest)
      × IsChain view s rest
      × (length rest ≤ length (remove_each m acc))

  add_key :
      (key : ℕ) (info : Subspace) (acc chain : List ℕ)
      → view.subspace key ≡ some info
      → includes key acc ≡ false
      → Added info.parent (acc ++ key ∷ []) chain
      → Added (sub key) acc chain
  add_key key info acc chain e b (rest, q, c, l) = (
    key ∷ rest,
    q ∙ append_assoc acc key rest,
    next e c,
    omega (
      arith,
      subst (λ r. length rest ≤ length r) (remove_each-last m acc key) l,
      length-remove_found (remove_each m acc) key info (get-remove_each m acc key b ∙ h key ∙ e),
    ),
  )

  chain_from-Added :
      (fuel : ℕ) (s : Scope) (acc chain : List ℕ)
      → chain_from fuel view s acc ≡ some chain
      → Added s acc chain
  unfolding chain_from
  chain_from-Added fuel top acc chain e =
      ([], sym (ground arith) ∙ append_nil acc, root, ground arith)
  chain_from-Added zero (sub key) acc chain e = ground arith
  chain_from-Added (suc fuel) (sub key) acc chain e = elim (Option-cases (view.subspace key)) [
    | inl p ↦ ground arith
    | inr (info, p) ↦ elim (Bool-cases (includes key acc)) [
      | inl b ↦ ground arith
      | inr b ↦
          add_key key info acc chain p b
            (chain_from-Added fuel info.parent (acc ++ key ∷ []) chain (ground arith))
    ]
  ]

module _ {view : View} {state : State} (h : Follows view state) where
  -- Who is banned by a chain's entries, and who is a member by them.
  record Agrees (layers : Layers) (chain : List ℕ) : Type 0 where
    bans : (id : ℕ) → banned state layers id ≡ banned_in view chain id
    members :
        (id : ℕ)
        → banned_in view chain id ≡ false
        → member state layers id ≡ known (own view chain id)

  pass-known :
      (info : Subspace) (m : Option Member) → pass info (known m) ≡ known (inherit (some info) m)
  unfolding pass inherit
  pass-known info none = refl
  pass-known info (some m) = ground arith

  no_layers : Agrees [] []
  unfolding banned member banned_in own part_of
  no_layers = record {
    bans = λ id. ground (arith, (h.parts top).banned id);
    members = λ id b. (h.parts top).members id;
  }

  member_layer :
      (key : ℕ) (info : Subspace) (layers : Layers) (chain : List ℕ)
      → view.subspace key ≡ some info
      → Agrees layers chain
      → (id : ℕ) → banned_in view (key ∷ chain) id ≡ false
      → member state (record { key = key; info = info; part = part_of state (sub key) } ∷ layers) id
        ≡ known (own view (key ∷ chain) id)
  unfolding banned member banned_in own
  member_layer key info layers chain e a id b = elim (Option-cases (view.member (sub key) id)) [
    | inl n ↦ ground (
      arith,
      (h.parts (sub key)).banned id,
      (h.parts (sub key)).members id,
      a.bans id,
      a.members id,
      pass-known info (own view chain id),
    )
    | inr (m, p) ↦
        ground (arith, (h.parts (sub key)).banned id, (h.parts (sub key)).members id, a.bans id)
  ]

  one_more :
      (key : ℕ) (info : Subspace) (layers : Layers) (chain : List ℕ)
      → view.subspace key ≡ some info
      → Agrees layers chain
      → Agrees
          (record { key = key; info = info; part = part_of state (sub key) } ∷ layers)
          (key ∷ chain)
  unfolding banned member banned_in own
  one_more key info layers chain e a = record {
    bans = λ id. ground (arith, (h.parts (sub key)).banned id, a.bans id);
    members = λ id b. member_layer key info layers chain e a id b;
  }

  layers_from-found :
      (fuel key : ℕ) (info : Subspace) (up : Layers)
      → view.subspace key ≡ some info
      → layers_from state fuel info.parent ≡ some up
      → layers_from state (suc fuel) (sub key)
        ≡ some (record { key = key; info = info; part = part_of state (sub key) } ∷ up)
  unfolding layers_from
  layers_from-found fuel key info up e q = ground (arith, h.subspaces key)

  layers_from-Agrees :
      {s : Scope} {chain : List ℕ}
      → IsChain view s chain
      → (fuel : ℕ) → length chain ≤ fuel
      → (layers : Layers) × (layers_from state fuel s ≡ some layers) × Agrees layers chain
  unfolding layers_from
  layers_from-Agrees root fuel l = ([], refl, no_layers)
  layers_from-Agrees (next e c) zero l = ground arith
  layers_from-Agrees (next {key} {info} {chain} e c) (suc fuel) l =
      let (up, q, a) = layers_from-Agrees c fuel (omega arith) in
      (
        record { key = key; info = info; part = part_of state (sub key) } ∷ up,
        layers_from-found fuel key info up e q,
        one_more key info up chain e a,
      )

  banned_sub :
      (layers : Layers) (id : ℕ)
      → (l : Layer) → banned state (l ∷ layers) id ≡ true
      → member state (l ∷ layers) id ≡ none
  unfolding member
  banned_sub layers id l b = rw (b) refl

  -- A layer on top: as memberIn, for those who are banned too.
  member-member_in :
      (layers : Layers) (key : ℕ) (chain : List ℕ)
      → (l : Layer) → Agrees (l ∷ layers) (key ∷ chain)
      → (id : ℕ) → member state (l ∷ layers) id ≡ known (member_in view (key ∷ chain) id)
  unfolding member_in
  member-member_in layers key chain l a id =
      if_splits (banned_in view (key ∷ chain) id) (λ m. member state (l ∷ layers) id ≡ known m)
        (λ b. banned_sub layers id l (a.bans id ∙ b)) (λ b. a.members id b)

  -- The sub-space's state is there, and has the members of `chain`.
  abbrev HasMembers : ℕ → List ℕ → Type 0
  HasMembers key chain =
      (layers : Layers) × (layers_of state (sub key) ≡ some layers)
      × ((id : ℕ) → member state layers id ≡ known (member_in view chain id))

  sub_of_chain :
      {key : ℕ} {chain : List ℕ}
      → IsChain view (sub key) chain
      → length chain ≤ length state.subspaces
      → HasMembers key chain
  unfolding layers_of
  sub_of_chain (next {key} {info} {chain} e c) l =
      let (up, q, a) = layers_from-Agrees c (length state.subspaces) (omega arith) in
      let top : Layer = record { key = key; info = info; part = part_of state (sub key) } in
      (
        top ∷ up,
        layers_from-found (length state.subspaces) key info up e q,
        member-member_in up key chain top (one_more key info up chain e a),
      )

  -- Let a state have at each key what a view has there, and let the view give a chain of parents
  -- to a sub-space. Then the sub-space has a state, and its members are exactly those that the
  -- decisions count on that chain: the same role, given by the same member at the same time.
  pub sub_member :
      (key : ℕ) (chain : List ℕ)
      → chain_of view (sub key) ≡ some chain
      → (layers : Layers) × (layers_of state (sub key) ≡ some layers)
        × ((id : ℕ) → member state layers id ≡ known (member_in view chain id))
  unfolding chain_of remove_each
  sub_member key chain e =
      let found =
        chain_from-Added view state.subspaces h.subspaces (suc (length (listed_subspaces view)))
          (sub key) [] chain e in
      subst (HasMembers key) (sym found.1) (sub_of_chain found.2 found.3)
