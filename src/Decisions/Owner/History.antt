-- ===== src/Decisions/Owner/History.antt =====
-- The owner from the empty view on: applyNodes of lib/decisions/apply.js over any decision log.
use hypergraph.Prelude.{
  ℕ, ◌≡◌, refl, Bool, true, not, Option, none, some, List, [], ◌∷◌, arith, ◌==◌, if_keeps,
  Option-cases, Bool-cases, inl, inr, ◌⊎◌, String, sym, subst, ◌∙◌, ==_iff,
}
use hypergraph.Roles.{is_owner}
use hypergraph.Decisions.Data.{Env, Body, Device, space_init, scoped, writer_claim}
use hypergraph.Decisions.View.{Scope, top, sub, View, Tx}
use hypergraph.Decisions.Chain.{chain_of, role_in, own, inherit, member_in, role_of_member}
use hypergraph.Decisions.Handlers.Devices.{create, space_init as apply_init}
use hypergraph.Decisions.Apply.{
  decide_as, apply_one, apply_if, apply_decoded, apply_node, apply_nodes, throws, Ledger, Node,
  unscoped, start, chain_for, is_ignored, owner_of,
}
use hypergraph.Decisions.Seats.{seats, seats_of}
use hypergraph.Decisions.Owner.{IsSeated, knows, chain_of-knows, role_in_owner}
use hypergraph.Decisions.Owner.Log.{apply_decoded-IsSeated, view-apply_decoded}

-- Nothing decided yet.
pub record IsBlank (v : View) : Type 0 where
  pub settings : v.metas top ≡ none
  pub writers : (k : ℕ) → v.writer k ≡ none
  pub members : (s : Scope) (id : ℕ) → v.member s id ≡ none
  pub bans : (s : Scope) (id : ℕ) → v.banned s id ≡ none

-- Nothing decided yet, or a space with an owner.
abbrev pub IsFounded : View → Type 0
IsFounded v = IsBlank v ⊎ ((o : ℕ) × IsSeated (seats_of v) o)

unscoped-IsSeated :
    (env : Env) (node : Node) (stamp : ℕ) (body : Body) (l : Ledger) {o : ℕ}
    → IsSeated (seats_of l.view) o
    → IsSeated (seats_of (unscoped env node stamp body l).view) o
unscoped-IsSeated env node stamp (scoped space bytes) l {o} h =
    elim (Option-cases (env.decode bytes)) [
      | inl malformed ↦ rw (malformed, unscoped) h
      | inr (d, decoded) ↦
          rw (decoded, unscoped) (apply_decoded-IsSeated env node d.stamp d.body (some space) l h)
    ]
unscoped-IsSeated env node stamp body l h = apply_decoded-IsSeated env node stamp body none l h

apply_node-IsSeated :
    (env : Env) (node : Node) (l : Ledger) {o : ℕ}
    → IsSeated (seats_of l.view) o
    → IsSeated (seats_of (apply_node env node l).view) o
unfolding apply_node
apply_node-IsSeated env node l h = elim (Option-cases (env.decode node.value)) [
  | inl malformed ↦ rw (malformed, apply_node) h
  | inr (d, decoded) ↦ rw (decoded, apply_node) (unscoped-IsSeated env node d.stamp d.body l h)
]

pub apply_nodes-IsSeated :
    (env : Env) (nodes : List Node) (l : Ledger) {o : ℕ}
    → IsSeated (seats_of l.view) o
    → IsSeated (seats_of (apply_nodes env nodes l).view) o
unfolding apply_nodes
apply_nodes-IsSeated env [] l h = h
apply_nodes-IsSeated env (node ∷ nodes) l {o = o} h =
    if_keeps (throws env node) (λ (m : Ledger). IsSeated (seats_of m.view) o) h
      λ _. apply_nodes-IsSeated env nodes (apply_node env node l) (apply_node-IsSeated env node l h)

create-IsSeated :
    (name : String) (parent : Option ℕ) (is_private : Bool) (policy : String)
    (version stamp writer : ℕ) (info : Device) (tx : Tx)
    → IsBlank tx.view
    → IsSeated
        (seats (create name parent is_private policy version stamp writer info tx))
        info.identity
unfolding create
create-IsSeated name parent is_private policy version stamp writer info tx b = record {
  named = refl;
  holds = ground arith;
  only = λ t id e. ground (arith, b.members t id);
  away = λ k. ground (arith, b.members (sub k) info.identity);
  unbanned = λ t. b.bans t info.identity;
}

apply_init-IsFounded :
    (env : Env) (writer stamp : ℕ) (name : String) (parent : Option ℕ) (is_private : Bool)
    (policy : String) (version proof : ℕ) (tx : Tx)
    → IsBlank tx.view
    → IsFounded (apply_init env writer stamp name parent is_private policy version proof tx).view
unfolding apply_init
apply_init-IsFounded env writer stamp name parent is_private policy version proof tx b =
    rw (b.settings, apply_init)
      (if_keeps (not (writer == env.space)) (λ (t : Tx). IsFounded t.view) (inl b)
        λ _. elim (Option-cases (env.verify proof (writer_claim writer env.space))) [
          | inl unsigned ↦ rw unsigned (inl b)
          | inr (info, signed) ↦ rw signed (
              inr (
                info.identity,
                create-IsSeated name parent is_private policy version stamp writer info tx b,
              ))
        ])

apply_one-IsFounded :
    (env : Env) (chain : List ℕ) (writer stamp code : ℕ) (body : Body) (tx : Tx)
    → IsBlank tx.view
    → IsFounded (apply_one env chain writer stamp code body tx).view
unfolding apply_one decide_as
apply_one-IsFounded env chain writer stamp code
      (space_init name parent is_private policy version proof) tx b =
    apply_init-IsFounded env writer stamp name parent is_private policy version proof tx b
apply_one-IsFounded env chain writer stamp code body tx b = rw (b.writers writer, decide_as) (inl b)

apply_if-IsFounded :
    (env : Env) (ignored : Bool) (chain : Option (List ℕ)) (writer stamp code : ℕ) (body : Body)
    (tx : Tx)
    → IsBlank tx.view
    → IsFounded (apply_if env ignored chain writer stamp code body tx).view
unfolding apply_if
apply_if-IsFounded env ignored none writer stamp code body tx b = inl b
apply_if-IsFounded env ignored (some chain) writer stamp code body tx b =
    if_keeps ignored (λ (t : Tx). IsFounded t.view) (inl b)
      (λ _. apply_one-IsFounded env chain writer stamp code body tx b)

apply_decoded-IsFounded :
    (env : Env) (node : Node) (stamp : ℕ) (body : Body) (space : Option ℕ) (l : Ledger)
    → IsBlank l.view
    → IsFounded (apply_decoded env node stamp body space l).view
apply_decoded-IsFounded env node stamp body space l b =
    subst IsFounded (sym (view-apply_decoded env node stamp body space l)) (
      apply_if-IsFounded env (is_ignored space body) (chain_for l.view space) node.key stamp
        (env.code node.key node.value) body (start l) b)

unscoped-IsFounded :
    (env : Env) (node : Node) (stamp : ℕ) (body : Body) (l : Ledger)
    → IsBlank l.view
    → IsFounded (unscoped env node stamp body l).view
unscoped-IsFounded env node stamp (scoped space bytes) l b =
    elim (Option-cases (env.decode bytes)) [
      | inl malformed ↦ rw (malformed, unscoped) (inl b)
      | inr (d, decoded) ↦
          rw (decoded, unscoped) (apply_decoded-IsFounded env node d.stamp d.body (some space) l b)
    ]
unscoped-IsFounded env node stamp body l b = apply_decoded-IsFounded env node stamp body none l b

apply_node-IsFounded :
    (env : Env) (node : Node) (l : Ledger)
    → IsFounded l.view
    → IsFounded (apply_node env node l).view
apply_node-IsFounded env node l (inr (o, h)) = inr (o, apply_node-IsSeated env node l h)
apply_node-IsFounded env node l (inl b) =
    unfold apply_node in
    elim (Option-cases (env.decode node.value)) [
      | inl malformed ↦ rw (malformed, apply_node) (inl b)
      | inr (d, decoded) ↦ rw (decoded, apply_node) (unscoped-IsFounded env node d.stamp d.body l b)
    ]

pub apply_nodes-IsFounded :
    (env : Env) (nodes : List Node) (l : Ledger)
    → IsFounded l.view
    → IsFounded (apply_nodes env nodes l).view
unfolding apply_nodes
apply_nodes-IsFounded env [] l h = h
apply_nodes-IsFounded env (node ∷ nodes) l h =
    if_keeps (throws env node) (λ (m : Ledger). IsFounded m.view) h
      λ _.
        apply_nodes-IsFounded env nodes (apply_node env node l) (apply_node-IsFounded env node l h)

-- The view of a log that nothing was written to.
abbrev pub empty_view : View
empty_view = record {
  metas = λ s. none;
  member = λ s id. none;
  banned = λ s id. none;
  cut = λ s id. none;
  editcut = λ s id. none;
  admit = λ s id. none;
  moderated = λ s id. none;
  redeemed = λ s invite id. none;
  uses = λ s invite. none;
  revoked = λ s invite. none;
  epochs = λ s. none;
  writer = λ key. none;
  writers = λ id. none;
  gone = λ id device. none;
  role = λ name. none;
  subspace = λ key. none;
  subspaces = none;
  types = none;
  types_at = λ version. none;
  listed = λ log. none;
}

abbrev pub empty_ledger : Ledger
empty_ledger = record { view = empty_view; rows = λ n. none; count = none; calls = [] }

empty-IsFounded : IsFounded empty_view
empty-IsFounded =
    inl
      (record { settings = refl; writers = λ k. refl; members = λ s id. refl; bans = λ s id. refl })

-- Whoever's role is owner, in the space or in one of its sub-spaces, is the owner.
own-only :
    (v : View) {o : ℕ} (chain : List ℕ) (id : ℕ)
    → IsSeated (seats_of v) o
    → is_owner (role_of_member (own v chain id)) ≡ true
    → id ≡ o
unfolding own inherit
own-only v [] id h e = h.only top id e
own-only v (s ∷ chain) id h e = ground (arith, h.only (sub s) id, own-only v chain id h)

role_in-only :
    (v : View) {o : ℕ} (chain : List ℕ) (id : ℕ)
    → IsSeated (seats_of v) o
    → is_owner (role_in v chain id) ≡ true
    → id ≡ o
unfolding role_in member_in
role_in-only v chain id h e = ground (arith, own-only v chain id h)

IsSeated-owner : (v : View) (o : ℕ) → IsFounded v → owner_of v ≡ some o → IsSeated (seats_of v) o
IsSeated-owner v o (inl b) e = absurd (ground (arith, b.settings))
IsSeated-owner v o (inr (p, h)) e =
    let same : p ≡ o = cc (h.named, e) in subst (IsSeated (seats_of v)) same h

role_in-is_owner :
    (v : View) {o : ℕ} (chain : List ℕ) (id : ℕ)
    → IsSeated (seats_of v) o
    → knows v chain ≡ true
    → is_owner (role_in v chain id) ≡ (id == o)
role_in-is_owner v {o} chain id h k = elim (Bool-cases (id == o)) [
  | inl same ↦
      let e : o ≡ id = sym ((==_iff id o).0 same) in rw (same, ← e) (role_in_owner v h chain k)
  | inr other ↦ elim (Bool-cases (is_owner (role_in v chain id))) [
    | inl is ↦ cc (other, (==_iff id o).1 (role_in-only v chain id h is))
    | inr not_owner ↦ not_owner ∙ sym other
  ]
]

-- The view after a decision log, from the empty one.
abbrev pub replay : Env → List Node → Ledger
replay env nodes = apply_nodes env nodes empty_ledger

-- Take any two decision logs, the second going on from the first, with any decisions in them,
-- malformed or hostile. If the settings name `o` as owner after the first, they still do after the
-- second; and in the space and each of its sub-spaces, `o`'s role is then owner and nobody else's
-- is: no decision takes the role away, bans the owner, or gives the role to anybody.
pub owner_forever :
    (env : Env) (nodes more : List Node) (o id : ℕ) (s : Scope) (chain : List ℕ)
    → owner_of (replay env nodes).view ≡ some o
    → chain_of (apply_nodes env more (replay env nodes)).view s ≡ some chain
    → (owner_of (apply_nodes env more (replay env nodes)).view ≡ some o)
      × (is_owner (role_in (apply_nodes env more (replay env nodes)).view chain id) ≡ (id == o))
owner_forever env nodes more o id s chain e known =
    let l = replay env nodes in
    let v = (apply_nodes env more l).view in
    let first =
      IsSeated-owner l.view o (apply_nodes-IsFounded env nodes empty_ledger empty-IsFounded) e in
    let h = apply_nodes-IsSeated env more l first in
    (h.named, role_in-is_owner v chain id h (chain_of-knows v s chain known))
