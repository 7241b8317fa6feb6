-- ===== src/Decisions/Steps/Log.antt =====
-- Any decision log makes a sequence of the guarded writes: applyNodes of lib/decisions/apply.js.
use hypergraph.Prelude.{
  ℕ, refl, sym, subst, Bool, Option, none, some, List, [], ◌∷◌, false, Option-cases, inl, inr,
  if_keeps,
}
use hypergraph.Decisions.Data.{
  Env, Body, space_init, member_add, member_remove, role_define, role_set, moderate, invite_create,
  invite_revoke, invite_redeem, key_rotate, subspace_create, settings_set, writer_add,
  device_remove, scoped, logs_list, types_set,
}
use hypergraph.Decisions.View.{Writer, View, Tx}
use hypergraph.Decisions.Handlers.Members.{Context}
use hypergraph.Decisions.Apply.{
  dispatch, decide_as, apply_one, apply_if, apply_decoded, apply_node, apply_nodes, throws, Ledger,
  Node, unscoped, start, context, chain_for, is_ignored,
}
use hypergraph.Decisions.Seats.{seats, seats_of}
use hypergraph.Decisions.Owner.Log.{view-apply_decoded}
use hypergraph.Decisions.Steps.{Reach, Reach-trans}
use hypergraph.Decisions.Steps.Handlers.{
  member_add-Reach, member_remove-Reach, role_set-Reach, role_define-Reach, apply_moderate-Reach,
}
use hypergraph.Decisions.Steps.Invites.{invite_redeem-Reach}
use hypergraph.Decisions.Steps.Others.{
  invite_revoke-Reach, writer_add-Reach, device_remove-Reach, logs_list-Reach, settings_set-Reach,
  types_set-Reach, subspace_create-Reach, key_rotate-Reach, space_init-Reach,
}

module _ (env : Env) (tx : Tx) where
  dispatch-Reach :
      (c : Context) (body : Body) → Reach env (seats tx) (seats (dispatch env c body tx))
  unfolding dispatch
  dispatch-Reach c (space_init name parent is_private policy version proof) = Reach.here refl
  dispatch-Reach c (member_add id) = member_add-Reach env c tx id
  dispatch-Reach c (member_remove id cut) = member_remove-Reach env c tx id cut
  dispatch-Reach c (role_define name perms) = role_define-Reach env c tx name perms
  dispatch-Reach c (role_set id role cut) = role_set-Reach env c tx id role cut
  dispatch-Reach c (moderate action target reason cut drop) =
      apply_moderate-Reach env c tx target reason cut drop action
  dispatch-Reach c (invite_create bytes) = Reach.here refl
  dispatch-Reach c (invite_revoke bytes) = invite_revoke-Reach env c tx bytes
  dispatch-Reach c (invite_redeem bytes) = invite_redeem-Reach env c tx bytes
  dispatch-Reach c (key_rotate epoch commit) = key_rotate-Reach env c tx epoch commit
  dispatch-Reach c (subspace_create key name is_private write_roles) =
      subspace_create-Reach env c tx key name is_private write_roles
  dispatch-Reach c (settings_set d) = settings_set-Reach env c tx d
  dispatch-Reach c (writer_add key proof) = writer_add-Reach env c tx key proof
  dispatch-Reach c (device_remove device cut proof) = device_remove-Reach env c tx device cut proof
  dispatch-Reach c (scoped space bytes) = Reach.here refl
  dispatch-Reach c (logs_list logs) = logs_list-Reach env c tx logs
  dispatch-Reach c (types_set version types) = types_set-Reach env c tx version types

  decide_as-Reach :
      (chain : List ℕ) (stamp code : ℕ) (body : Body) (w : Option Writer)
      → Reach env (seats tx) (seats (decide_as env chain stamp code body w tx))
  unfolding decide_as
  decide_as-Reach chain stamp code body none = Reach.here refl
  decide_as-Reach chain stamp code body (some w) =
      dispatch-Reach (context tx.view chain stamp code w) body

  apply_one-Reach :
      (chain : List ℕ) (writer stamp code : ℕ) (body : Body)
      → Reach env (seats tx) (seats (apply_one env chain writer stamp code body tx))
  unfolding apply_one
  apply_one-Reach chain writer stamp code (space_init name parent is_private policy version proof) =
      space_init-Reach env
        (context tx.view chain stamp code (record { identity = 0; device = none; indexer = false }))
        tx writer stamp name parent is_private policy version proof
  apply_one-Reach chain writer stamp code body =
      decide_as-Reach chain stamp code body (tx.view.writer writer)

apply_if-Reach :
    (env : Env) (ignored : Bool) (chain : Option (List ℕ)) (writer stamp code : ℕ) (body : Body)
    (tx : Tx)
    → Reach env (seats tx) (seats (apply_if env ignored chain writer stamp code body tx))
unfolding apply_if
apply_if-Reach env ignored none writer stamp code body tx = Reach.here refl
apply_if-Reach env ignored (some chain) writer stamp code body tx =
    if_keeps ignored (λ (t : Tx). Reach env (seats tx) (seats t)) (Reach.here refl)
      (λ _. apply_one-Reach env tx chain writer stamp code body)

apply_decoded-Reach :
    (env : Env) (node : Node) (stamp : ℕ) (body : Body) (space : Option ℕ) (l : Ledger)
    → Reach env (seats_of l.view) (seats_of (apply_decoded env node stamp body space l).view)
apply_decoded-Reach env node stamp body space l =
    subst (λ (v : View). Reach env (seats_of l.view) (seats_of v))
      (sym (view-apply_decoded env node stamp body space l))
      (apply_if-Reach env (is_ignored space body) (chain_for l.view space) node.key stamp
        (env.code node.key node.value) body (start l))

unscoped-Reach :
    (env : Env) (node : Node) (stamp : ℕ) (body : Body) (l : Ledger)
    → Reach env (seats_of l.view) (seats_of (unscoped env node stamp body l).view)
unscoped-Reach env node stamp (scoped space bytes) l = elim (Option-cases (env.decode bytes)) [
  | inl malformed ↦ rw (malformed, unscoped) (Reach.here refl)
  | inr (d, decoded) ↦
      rw (decoded, unscoped) (apply_decoded-Reach env node d.stamp d.body (some space) l)
]
unscoped-Reach env node stamp body l = apply_decoded-Reach env node stamp body none l

apply_node-Reach :
    (env : Env) (node : Node) (l : Ledger)
    → Reach env (seats_of l.view) (seats_of (apply_node env node l).view)
unfolding apply_node
apply_node-Reach env node l = elim (Option-cases (env.decode node.value)) [
  | inl malformed ↦ rw (malformed, apply_node) (Reach.here refl)
  | inr (d, decoded) ↦ rw (decoded, apply_node) (unscoped-Reach env node d.stamp d.body l)
]

-- What any nodes make of a view, cuts and writer keys aside, the guarded writes make of it.
pub apply_nodes-Reach :
    (env : Env) (nodes : List Node) (l : Ledger)
    → Reach env (seats_of l.view) (seats_of (apply_nodes env nodes l).view)
unfolding apply_nodes
apply_nodes-Reach env [] l = Reach.here refl
apply_nodes-Reach env (node ∷ nodes) l =
    if_keeps (throws env node) (λ (m : Ledger). Reach env (seats_of l.view) (seats_of m.view))
      (Reach.here refl)
      λ _.
        Reach-trans (apply_node-Reach env node l)
          (apply_nodes-Reach env nodes (apply_node env node l))
