-- ===== src/Decisions/Owner/Log.antt =====
-- The owner over a whole decision log: applyNodes of lib/decisions/apply.js, from the empty view.
use hypergraph.Prelude.{
  ℕ, ◌≡◌, refl, Bool, true, false, Option, none, some, List, [], ◌∷◌, if_keeps, subst, sym, if_same,
}
use hypergraph.Decisions.Data.{
  Env, Body, space_init, member_add, member_remove, role_define, role_set, moderate, invite_create,
  invite_revoke, invite_redeem, key_rotate, subspace_create, settings_set, writer_add,
  device_remove, scoped, logs_list, types_set,
}
use hypergraph.Decisions.View.{sub, Writer, View, Tx}
use hypergraph.Decisions.Handlers.Members.{Context}
use hypergraph.Decisions.Apply.{
  dispatch, decide_as, apply_one, apply_if, apply_decoded, Ledger, Node, list_decision, start,
  context, chain_for, is_ignored, is_listing,
}
use hypergraph.Decisions.Seats.{seats, seats_of}
use hypergraph.Decisions.Owner.{IsSeated, knows, chain_of-knows}
use hypergraph.Decisions.Owner.Steps.{
  member_add-IsSeated, member_remove-IsSeated, role_set-IsSeated, apply_moderate-IsSeated,
}
use hypergraph.Decisions.Owner.Invites.{invite_redeem-IsSeated}
use hypergraph.Decisions.Owner.Others.{
  role_define-IsSeated, invite_revoke-IsSeated, writer_add-IsSeated, device_remove-IsSeated,
  logs_list-IsSeated, settings_set-IsSeated, types_set-IsSeated, subspace_create-IsSeated,
  key_rotate-IsSeated, space_init-IsSeated,
}

module _ (env : Env) (tx : Tx) {o : ℕ} (h : IsSeated (seats tx) o) where
  dispatch-IsSeated :
      (c : Context) (body : Body)
      → knows tx.view c.chain ≡ true
      → IsSeated (seats (dispatch env c body tx)) o
  unfolding dispatch
  dispatch-IsSeated c (space_init name parent is_private policy version proof) k = h
  dispatch-IsSeated c (member_add id) k = member_add-IsSeated env c tx k h id
  dispatch-IsSeated c (member_remove id cut) k = member_remove-IsSeated env c tx k h id cut
  dispatch-IsSeated c (role_define name perms) k = role_define-IsSeated env c tx h name perms
  dispatch-IsSeated c (role_set id role cut) k = role_set-IsSeated env c tx k h id role cut
  dispatch-IsSeated c (moderate action target reason cut drop) k =
      apply_moderate-IsSeated env c tx k h target reason cut drop action
  dispatch-IsSeated c (invite_create bytes) k = h
  dispatch-IsSeated c (invite_revoke bytes) k = invite_revoke-IsSeated env c tx h bytes
  dispatch-IsSeated c (invite_redeem bytes) k = invite_redeem-IsSeated env c tx k h bytes
  dispatch-IsSeated c (key_rotate epoch commit) k = key_rotate-IsSeated env c tx h epoch commit
  dispatch-IsSeated c (subspace_create key name is_private write_roles) k =
      subspace_create-IsSeated env c tx h key name is_private write_roles
  dispatch-IsSeated c (settings_set d) k = settings_set-IsSeated env c tx h d
  dispatch-IsSeated c (writer_add key proof) k = writer_add-IsSeated env c tx h key proof
  dispatch-IsSeated c (device_remove device cut proof) k =
      device_remove-IsSeated env c tx h device cut proof
  dispatch-IsSeated c (scoped space bytes) k = h
  dispatch-IsSeated c (logs_list logs) k = logs_list-IsSeated env c tx h logs
  dispatch-IsSeated c (types_set version types) k = types_set-IsSeated env c tx h version types

  decide_as-IsSeated :
      (chain : List ℕ) (stamp code : ℕ) (body : Body) (w : Option Writer)
      → knows tx.view chain ≡ true
      → IsSeated (seats (decide_as env chain stamp code body w tx)) o
  unfolding decide_as
  decide_as-IsSeated chain stamp code body none k = h
  decide_as-IsSeated chain stamp code body (some w) k =
      dispatch-IsSeated (context tx.view chain stamp code w) body k

  apply_one-IsSeated :
      (chain : List ℕ) (writer stamp code : ℕ) (body : Body)
      → knows tx.view chain ≡ true
      → IsSeated (seats (apply_one env chain writer stamp code body tx)) o
  unfolding apply_one
  apply_one-IsSeated chain writer stamp code
        (space_init name parent is_private policy version proof) k =
      space_init-IsSeated env
        (context tx.view chain stamp code (record { identity = o; device = none; indexer = false }))
        tx h writer stamp name parent is_private policy version proof
  apply_one-IsSeated chain writer stamp code body k =
      decide_as-IsSeated chain stamp code body (tx.view.writer writer) k

apply_if-IsSeated :
    (env : Env) (ignored : Bool) (chain : Option (List ℕ)) (writer stamp code : ℕ) (body : Body)
    (tx : Tx) {o : ℕ}
    → ((c : List ℕ) → chain ≡ some c → knows tx.view c ≡ true)
    → IsSeated (seats tx) o
    → IsSeated (seats (apply_if env ignored chain writer stamp code body tx)) o
unfolding apply_if
apply_if-IsSeated env ignored none writer stamp code body tx k h = h
apply_if-IsSeated env ignored (some chain) writer stamp code body tx {o} k h =
    if_keeps ignored (λ (t : Tx). IsSeated (seats t) o) h
      (λ _. apply_one-IsSeated env tx h chain writer stamp code body (k chain refl))

chain_for-knows :
    (v : View) (space : Option ℕ) (chain : List ℕ)
    → chain_for v space ≡ some chain
    → knows v chain ≡ true
chain_for-knows v none [] e = refl
chain_for-knows v none (s ∷ chain) e = cc
chain_for-knows v (some s) chain e = chain_of-knows v (sub s) chain e

-- What a decision leaves in the view, whether or not it is listed.
pub view-apply_decoded :
    (env : Env) (node : Node) (stamp : ℕ) (body : Body) (space : Option ℕ) (l : Ledger)
    → (apply_decoded env node stamp body space l).view
      ≡ (apply_if env
          (is_ignored space body)
          (chain_for l.view space)
          node.key
          stamp
          (env.code node.key node.value)
          body
          (start l)).view
unfolding apply_decoded list_decision
view-apply_decoded env node stamp body space l =
    if_same (is_listing body) (λ (m : Ledger). m.view) refl refl

pub apply_decoded-IsSeated :
    (env : Env) (node : Node) (stamp : ℕ) (body : Body) (space : Option ℕ) (l : Ledger) {o : ℕ}
    → IsSeated (seats_of l.view) o
    → IsSeated (seats_of (apply_decoded env node stamp body space l).view) o
apply_decoded-IsSeated env node stamp body space l {o} h =
    subst (λ (v : View). IsSeated (seats_of v) o)
      (sym (view-apply_decoded env node stamp body space l))
      (apply_if-IsSeated env (is_ignored space body) (chain_for l.view space) node.key stamp
        (env.code node.key node.value) body (start l) (chain_for-knows l.view space) h)
