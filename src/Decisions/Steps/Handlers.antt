-- ===== src/Decisions/Steps/Handlers.antt =====
-- Each case of applyOne in lib/decisions/apply.js makes a sequence of the guarded writes.
use hypergraph.Prelude.{
  ℕ, refl, sym, not, ◌&&◌, ◌||◌, Option, none, some, List, [], ◌∷◌, String, str_eq, arith, ◌==◌,
  is_some, if◌then◌else◌, if_keeps, if_splits, Option-cases, inl, inr, ltb, keep,
}
use hypergraph.Roles.{
  Role, Permission, member, roles, decide, moderate, can, grantable, may_assign, may_remove,
  is_owner, rank_of,
}
use hypergraph.Decisions.Data.{
  Env, CutEntries, Action, Target, flag, hide, reveal, remove, ban, unban, unknown,
}
use hypergraph.Decisions.View.{Scope, top, Tx, set_member, set_banned}
use hypergraph.Decisions.Chain.{
  role_in, member_in, banned_in, scope_of, load, role_of_member, subspaces_of,
}
use hypergraph.Decisions.Cuts.{drop_below, drop_members, scopes_below}
use hypergraph.Decisions.Handlers.Members.{
  Context, in_subspace, member_add, member_remove, role_set, role_define, is_builtin_name,
  takes_away, unique, is_empty_permission,
}
use hypergraph.Decisions.Handlers.Moderation.{
  apply_ban, apply_unban, moderate_record, act, apply_moderate, is_all, moderated_or,
}
use hypergraph.Decisions.Seats.{seats, seats-admit}
use hypergraph.Decisions.Effects.{
  seats-remove_member, seats-give_role, seats-ban_member, seats-ban_stranger, seats-drop_if, given,
  added, banned_by,
}
use hypergraph.Decisions.Steps.{Write, Reach, Reach-trans, Reach-step}

drop_members-Reach :
    {env : Env} (scopes : List Scope) (id : ℕ) (tx : Tx)
    → Reach env (seats tx) (seats (drop_members scopes id tx))
unfolding drop_members
drop_members-Reach {env} [] id tx = Reach.here refl
drop_members-Reach {env} (s ∷ scopes) id tx =
    let held = is_some (tx.view.member s id) in
    Reach-trans
      (if_splits held (λ (t : Tx). Reach env (seats tx) (seats t))
        (λ _. Reach-step (Write.member s id none) refl) (λ _. Reach.here refl))
      (drop_members-Reach scopes id (if held then set_member s id none tx else tx))

module _ (env : Env) (c : Context) (tx : Tx) where
  abbrev To : Tx → Type 0
  To t = Reach env (seats tx) (seats t)

  pub member_add-Reach : (id : ℕ) → To (member_add c id tx)
  unfolding member_add
  member_add-Reach id =
      if_keeps (in_subspace c || not (can c.role decide c.table)) To (Reach.here refl) λ _.
        if_keeps (is_some (role_in tx.view c.chain id) || is_some (tx.view.banned top id)) To
          (Reach.here refl)
          λ _. Reach-step (Write.member top id (some (added c))) (
            seats-admit top id (some member) c.table c.code (set_member top id (some (added c)) tx))

  pub member_remove-Reach : (id : ℕ) (cut : CutEntries) → To (member_remove env c id cut tx)
  unfolding member_remove drop_below
  member_remove-Reach id cut =
      let role = role_in tx.view c.chain id in
      let table = load tx.view role c.table in
      let s = scope_of c.chain in
      let out = set_member s id none tx in
      if_keeps (not (is_some role) || not (may_remove c.role role decide table)) To
        (Reach.here refl)
        λ _. if_keeps (not (is_some (tx.view.member s id))) To (Reach.here refl) λ _.
          Reach-trans
            (Reach-trans (Reach-step (Write.member s id none) refl) (
              drop_members-Reach (scopes_below (subspaces_of out.view) (subspaces_of out.view) s) id
                out))
            (Reach.here (sym (seats-remove_member env c id cut role table tx)))

  pub role_set-Reach :
      (id : ℕ) (role : Role) (cut : CutEntries) → To (role_set env c id role cut tx)
  unfolding role_set
  role_set-Reach id role cut =
      let old = member_in tx.view c.chain id in
      let table = load tx.view (some role) (load tx.view (role_of_member old) c.table) in
      if_keeps (banned_in tx.view c.chain id) To (Reach.here refl) λ _.
        if_keeps (not (may_assign c.role (role_of_member old) role table)) To (Reach.here refl) λ _.
          Reach-step (Write.member (scope_of c.chain) id (some (given c role old)))
            (seats-give_role env c id role cut old table tx)

  pub role_define-Reach : (name : String) (list : List Permission) → To (role_define c name list tx)
  unfolding role_define
  role_define-Reach name list =
      let permissions = unique [] (keep (λ p. not (is_empty_permission p)) list) in
      if_keeps
        (in_subspace c || not (can c.role roles c.table) || str_eq name "" || is_builtin_name name)
        To (Reach.here refl)
        λ _.
          if_keeps
            (takes_away (tx.view.role name) permissions
              || not (grantable c.role permissions c.table))
            To (Reach.here refl)
            λ e.
              Reach-step
                (Write.role name
                  (record { permissions = permissions; by = c.author; stamp = c.stamp })
                  (ground arith))
                refl

  apply_ban-Reach :
      (id : ℕ) (reason : String) (cut : CutEntries) (drop : Option String)
      → To (apply_ban env c id reason cut drop tx)
  unfolding apply_ban
  apply_ban-Reach id reason cut drop =
      let s = scope_of c.chain in
      let role = role_in tx.view c.chain id in
      let table = load tx.view role c.table in
      let entry = banned_by c reason drop in
      let put = set_banned s id (some entry) tx in
      if_splits (is_some (tx.view.banned s id)) To
        (λ _. Reach.here (sym (seats-drop_if (is_all drop) s id cut c.stamp tx)))
        λ _. if_keeps (not (may_remove c.role role moderate table)) To (Reach.here refl) λ _.
          Reach-trans (Reach-step (Write.banned s id (some entry)) refl) (
            if_splits (is_some role) (λ (t : Tx). Reach env (seats put) (seats t))
              (λ _.
                Reach-step (Write.member s id none)
                  (seats-ban_member env c id cut (is_all drop) role table put))
              (λ _. Reach.here (sym (seats-ban_stranger env c id cut (is_all drop) table put))))

  apply_unban-Reach : (id : ℕ) → To (apply_unban c id tx)
  unfolding apply_unban
  apply_unban-Reach id = elim (Option-cases (tx.view.banned (scope_of c.chain) id)) [
    | inl free ↦ rw (free, apply_unban) (Reach.here refl)
    | inr (found, held) ↦
        let by_role = role_in tx.view c.chain found.by in
        rw (held, apply_unban)
          (if_keeps
            (not (is_owner c.role) && is_some by_role && ltb (rank_of c.role) (rank_of by_role)) To
            (Reach.here refl) (λ _. Reach-step (Write.banned (scope_of c.chain) id none) refl))
  ]

  moderate_record-Reach :
      (action : Action) (target : Target) → To (moderate_record env c action target tx)
  unfolding moderate_record
  moderate_record-Reach action target =
      let m = moderated_or (tx.view.moderated (scope_of c.chain) target.bytes) in
      if_keeps (not (env.is_record_id target) || m.removed) To (Reach.here refl)
        λ e. Reach-step (Write.moderated (scope_of c.chain) target.bytes action (ground arith)) refl

  module _ (target : Target) (reason : String) (cut : CutEntries) (drop : Option String) where
    act-Reach : (action : Action) → To (act env c action target reason cut drop tx)
    unfolding act
    act-Reach (unknown name) = Reach.here refl
    act-Reach ban =
        if_splits (target.byte_length == 32) To (λ _. apply_ban-Reach target.bytes reason cut drop)
          (λ _. Reach.here refl)
    act-Reach unban =
        if_splits (target.byte_length == 32) To (λ _. apply_unban-Reach target.bytes)
          (λ _. Reach.here refl)
    act-Reach flag = moderate_record-Reach flag target
    act-Reach hide = moderate_record-Reach hide target
    act-Reach reveal = moderate_record-Reach reveal target
    act-Reach remove = moderate_record-Reach remove target

    pub apply_moderate-Reach :
        (action : Action) → To (apply_moderate env c action target reason cut drop tx)
    unfolding apply_moderate
    apply_moderate-Reach action =
        if_splits (can c.role moderate c.table) To (λ _. act-Reach action) (λ _. Reach.here refl)
