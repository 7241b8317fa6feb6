-- ===== src/Decisions/Owner/Steps.antt =====
-- Members, roles and bans keep the owner's seat: the cases member/add, member/remove, role/set and
-- moderate of applyOne in lib/decisions/apply.js.
use hypergraph.Prelude.{
  ℕ, ◌≡◌, refl, true, false, not, ◌&&◌, ◌||◌, Option, none, some, List, [], ◌∷◌, String, ◌==◌,
  arith, is_some, if◌then◌else◌, if_keeps, if_splits, ltb, Option-cases, inl, inr,
}
use hypergraph.Roles.{
  Role, member, is_owner, rank_of, decide, moderate, can, may_assign, may_remove,
}
use hypergraph.Roles.Order.{may_assign_rank, may_remove_rank}
use hypergraph.Decisions.Data.{
  Env, CutEntries, Action, Target, flag, hide, reveal, remove, ban, unban, unknown,
}
use hypergraph.Decisions.View.{Scope, top, Tx, set_member, set_banned}
use hypergraph.Decisions.Chain.{
  role_in, member_in, banned_in, scope_of, load, role_of_member, subspaces_of,
}
use hypergraph.Decisions.Cuts.{drop_below, drop_members, scopes_below}
use hypergraph.Decisions.Handlers.Members.{
  Context, in_subspace, member_add, member_remove, role_set,
}
use hypergraph.Decisions.Handlers.Moderation.{
  apply_ban, apply_unban, moderate_record, act, apply_moderate, moderated_or, is_all,
}
use hypergraph.Decisions.Seats.{seats, seats-admit}
use hypergraph.Decisions.Effects.{
  seats-remove_member, seats-give_role, seats-ban_member, seats-ban_stranger, seats-drop_if, added,
  banned_by,
}
use hypergraph.Decisions.Owner.{
  lift_ban-IsSeated, IsSeated, moved, reseat, knows, ne_owner, set_member-IsSeated,
  set_banned-IsSeated,
}

drop_members-IsSeated :
    {o : ℕ} (scopes : List Scope) (id : ℕ) (tx : Tx)
    → (id == o) ≡ false
    → IsSeated (seats tx) o
    → IsSeated (seats (drop_members scopes id tx)) o
unfolding drop_members
drop_members-IsSeated [] id tx ne h = h
drop_members-IsSeated {o} (s ∷ scopes) id tx ne h =
    let held = is_some (tx.view.member s id) in
    drop_members-IsSeated scopes id (if held then set_member s id none tx else tx) ne (
      if_splits held (λ (t : Tx). IsSeated (seats t) o)
        (λ _. set_member-IsSeated h s id ne none refl) (λ _. h))

module _ (env : Env) (c : Context) (tx : Tx) {o : ℕ} (k : knows tx.view c.chain ≡ true)
    (h : IsSeated (seats tx) o) where
  abbrev Seated : Tx → Type 0
  Seated t = IsSeated (seats t) o

  pub member_add-IsSeated : (id : ℕ) → Seated (member_add c id tx)
  unfolding member_add
  member_add-IsSeated id = if_keeps (in_subspace c || not (can c.role decide c.table)) Seated h λ _.
      if_keeps (is_some (role_in tx.view c.chain id) || is_some (tx.view.banned top id)) Seated h
        λ e.
          moved
            (seats-admit top id (some member) c.table c.code
              (set_member top id (some (added c)) tx))
            (set_member-IsSeated h top id (ne_owner tx.view c.chain id h k (ground arith)) _ refl)

  pub member_remove-IsSeated : (id : ℕ) (cut : CutEntries) → Seated (member_remove env c id cut tx)
  unfolding member_remove drop_below
  member_remove-IsSeated id cut =
      let role = role_in tx.view c.chain id in
      let table = load tx.view role c.table in
      if_keeps (not (is_some role) || not (may_remove c.role role decide table)) Seated h λ e.
        if_keeps (not (is_some (tx.view.member (scope_of c.chain) id))) Seated h λ _.
          let out = set_member (scope_of c.chain) id none tx in
          let may : may_remove c.role role decide table ≡ true = ground arith in
          let ne =
            ne_owner tx.view c.chain id h k (may_remove_rank c.role role decide table may).1 in
          moved (seats-remove_member env c id cut role table tx) (
            drop_members-IsSeated
              (scopes_below (subspaces_of out.view) (subspaces_of out.view) (scope_of c.chain)) id
              out ne (set_member-IsSeated h (scope_of c.chain) id ne none refl))

  pub role_set-IsSeated :
      (id : ℕ) (role : Role) (cut : CutEntries) → Seated (role_set env c id role cut tx)
  unfolding role_set role_in
  role_set-IsSeated id role cut =
      let old = member_in tx.view c.chain id in
      let table = load tx.view (some role) (load tx.view (role_of_member old) c.table) in
      if_keeps (banned_in tx.view c.chain id) Seated h λ _.
        if_keeps (not (may_assign c.role (role_of_member old) role table)) Seated h λ e.
          let may : may_assign c.role (role_of_member old) role table ≡ true = ground arith in
          let (_, plain_role, not_owner, _) =
            may_assign_rank c.role (role_of_member old) role table may in
          moved (seats-give_role env c id role cut old table tx) (
            set_member-IsSeated h (scope_of c.chain) id (ne_owner tx.view c.chain id h k not_owner)
              _ (ground arith))

  apply_ban-IsSeated :
      (id : ℕ) (reason : String) (cut : CutEntries) (drop : Option String)
      → Seated (apply_ban env c id reason cut drop tx)
  unfolding apply_ban
  apply_ban-IsSeated id reason cut drop =
      let s = scope_of c.chain in
      let role = role_in tx.view c.chain id in
      let table = load tx.view role c.table in
      if_splits (is_some (tx.view.banned s id)) Seated
        (λ _. moved (seats-drop_if (is_all drop) s id cut c.stamp tx) h)
        λ _. if_keeps (not (may_remove c.role role moderate table)) Seated h λ e.
          let may : may_remove c.role role moderate table ≡ true = ground arith in
          let ne =
            ne_owner tx.view c.chain id h k (may_remove_rank c.role role moderate table may).1 in
          let banned_tx = set_banned s id (some (banned_by c reason drop)) tx in
          let banned = set_banned-IsSeated h s id ne (some (banned_by c reason drop)) in
          if_splits (is_some role) Seated
            (λ _.
              moved (seats-ban_member env c id cut (is_all drop) role table banned_tx)
                (set_member-IsSeated banned s id ne none refl))
            (λ _. moved (seats-ban_stranger env c id cut (is_all drop) table banned_tx) banned)

  apply_unban-IsSeated : (id : ℕ) → Seated (apply_unban c id tx)
  unfolding apply_unban
  apply_unban-IsSeated id = elim (Option-cases (tx.view.banned (scope_of c.chain) id)) [
    | inl free ↦ rw (free, apply_unban) h
    | inr (found, held) ↦
        let by_role = role_in tx.view c.chain found.by in
        rw (held, apply_unban)
          (if_keeps
            (not (is_owner c.role) && is_some by_role && ltb (rank_of c.role) (rank_of by_role))
            Seated h (λ _. lift_ban-IsSeated h (scope_of c.chain) id))
  ]

  moderate_record-IsSeated :
      (action : Action) (target : Target) → Seated (moderate_record env c action target tx)
  unfolding moderate_record
  moderate_record-IsSeated action target =
      if_keeps
        (not (env.is_record_id target)
          || (moderated_or (tx.view.moderated (scope_of c.chain) target.bytes)).removed)
        Seated h (λ _. reseat refl refl refl h)

  module _ (target : Target) (reason : String) (cut : CutEntries) (drop : Option String) where
    act-IsSeated : (action : Action) → Seated (act env c action target reason cut drop tx)
    unfolding act
    act-IsSeated (unknown name) = h
    act-IsSeated ban =
        if_splits (target.byte_length == 32) Seated
          (λ _. apply_ban-IsSeated target.bytes reason cut drop) (λ _. h)
    act-IsSeated unban =
        if_splits (target.byte_length == 32) Seated (λ _. apply_unban-IsSeated target.bytes)
          (λ _. h)
    act-IsSeated flag = moderate_record-IsSeated flag target
    act-IsSeated hide = moderate_record-IsSeated hide target
    act-IsSeated reveal = moderate_record-IsSeated reveal target
    act-IsSeated remove = moderate_record-IsSeated remove target

    pub apply_moderate-IsSeated :
        (action : Action) → Seated (apply_moderate env c action target reason cut drop tx)
    unfolding apply_moderate
    apply_moderate-IsSeated action =
        if_splits (can c.role moderate c.table) Seated (λ _. act-IsSeated action) (λ _. h)
