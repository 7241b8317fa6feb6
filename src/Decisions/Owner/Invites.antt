-- ===== src/Decisions/Owner/Invites.antt =====
-- Invites keep the owner's seat: the case invite/redeem of applyOne in lib/decisions/apply.js.
use hypergraph.Prelude.{
  ℕ, ◌≡◌, refl, true, false, not, ◌&&◌, ◌||◌, Option, none, some, List, [], ◌∷◌, arith, ◌==◌,
  is_some, if_keeps, if_splits, Option-cases, inl, inr, Bool-cases,
}
use hypergraph.Roles.{Role, Table, eq_role, is_owner, decide, can, may_invite, rank_of}
use hypergraph.Roles
use hypergraph.Roles.Order.{may_invite_rank}
use hypergraph.Decisions.Data.{Env, Device, InviteBody, Redemption}
use hypergraph.Decisions.View.{sub, Member, Tx, set_member}
use hypergraph.Decisions.Chain.{
  SubInfo, role_in, member_in, banned_in, scope_of, load, role_of_member, subspaces_of, below,
  chain_of,
}
use hypergraph.Decisions.Handlers.Members.{Context}
use hypergraph.Decisions.Handlers.Invites.{
  is_below, let_in, let_in_table, let_into, let_into_if, let_into_all, redeem, redeem_if,
  invite_redeem, verify_redemption, is_refused, space_of,
}
use hypergraph.Decisions.Seats.{seats, seats-admit}
use hypergraph.Decisions.Effects.{seats-let_in, invited}
use hypergraph.Decisions.Owner.{
  IsSeated, moved, reseat, knows, ne_owner, set_member-IsSeated, chain_of-knows,
}

-- A role below owner is not above anybody's who is the owner.
not_owner-is_below :
    (old : Option Member) (role : Role)
    → eq_role role Roles.owner ≡ false
    → is_below old role ≡ true
    → is_owner (role_of_member old) ≡ false
not_owner-is_below none role n b = refl
not_owner-is_below (some m) role n b = ground arith

let_into-IsSeated :
    (c : Context) (inv : InviteBody) (id key : ℕ) (chain : List ℕ) (table : Table) (tx : Tx) {o : ℕ}
    → eq_role inv.role Roles.owner ≡ false
    → knows tx.view chain ≡ true
    → IsSeated (seats tx) o
    → IsSeated (seats (let_into c inv id key chain table tx)) o
unfolding let_into role_in
let_into-IsSeated c inv id key chain table tx {o} n k h =
    let maker = role_in tx.view chain inv.maker in
    let put = set_member (sub key) id (some (invited c inv none none)) tx in
    let old = member_in tx.view chain id in
    if_keeps
      (banned_in tx.view chain id
        || not (is_some maker && may_invite maker inv.role table)
        || not (is_below old inv.role)
        || not (is_below (tx.view.member (sub key) id) inv.role))
      (λ (t : Tx). IsSeated (seats t) o) h
      λ e.
        let ne = ne_owner tx.view chain id h k (not_owner-is_below old inv.role n (ground arith)) in
        moved (seats-admit (sub key) id (some inv.role) table c.code put)
          (set_member-IsSeated h (sub key) id ne (some (invited c inv none none)) (ground arith))

let_into_if-IsSeated :
    (c : Context) (inv : InviteBody) (id : ℕ) (subs : List SubInfo) (key : ℕ) (table : Table)
    (tx : Tx) {o : ℕ}
    → eq_role inv.role Roles.owner ≡ false
    → IsSeated (seats tx) o
    → IsSeated (seats (let_into_if c inv id subs key table tx)) o
unfolding let_into_if
let_into_if-IsSeated c inv id subs key table tx {o} n h =
    if_splits (below subs key (scope_of c.chain)) (λ (t : Tx). IsSeated (seats t) o)
      (λ _. elim (Option-cases (chain_of tx.view (sub key))) [
        | inl no_chain ↦ rw (no_chain, let_into_if) h
        | inr (chain, found) ↦
            rw (found, let_into_if)
              (let_into-IsSeated c inv id key chain table tx n
                (chain_of-knows tx.view (sub key) chain found) h)
      ])
      (λ _. h)

let_into_all-IsSeated :
    (c : Context) (inv : InviteBody) (id : ℕ) (subs : List SubInfo) (keys : List ℕ) (table : Table)
    (tx : Tx) {o : ℕ}
    → eq_role inv.role Roles.owner ≡ false
    → IsSeated (seats tx) o
    → IsSeated (seats (let_into_all c inv id subs keys table tx)) o
unfolding let_into_all
let_into_all-IsSeated c inv id subs [] table tx n h = h
let_into_all-IsSeated c inv id subs (key ∷ keys) table tx {o} n h =
    let_into_all-IsSeated c inv id subs keys table (let_into_if c inv id subs key table tx) n
      (let_into_if-IsSeated c inv id subs key table tx n h)

module _ (env : Env) (c : Context) (tx : Tx) {o : ℕ} (k : knows tx.view c.chain ≡ true)
    (h : IsSeated (seats tx) o) where
  redeem-IsSeated :
      (inv : InviteBody) (id writer device : ℕ) (table : Table)
      → eq_role inv.role Roles.owner ≡ false
      → IsSeated (seats (redeem env c inv id writer device table tx)) o
  unfolding redeem role_in
  redeem-IsSeated inv id writer device table n =
      let old = member_in tx.view c.chain id in
      let loaded = load tx.view (role_of_member old) table in
      let entered = let_in env c inv id writer device old loaded tx in
      let settled = let_in_table env c inv id writer device old loaded tx in
      let inside : IsSeated (seats entered) o = elim (Bool-cases (is_below old inv.role)) [
        | inl below_role ↦
            moved (seats-let_in env c inv id writer device old loaded tx below_role) (
              set_member-IsSeated h (scope_of c.chain) id
                (ne_owner tx.view c.chain id h k (not_owner-is_below old inv.role n below_role))
                (some (invited c inv (some writer) (some device))) (ground arith))
        | inr above ↦ unfold let_in in rw above h
      ] in
      reseat refl refl refl (
        let_into_all-IsSeated c inv id (subspaces_of entered.view) inv.subspaces settled entered n
          inside)

  redeem_if-IsSeated :
      (r : Redemption) (signer : Device) → IsSeated (seats (redeem_if env c r signer tx)) o
  unfolding redeem_if
  redeem_if-IsSeated r signer =
      let inv = r.invite.body in
      let maker = role_in tx.view c.chain inv.maker in
      let table = load tx.view (some inv.role) (load tx.view maker c.table) in
      if_keeps
        (not (inv.space == space_of env (scope_of c.chain)) || is_refused c inv r.identity tx)
        (λ (t : Tx). IsSeated (seats t) o) h
        λ _.
          if_keeps (not (may_invite maker inv.role table)) (λ (t : Tx). IsSeated (seats t) o) h
            λ e.
              let may : may_invite maker inv.role table ≡ true = ground arith in
              redeem-IsSeated inv r.identity r.writer signer.device table
                (may_invite_rank maker inv.role table may).1

  pub invite_redeem-IsSeated : (bytes : ℕ) → IsSeated (seats (invite_redeem env c bytes tx)) o
  unfolding invite_redeem
  invite_redeem-IsSeated bytes =
      if_keeps (not (can c.role decide c.table)) (λ (t : Tx). IsSeated (seats t) o) h
        λ _. elim (Option-cases (env.decode_redemption bytes)) [
          | inl malformed ↦ rw (malformed, invite_redeem) h
          | inr (r, decoded) ↦ elim (Option-cases (verify_redemption env r)) [
            | inl unsigned ↦ rw (decoded, invite_redeem) (rw (unsigned, invite_redeem) h)
            | inr (signer, signed) ↦
                rw (decoded, invite_redeem)
                  (rw (signed, invite_redeem) (redeem_if-IsSeated r signer))
          ]
        ]
