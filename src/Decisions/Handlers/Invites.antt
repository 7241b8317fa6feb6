-- ===== src/Decisions/Handlers/Invites.antt =====
-- Invites in lib/decisions/apply.js and lib/invites.js: verifyInvite, verifyRedemption,
-- invite/redeem and invite/revoke.
use hypergraph.Prelude.{
  ℕ, suc, Bool, true, false, not, ◌&&◌, ◌||◌, Option, none, some, List, [], ◌∷◌, ◌==◌,
  if◌then◌else◌, is_some, ltb, leb,
}
use hypergraph.Roles.{Role, Table, decide, can, may_invite, rank_of}
use hypergraph.Decisions.Data.{Env, Device, InviteBody, Invite, Redemption, invitation, redeeming}
use hypergraph.Decisions.View.{
  Scope, top, sub, Member, Tx, set_member, set_redeemed, set_uses, set_revoked,
}
use hypergraph.Decisions.Chain.{
  SubInfo, banned_in, member_in, role_in, role_of_member, scope_of, load, may_write,
  writes_anywhere, chain_of, subspaces_of, below,
}
use hypergraph.Decisions.Writers.{add_key, settle}
use hypergraph.Decisions.Cuts.{admit}
use hypergraph.Decisions.Handlers.Members.{Context}

-- inviteSignable: the root's key counts for an invite to a sub-space only
abbrev pub root_of : ℕ → InviteBody → Option ℕ
root_of root inv = if root == inv.space then none else some root

unfoldable pub verify_invite : Env → Invite → Bool
verify_invite env inv =
    elim (env.verify inv.proof (invitation inv.body (root_of env.space inv.body))) [
      | none ↦ false
      | some info ↦ info.identity == inv.maker
    ]

unfoldable pub verify_redemption : Env → Redemption → Option Device
unfolding verify_invite
verify_redemption env r =
    if not (verify_invite env r.invite)
    then none
    else elim (env.verify r.proof (redeeming r.invite.space r.invite.id r.identity r.writer)) [
      | none ↦ none
      | some info ↦ if info.identity == r.identity then some info else none
    ]

-- The space that an invite decided in `s` must be to.
abbrev pub space_of : Env → Scope → ℕ
space_of env top = env.space
space_of env (sub key) = key

abbrev pub or_zero : Option ℕ → ℕ
or_zero none = 0
or_zero (some n) = n

abbrev pub is_expired : ℕ → InviteBody → Bool
is_expired stamp inv = not (inv.expires == 0) && ltb inv.expires stamp

abbrev pub is_used_up : ℕ → InviteBody → Bool
is_used_up used inv = not (inv.uses == 0) && leb inv.uses used

-- Is there no entry, or one of a lower rank than `role`?
abbrev pub is_below : Option Member → Role → Bool
is_below none role = true
is_below (some m) role = ltb (rank_of (some m.role)) (rank_of (some role))

-- Why a redemption counts for nothing, before its maker is looked at.
unfoldable pub is_refused : Context → InviteBody → ℕ → Tx → Bool
is_refused c inv id tx =
    let s = scope_of c.chain in
    banned_in tx.view c.chain id
    || is_some (tx.view.redeemed s inv.id id)
    || is_some (tx.view.revoked s inv.id)
    || is_expired c.stamp inv
    || is_used_up (or_zero (tx.view.uses s inv.id)) inv

-- The member's entry and key, before `settle`.
unfoldable pub given_role : Env → Context → InviteBody → ℕ → ℕ → ℕ → Table → Tx → Tx
given_role env c inv id writer device table tx =
    let s = scope_of c.chain in
    let given = admit s id (some inv.role) table c.code (
      set_member s id
        (some (record {
          role = inv.role;
          by = inv.maker;
          stamp = c.stamp;
          writer = some writer;
          writer_device = some device;
        }))
        tx) in
    if may_write (some inv.role) table then (add_key env id writer (some device) given).1 else given

-- The member's entry and key, unless they have as high a role already.
unfoldable pub let_in : Env → Context → InviteBody → ℕ → ℕ → ℕ → Option Member → Table → Tx → Tx
unfolding given_role
let_in env c inv id writer device old table tx =
    if not (is_below old inv.role)
    then tx
    else settle env id table (given_role env c inv id writer device table tx)

-- `custom` after `let_in`, with the roles that `settle` loaded.
unfoldable pub let_in_table :
    Env → Context → InviteBody → ℕ → ℕ → ℕ → Option Member → Table → Tx → Table
unfolding given_role
let_in_table env c inv id writer device old table tx =
    if not (is_below old inv.role)
    then table
    else (writes_anywhere (given_role env c inv id writer device table tx).view id table).1

-- One of the sub-spaces that the invite lists, once its chain is known.
unfoldable pub let_into : Context → InviteBody → ℕ → ℕ → List ℕ → Table → Tx → Tx
let_into c inv id key chain table tx =
    let maker = role_in tx.view chain inv.maker in
    if banned_in tx.view chain id
      || not (is_some maker && may_invite maker inv.role table)
      || not (is_below (member_in tx.view chain id) inv.role)
      || not (is_below (tx.view.member (sub key) id) inv.role)
    then tx
    else admit (sub key) id (some inv.role) table c.code (
        set_member (sub key) id
          (some (record {
            role = inv.role;
            by = inv.maker;
            stamp = c.stamp;
            writer = none;
            writer_device = none;
          }))
          tx)

-- The sub-space `key` of the invite, if it is one inside this space.
unfoldable pub let_into_if : Context → InviteBody → ℕ → List SubInfo → ℕ → Table → Tx → Tx
let_into_if c inv id subs key table tx =
    if below subs key (scope_of c.chain)
    then elim (chain_of tx.view (sub key)) [
      | none ↦ tx
      | some chain ↦ let_into c inv id key chain table tx
    ]
    else tx

unfoldable pub let_into_all : Context → InviteBody → ℕ → List SubInfo → List ℕ → Table → Tx → Tx
unfolding let_into let_into_if
let_into_all c inv id subs [] table tx = tx
let_into_all c inv id subs (key ∷ keys) table tx =
    let_into_all c inv id subs keys table (let_into_if c inv id subs key table tx)

-- after its checks
unfoldable pub redeem : Env → Context → InviteBody → ℕ → ℕ → ℕ → Table → Tx → Tx
unfolding let_in let_in_table let_into_all
redeem env c inv id writer device table tx =
    let s = scope_of c.chain in
    let used = or_zero (tx.view.uses s inv.id) in
    let old = member_in tx.view c.chain id in
    let loaded = load tx.view (role_of_member old) table in
    let entered = let_in env c inv id writer device old loaded tx in
    let settled = let_in_table env c inv id writer device old loaded tx in
    let all = let_into_all c inv id (subspaces_of entered.view) inv.subspaces settled entered in
    set_uses s inv.id (some (suc used))
      (set_redeemed s inv.id id (some (record { by = c.author; stamp = c.stamp })) all)

unfoldable pub redeem_if : Env → Context → Redemption → Device → Tx → Tx
unfolding redeem is_refused
redeem_if env c r signer tx =
    let inv = r.invite.body in
    if not (inv.space == space_of env (scope_of c.chain)) || is_refused c inv r.identity tx
    then tx
    else let maker = role_in tx.view c.chain inv.maker in
      let table = load tx.view (some inv.role) (load tx.view maker c.table) in
      if not (may_invite maker inv.role table)
      then tx
      else redeem env c inv r.identity r.writer signer.device table tx

unfoldable pub invite_redeem : Env → Context → ℕ → Tx → Tx
unfolding redeem_if verify_redemption
invite_redeem env c bytes tx =
    if not (can c.role decide c.table) then tx else elim (env.decode_redemption bytes) [
      | none ↦ tx
      | some r ↦ elim (verify_redemption env r) [
        | none ↦ tx
        | some signer ↦ redeem_if env c r signer tx
      ]
    ]

unfoldable pub revoke : Env → Context → Invite → Tx → Tx
unfolding verify_invite
revoke env c inv tx =
    let s = scope_of c.chain in
    if not (inv.space == space_of env s)
      || not (verify_invite env inv)
      || (not (can c.role decide c.table) && not (c.author == inv.maker))
      || is_some (tx.view.revoked s inv.id)
    then tx
    else set_revoked s inv.id (some (record { by = c.author; stamp = c.stamp })) tx

unfoldable pub invite_revoke : Env → Context → ℕ → Tx → Tx
unfolding revoke
invite_revoke env c bytes tx = elim (env.decode_invite bytes) [
  | none ↦ tx
  | some inv ↦ revoke env c inv tx
]
