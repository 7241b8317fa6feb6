-- ===== src/Decisions/Steps/Invites.antt =====
-- The case invite/redeem of applyOne in lib/decisions/apply.js makes a sequence of the guarded
-- writes: members, then the redemption itself.
use hypergraph.Prelude.{
  ℕ, ◌≡◌, refl, ap, ◌∙◌, false, not, ◌&&◌, ◌||◌, Option, none, some, List, [], ◌∷◌, arith, ◌==◌,
  is_some, if_keeps, if_splits, Option-cases, Bool-cases, inl, inr,
}
use hypergraph.Roles.{Table, decide, can, may_invite}
use hypergraph.Decisions.Data.{Env, Device, InviteBody, Redemption}
use hypergraph.Decisions.View.{Scope, sub, Member, Stamped, Tx, set_member}
use hypergraph.Decisions.Chain.{
  SubInfo, role_in, member_in, banned_in, scope_of, load, role_of_member, subspaces_of, below,
  chain_of,
}
use hypergraph.Decisions.Handlers.Members.{Context}
use hypergraph.Decisions.Handlers.Invites.{
  is_below, let_in, let_in_table, let_into, let_into_if, let_into_all, redeem, redeem_if,
  invite_redeem, verify_redemption, is_refused, space_of,
}
use hypergraph.Decisions.Seats.{Seats, seats, seats-admit}
use hypergraph.Decisions.Effects.{seats-let_in, invited}
use hypergraph.Decisions.Steps.{Write, Reach, Reach-trans, Reach-step}

-- What a redemption's own keys look like: they change once, at its end.
abbrev Tally : Type 0
Tally = (Scope → ℕ → ℕ → Option Stamped) × (Scope → ℕ → Option ℕ)

abbrev tally : Seats → Tally
tally s = (s.redeemed, s.uses)

-- From one view to another by members' entries, the redemptions as they were.
record Enters (env : Env) (x y : Seats) : Type 0 where
  reach : Reach env x y
  same : tally y ≡ tally x

Enters-refl : {env : Env} (x : Seats) → Enters env x x
Enters-refl x = record { reach = Reach.here refl; same = refl }

Enters-trans : {env : Env} {x y z : Seats} → Enters env x y → Enters env y z → Enters env x z
Enters-trans a b = record { reach = Reach-trans a.reach b.reach; same = b.same ∙ a.same }

Enters-member :
    {env : Env} {x : Seats} (tx : Tx) (s : Scope) (id : ℕ) (m : Option Member)
    → x ≡ seats (set_member s id m tx)
    → Enters env (seats tx) x
Enters-member tx s id m e = record { reach = Reach-step (Write.member s id m) e; same = ap tally e }

module _ (env : Env) (c : Context) (inv : InviteBody) (id : ℕ) (table : Table) where
  let_into-Enters :
      (key : ℕ) (chain : List ℕ) (tx : Tx)
      → Enters env (seats tx) (seats (let_into c inv id key chain table tx))
  unfolding let_into
  let_into-Enters key chain tx =
      let maker = role_in tx.view chain inv.maker in
      let m = some (invited c inv none none) in
      if_keeps
        (banned_in tx.view chain id
          || not (is_some maker && may_invite maker inv.role table)
          || not (is_below (member_in tx.view chain id) inv.role)
          || not (is_below (tx.view.member (sub key) id) inv.role))
        (λ (t : Tx). Enters env (seats tx) (seats t)) (Enters-refl (seats tx))
        λ _.
          Enters-member tx (sub key) id m
            (seats-admit (sub key) id (some inv.role) table c.code (set_member (sub key) id m tx))

  let_into_if-Enters :
      (subs : List SubInfo) (key : ℕ) (tx : Tx)
      → Enters env (seats tx) (seats (let_into_if c inv id subs key table tx))
  unfolding let_into_if
  let_into_if-Enters subs key tx =
      if_splits (below subs key (scope_of c.chain)) (λ (t : Tx). Enters env (seats tx) (seats t))
        (λ _. elim (Option-cases (chain_of tx.view (sub key))) [
          | inl no_chain ↦ rw (no_chain, let_into_if) (Enters-refl (seats tx))
          | inr (chain, found) ↦ rw (found, let_into_if) (let_into-Enters key chain tx)
        ])
        (λ _. Enters-refl (seats tx))

  let_into_all-Enters :
      (subs : List SubInfo) (keys : List ℕ) (tx : Tx)
      → Enters env (seats tx) (seats (let_into_all c inv id subs keys table tx))
  unfolding let_into_all
  let_into_all-Enters subs [] tx = Enters-refl (seats tx)
  let_into_all-Enters subs (key ∷ keys) tx =
      Enters-trans (let_into_if-Enters subs key tx)
        (let_into_all-Enters subs keys (let_into_if c inv id subs key table tx))

  let_in-Enters :
      (writer device : ℕ) (old : Option Member) (tx : Tx)
      → Enters env (seats tx) (seats (let_in env c inv id writer device old table tx))
  let_in-Enters writer device old tx = elim (Bool-cases (is_below old inv.role)) [
    | inl lower ↦
        Enters-member tx (scope_of c.chain) id (some (invited c inv (some writer) (some device)))
          (seats-let_in env c inv id writer device old table tx lower)
    | inr as_high ↦ unfold let_in in rw as_high (Enters-refl (seats tx))
  ]

module _ (env : Env) (c : Context) (tx : Tx) where
  redeem-Reach :
      (inv : InviteBody) (id writer device : ℕ) (table : Table)
      → is_refused c inv id tx ≡ false
      → Reach env (seats tx) (seats (redeem env c inv id writer device table tx))
  unfolding redeem is_refused
  redeem-Reach inv id writer device table e =
      let s = scope_of c.chain in
      let old = member_in tx.view c.chain id in
      let loaded = load tx.view (role_of_member old) table in
      let entered = let_in env c inv id writer device old loaded tx in
      let settled = let_in_table env c inv id writer device old loaded tx in
      let all = let_into_all c inv id (subspaces_of entered.view) inv.subspaces settled entered in
      let enters : Enters env (seats tx) (seats all) =
        Enters-trans (let_in-Enters env c inv id loaded writer device old tx) (
          let_into_all-Enters env c inv id settled (subspaces_of entered.view) inv.subspaces
            entered) in
      let uses : all.view.uses ≡ tx.view.uses = ap (λ (t : Tally). t.1) enters.same in
      let redeemed : all.view.redeemed ≡ tx.view.redeemed = ap (λ (t : Tally). t.0) enters.same in
      Reach-trans enters.reach (
        Reach-step
          (Write.redeemed s inv id (record { by = c.author; stamp = c.stamp })
            (rw redeemed (ground arith)) (rw uses (ground arith)))
          (rw uses refl))

  redeem_if-Reach :
      (r : Redemption) (signer : Device)
      → Reach env (seats tx) (seats (redeem_if env c r signer tx))
  unfolding redeem_if
  redeem_if-Reach r signer =
      let inv = r.invite.body in
      let maker = role_in tx.view c.chain inv.maker in
      let table = load tx.view (some inv.role) (load tx.view maker c.table) in
      if_keeps
        (not (inv.space == space_of env (scope_of c.chain)) || is_refused c inv r.identity tx)
        (λ (t : Tx). Reach env (seats tx) (seats t)) (Reach.here refl)
        λ e.
          if_keeps (not (may_invite maker inv.role table))
            (λ (t : Tx). Reach env (seats tx) (seats t)) (Reach.here refl)
            λ _. redeem-Reach inv r.identity r.writer signer.device table (ground arith)

  pub invite_redeem-Reach :
      (bytes : ℕ) → Reach env (seats tx) (seats (invite_redeem env c bytes tx))
  unfolding invite_redeem
  invite_redeem-Reach bytes =
      if_keeps (not (can c.role decide c.table)) (λ (t : Tx). Reach env (seats tx) (seats t))
        (Reach.here refl)
        λ _. elim (Option-cases (env.decode_redemption bytes)) [
          | inl malformed ↦ rw (malformed, invite_redeem) (Reach.here refl)
          | inr (r, decoded) ↦ elim (Option-cases (verify_redemption env r)) [
            | inl unsigned ↦
                rw (decoded, invite_redeem) (rw (unsigned, invite_redeem) (Reach.here refl))
            | inr (signer, signed) ↦
                rw (decoded, invite_redeem) (rw (signed, invite_redeem) (redeem_if-Reach r signer))
          ]
        ]
