-- ===== src/Decisions/Steps/Lasting.antt =====
-- What no decision undoes (lib/decisions/apply.js): a record taken down, a device removed, a space
-- made public, a version of the types, a custom role's permissions, an invite's revocation, a
-- sub-space and a key's commitment.
use hypergraph.Prelude.{
  ℕ, ◌≡◌, refl, subst, ◌≤◌, ◌<◌, true, false, not, ◌&&◌, ◌||◌, Option, none, some, List, [], ◌∷◌,
  String, arith, str_eq, eq_iff, any, get, get-put, Bool-cases, inl, inr,
}
use hypergraph.Roles.{
  Permission, decide, moderate, invite, roles, post, app, is_own, has, eq_permission,
}
use hypergraph.Decisions.Data.{Env, Redemption}
use hypergraph.Decisions.View.{Scope, Stamped, Moderated, RoleEntry, Subspace}
use hypergraph.Decisions.Chain.{scope_of}
use hypergraph.Decisions.Apply.{apply_nodes, Ledger, Node, start}
use hypergraph.Decisions.Handlers.Members.{Context, takes_away}
use hypergraph.Decisions.Handlers.Invites.{invite_redeem, redeem_if, is_refused}
use hypergraph.Decisions.Handlers.Settings.{merge, meta_or, or_no_version, next_epoch, epochs_or}
use hypergraph.Decisions.Seats.{Seats}
use hypergraph.Decisions.Steps.{Write, after, Reach_induction}
use hypergraph.Decisions.Steps.Log.{apply_nodes-Reach}

eq_permission-eq : (p q : Permission) → eq_permission p q ≡ true → p ≡ q
eq_permission-eq decide q h = ground arith
eq_permission-eq moderate q h = ground arith
eq_permission-eq invite q h = ground arith
eq_permission-eq roles q h = ground arith
eq_permission-eq post q h = ground arith
eq_permission-eq (app a) (app b) h = ground (arith, eq_iff a b)
eq_permission-eq (app a) _ h = ground arith

-- The permissions of a custom role.
abbrev pub permissions_at : Option RoleEntry → List Permission
permissions_at none = []
permissions_at (some e) = e.permissions

any_lost :
    (p : Permission) (old new : List Permission)
    → is_own p ≡ false
    → any (λ q. not (is_own q) && not (has q new)) old ≡ false
    → has p old ≡ true
    → has p new ≡ true
any_lost p [] new o a h = cc
any_lost p (q ∷ old) new o a h = elim (Bool-cases (eq_permission q p)) [
  | inl same ↦
      let e : q ≡ p = eq_permission-eq q p same in
      let a' : (not (is_own p) && not (has p new))
            || any (λ r. not (is_own r) && not (has r new)) old
          ≡ false =
        subst
          (λ (r : Permission).
            (not (is_own r) && not (has r new)) || any (λ t. not (is_own t) && not (has t new)) old
            ≡ false)
          e a in
      ground arith
  | inr other ↦ any_lost p old new o (ground arith) (ground arith)
]

takes_away-has :
    (p : Permission) (old : Option RoleEntry) (new : List Permission)
    → is_own p ≡ false
    → takes_away old new ≡ false
    → has p (permissions_at old) ≡ true
    → has p new ≡ true
unfolding takes_away
takes_away-has p none new o a h = cc
takes_away-has p (some e) new o a h = any_lost p e.permissions new o a h

module _ (env : Env) (nodes : List Node) (l : Ledger) where
  -- Once a record is taken down it stays down, with the marks that it had then, whatever decisions
  -- follow.
  pub removed_forever :
      (s : Scope) (target : ℕ) (m : Moderated)
      → l.view.moderated s target ≡ some m
      → m.removed ≡ true
      → (apply_nodes env nodes l).view.moderated s target ≡ some m
  removed_forever s target m e r =
      Reach_induction (λ x. x.moderated s target ≡ some m) keeps (apply_nodes-Reach env nodes l) e
    where
      keeps :
          (x : Seats) (w : Write env x)
          → x.moderated s target ≡ some m
          → (after w).moderated s target ≡ some m
      keeps x (Write.moderated t u a free) h = ground arith
      keeps x w h = h

  -- Once a device is removed it stays removed, whatever decisions follow.
  pub gone_forever :
      (id device : ℕ) (e : Stamped)
      → l.view.gone id device ≡ some e
      → (apply_nodes env nodes l).view.gone id device ≡ some e
  gone_forever id device e h =
      Reach_induction (λ x. x.gone id device ≡ some e) keeps (apply_nodes-Reach env nodes l) h
    where
      keeps :
          (x : Seats) (w : Write env x)
          → x.gone id device ≡ some e
          → (after w).gone id device ≡ some e
      keeps x (Write.gone i d f fresh) h = ground arith
      keeps x w h = h

  -- Once a space or a sub-space is public it stays public, whatever decisions follow.
  pub public_forever :
      (s : Scope)
      → (meta_or (l.view.metas s)).is_public ≡ true
      → (meta_or ((apply_nodes env nodes l).view.metas s)).is_public ≡ true
  unfolding merge
  public_forever s h =
      Reach_induction (λ x. (meta_or (x.metas s)).is_public ≡ true) keeps
        (apply_nodes-Reach env nodes l) h
    where
      keeps :
          (x : Seats) (w : Write env x)
          → (meta_or (x.metas s)).is_public ≡ true
          → (meta_or ((after w).metas s)).is_public ≡ true
      keeps x (Write.created m fresh) h = ground arith
      keeps x (Write.settled t n) h = ground arith
      keeps x w h = h

  -- The version of the types never goes back, and the text of a version up to the present one
  -- never changes, whatever decisions follow.
  pub types_forever :
      (n : ℕ)
      → n ≤ or_no_version l.view.types
      → ((apply_nodes env nodes l).view.types_at n ≡ l.view.types_at n)
        × (or_no_version l.view.types ≤ or_no_version (apply_nodes env nodes l).view.types)
  types_forever n h =
      Reach_induction
        (λ x.
          (x.types_at n ≡ l.view.types_at n) × (or_no_version l.view.types ≤ or_no_version x.types))
        keeps (apply_nodes-Reach env nodes l) (refl, ground arith)
    where
      keeps :
          (x : Seats) (w : Write env x)
          → (x.types_at n ≡ l.view.types_at n)
            × (or_no_version l.view.types ≤ or_no_version x.types)
          → ((after w).types_at n ≡ l.view.types_at n)
            × (or_no_version l.view.types ≤ or_no_version (after w).types)
      keeps x (Write.typed text types ok) k = ground arith
      keeps x w k = k

  -- A custom role never loses a permission that is not one of decide, moderate, invite and roles,
  -- whatever decisions follow.
  pub role_keeps :
      (name : String) (p : Permission)
      → is_own p ≡ false
      → has p (permissions_at (l.view.role name)) ≡ true
      → has p (permissions_at ((apply_nodes env nodes l).view.role name)) ≡ true
  role_keeps name p o h =
      Reach_induction (λ x. has p (permissions_at (x.role name)) ≡ true) keeps
        (apply_nodes-Reach env nodes l) h
    where
      keeps :
          (x : Seats) (w : Write env x)
          → has p (permissions_at (x.role name)) ≡ true
          → has p (permissions_at ((after w).role name)) ≡ true
      keeps x (Write.role n e kept) k = elim (Bool-cases (str_eq n name)) [
        | inl same ↦
            let e' : n ≡ name = (eq_iff n name).0 same in
            rw same (takes_away-has p (x.role n) e.permissions o kept (rw e' k))
        | inr other ↦ rw other k
      ]
      keeps x w k = k

  -- A sub-space's entry, with its parent, its privacy and the roles that write in it, never
  -- changes, whatever decisions follow.
  pub subspace_forever :
      (key : ℕ) (info : Subspace)
      → l.view.subspace key ≡ some info
      → (apply_nodes env nodes l).view.subspace key ≡ some info
  subspace_forever key info h =
      Reach_induction (λ x. x.subspace key ≡ some info) keeps (apply_nodes-Reach env nodes l) h
    where
      keeps :
          (x : Seats) (w : Write env x)
          → x.subspace key ≡ some info
          → (after w).subspace key ≡ some info
      keeps x (Write.subspace k i ks fresh) h = ground arith
      keeps x w h = h

  revoked_forever :
      (s : Scope) (id : ℕ) (e : Stamped)
      → l.view.revoked s id ≡ some e
      → (apply_nodes env nodes l).view.revoked s id ≡ some e
  revoked_forever s id e h =
      Reach_induction (λ x. x.revoked s id ≡ some e) keeps (apply_nodes-Reach env nodes l) h
    where
      keeps :
          (x : Seats) (w : Write env x) → x.revoked s id ≡ some e → (after w).revoked s id ≡ some e
      keeps x (Write.revoked t i f fresh) h = ground arith
      keeps x w h = h

  -- The key epoch of a space or sub-space never goes back, and the commitment recorded for an
  -- epoch up to the present one never changes, whatever decisions follow.
  pub epochs_forever :
      (s : Scope) (epoch commit : ℕ)
      → epoch < next_epoch (l.view.epochs s)
      → get (epochs_or (l.view.epochs s)).commits epoch ≡ some commit
      → (get (epochs_or ((apply_nodes env nodes l).view.epochs s)).commits epoch ≡ some commit)
        × (next_epoch (l.view.epochs s) ≤ next_epoch ((apply_nodes env nodes l).view.epochs s))
  epochs_forever s epoch commit lt h =
      Reach_induction
        (λ x.
          (get (epochs_or (x.epochs s)).commits epoch ≡ some commit)
          × (next_epoch (l.view.epochs s) ≤ next_epoch (x.epochs s)))
        keeps (apply_nodes-Reach env nodes l) (h, ground arith)
    where
      keeps :
          (x : Seats) (w : Write env x)
          → (get (epochs_or (x.epochs s)).commits epoch ≡ some commit)
            × (next_epoch (l.view.epochs s) ≤ next_epoch (x.epochs s))
          → (get (epochs_or ((after w).epochs s)).commits epoch ≡ some commit)
            × (next_epoch (l.view.epochs s) ≤ next_epoch ((after w).epochs s))
      keeps x (Write.rotated t c) k =
          ground (arith, get-put (epochs_or (x.epochs t)).commits (next_epoch (x.epochs t)) epoch c)
      keeps x (Write.rotated_too t e c old) k = ground arith
      keeps x w k = k

  -- Once an invite is revoked, then after any further decisions a redemption of it in the same
  -- scope changes nothing, whoever records it.
  pub revoked_for_good :
      (c : Context) (bytes : ℕ) (r : Redemption) (e : Stamped)
      → l.view.revoked (scope_of c.chain) r.invite.id ≡ some e
      → env.decode_redemption bytes ≡ some r
      → invite_redeem env c bytes (start (apply_nodes env nodes l))
        ≡ start (apply_nodes env nodes l)
  unfolding invite_redeem redeem_if is_refused
  revoked_for_good c bytes r e h d =
      ground (arith, revoked_forever (scope_of c.chain) r.invite.id e h)
