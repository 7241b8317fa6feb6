-- ===== src/Decisions/Steps.antt =====
-- The view of lib/decisions/apply.js as a state machine: the guarded writes that decisions are
-- made of, cuts and writer keys aside, and what follows for any sequence of them.
pub mod Handlers
pub mod Invites
pub mod Others
pub mod Log
pub mod Lasting
pub mod Types
use hypergraph.Prelude.{
  ℕ, suc, ◌≡◌, refl, sym, subst, Bool, true, false, Option, none, some, List, ◌∷◌, ◌++◌, String,
  ◌<◌, ◌≤◌, ltb, put, get,
}
use hypergraph.Decisions.Data.{Env, InviteBody, Settings, Action}
use hypergraph.Decisions.View.{
  Scope, top, sub, Member, Ban, Moderated, Stamped, RoleEntry, Subspace, Epochs, Meta, set,
  set_text, set_scope, set_in,
}
use hypergraph.Decisions.Handlers.Members.{takes_away}
use hypergraph.Decisions.Handlers.Moderation.{mark, moderated_or}
use hypergraph.Decisions.Handlers.Invites.{is_used_up, or_zero}
use hypergraph.Decisions.Handlers.Settings.{
  Counted, merge, meta_or, or_no_version, accept_types, next_epoch, epochs_or,
}
use hypergraph.Decisions.Seats.{Seats}

-- The writes that may be made of a view, each with what holds when it is made.
pub data Write (env : Env) (x : Seats) : Type 0 where
  member : (s : Scope) (id : ℕ) (m : Option Member) → Write env x
  banned : (s : Scope) (id : ℕ) (b : Option Ban) → Write env x
  -- a record that is not removed is moderated
  moderated :
      (s : Scope) (target : ℕ) (action : Action)
      → (moderated_or (x.moderated s target)).removed ≡ false
      → Write env x
  -- an invite that may be used once more is redeemed by somebody who has not redeemed it
  redeemed :
      (s : Scope) (inv : InviteBody) (id : ℕ) (e : Stamped)
      → x.redeemed s inv.id id ≡ none
      → is_used_up (or_zero (x.uses s inv.id)) inv ≡ false
      → Write env x
  revoked : (s : Scope) (invite : ℕ) (e : Stamped) → x.revoked s invite ≡ none → Write env x
  -- the next epoch
  rotated : (s : Scope) (commit : ℕ) → Write env x
  -- another key of an epoch that is there
  rotated_too : (s : Scope) (epoch commit : ℕ) → epoch < next_epoch (x.epochs s) → Write env x
  gone : (id device : ℕ) (e : Stamped) → x.gone id device ≡ none → Write env x
  role :
      (name : String) (e : RoleEntry) → takes_away (x.role name) e.permissions ≡ false → Write env x
  subspace :
      (key : ℕ) (info : Subspace) (keys : Option (List ℕ)) → x.subspace key ≡ none → Write env x
  -- the next version of the types
  typed :
      (text types : String)
      → accept_types env (or_no_version x.types) x.types_at types ≡ some text
      → Write env x
  listed : (log space : ℕ) → x.listed log ≡ none → Write env x
  -- the space's settings, once and for all
  created : (m : Meta) → x.metas top ≡ none → Write env x
  -- settings changed
  settled : (s : Scope) (n : Counted) → Write env x

-- The view that a write leaves, as it is made from the one before.
abbrev pub after : {env : Env} {x : Seats} → Write env x → Seats
after {x = x} (Write.member s id m) = record x { member = set_in x.member s id m }
after {x = x} (Write.banned s id b) = record x { banned = set_in x.banned s id b }
after {x = x} (Write.moderated s target action _) = record x {
  moderated =
      set_in x.moderated s target (some (mark action (moderated_or (x.moderated s target))));
}
after {x = x} (Write.redeemed s inv id e _ _) = record x {
  redeemed = set_in x.redeemed s inv.id (set (x.redeemed s inv.id) id (some e));
  uses = set_in x.uses s inv.id (some (suc (or_zero (x.uses s inv.id))));
}
after {x = x} (Write.revoked s invite e _) = record x {
  revoked = set_in x.revoked s invite (some e);
}
after {x = x} (Write.rotated s commit) = record x {
  epochs = set_scope x.epochs s (
      some (record (epochs_or (x.epochs s)) {
        current = next_epoch (x.epochs s);
        commits = put (epochs_or (x.epochs s)).commits (next_epoch (x.epochs s)) commit;
      }));
}
after {x = x} (Write.rotated_too s epoch commit _) = record x {
  epochs = set_scope x.epochs s (
      some (record (epochs_or (x.epochs s)) {
        others = put (epochs_or (x.epochs s)).others commit epoch;
      }));
}
after {x = x} (Write.gone id device e _) = record x {
  gone = set x.gone id (set (x.gone id) device (some e));
}
after {x = x} (Write.role name e _) = record x { role = set_text x.role name (some e) }
after {x = x} (Write.subspace key info keys _) = record x {
  subspace = set x.subspace key (some info);
  subspaces = keys;
}
after {x = x} (Write.typed text _ _) = record x {
  types_at = set x.types_at (suc (or_no_version x.types)) (some text);
  types = some (suc (or_no_version x.types));
}
after {x = x} (Write.listed log space _) = record x { listed = set x.listed log (some space) }
after {x = x} (Write.created m _) = record x { metas = set_scope x.metas top (some m) }
after {x = x} (Write.settled s n) = record x {
  metas = set_scope x.metas s (some (merge n (meta_or (x.metas s))));
}

-- One write takes one view to the other.
pub record Step (env : Env) (x y : Seats) : Type 0 where
  pub made : Write env x
  pub leaves : y ≡ after made

pub data Reach (env : Env) : Seats → Seats → Type 0 where
  here : {x y : Seats} → x ≡ y → Reach env x y
  next : {x y : Seats} (z : Seats) → Step env x z → Reach env z y → Reach env x y

pub Reach-trans : {env : Env} {x y z : Seats} → Reach env x y → Reach env y z → Reach env x z
Reach-trans {env} {z = z} (here e) r = subst (λ (w : Seats). Reach env w z) (sym e) r
Reach-trans (next w s r) q = next w s (Reach-trans r q)

pub Reach-step : {env : Env} {x y : Seats} (w : Write env x) → y ≡ after w → Reach env x y
Reach-step {y = y} w e = next y (record { made = w; leaves = e }) (here refl)

-- A property that each write keeps is kept by any number of them.
pub Reach_induction :
    {env : Env} (P : Seats → Type 0)
    → ((x : Seats) (w : Write env x) → P x → P (after w))
    → {x y : Seats} → Reach env x y
    → P x
    → P y
Reach_induction P keep (here e) h = subst P e h
Reach_induction P keep {x = x} (next z s r) h =
    Reach_induction P keep r (subst P (sym s.leaves) (keep x s.made h))
