-- ===== src/Decisions/Owner.antt =====
-- The owner's seat in the view of lib/decisions/apply.js: what it is to hold it, and which writes
-- keep it.
pub mod Steps
pub mod Invites
pub mod Others
pub mod Log
pub mod History
use hypergraph.Prelude.{
  ℕ, ◌≡◌, refl, sym, ap, subst, Bool, true, false, not, ◌&&◌, ◌||◌, Option, none, some, List, [],
  ◌∷◌, arith, ◌==◌, ==_iff, inl, inr, zero, suc, ◌++◌, Bool-cases, Option-cases, if◌then◌else◌,
  is_some, all, any,
}
use hypergraph.Roles.{Role, Table, eq_role, is_owner, is_admin}
use hypergraph.Roles
use hypergraph.Decisions.View.{
  Scope, top, sub, eq_scope, Member, Ban, Meta, Subspace, View, Tx, set_in, set_scope,
}
use hypergraph.Decisions.Chain.{
  banned_in, inherit, own, member_in, role_of_member, role_in, chain_from, chain_of,
}
use hypergraph.Decisions.Seats.{Seats, seats_of, seats}

abbrev pub owner_in : Seats → Option ℕ
owner_in s = elim (s.metas top) [ none ↦ none | some m ↦ m.owner ]

-- `o` is the owner: the settings name them, they hold the role and nobody else does, no sub-space
-- gives them another role, and they are banned nowhere.
pub record IsSeated (s : Seats) (o : ℕ) : Type 0 where
  pub named : owner_in s ≡ some o
  pub holds : is_owner (role_of_member (s.member top o)) ≡ true
  pub only : (t : Scope) (id : ℕ) → is_owner (role_of_member (s.member t id)) ≡ true → id ≡ o
  pub away : (k : ℕ) → s.member (sub k) o ≡ none
  pub unbanned : (t : Scope) → s.banned t o ≡ none

pub moved : {s t : Seats} {o : ℕ} → s ≡ t → IsSeated t o → IsSeated s o
moved {s} {t} {o} e h = subst (λ x. IsSeated x o) (sym e) h

-- The seat rests on three parts of the view.
pub reseat :
    {s t : Seats} {o : ℕ}
    → s.metas ≡ t.metas
    → s.member ≡ t.member
    → s.banned ≡ t.banned
    → IsSeated t o
    → IsSeated s o
reseat metas member banned h = record {
  named = rw metas h.named;
  holds = rw member h.holds;
  only = rw member h.only;
  away = rw member h.away;
  unbanned = rw banned h.unbanned;
}

-- Is every sub-space of a chain one of the space's?
abbrev pub knows : View → List ℕ → Bool
knows view = all (λ s. is_some (view.subspace s))

module _ (v : View) {o : ℕ} (h : IsSeated (seats_of v) o) where
  any_banned : (chain : List ℕ) → any (λ s. is_some (v.banned (sub s) o)) chain ≡ false
  any_banned [] = refl
  any_banned (s ∷ chain) = ground (arith, h.unbanned (sub s), any_banned chain)

  own_owner :
      (chain : List ℕ) → knows v chain ≡ true → is_owner (role_of_member (own v chain o)) ≡ true
  unfolding own inherit
  own_owner [] k = h.holds
  own_owner (s ∷ chain) k = ground (arith, h.away s, own_owner chain)

  -- The owner's role is owner in the space and in each of its sub-spaces.
  pub role_in_owner : (chain : List ℕ) → knows v chain ≡ true → is_owner (role_in v chain o) ≡ true
  unfolding role_in member_in banned_in
  role_in_owner chain k = ground (arith, any_banned chain, h.unbanned top, own_owner chain k)

-- Somebody whose role is not owner is not the owner.
pub ne_owner :
    (v : View) {o : ℕ} (chain : List ℕ) (id : ℕ)
    → IsSeated (seats_of v) o
    → knows v chain ≡ true
    → is_owner (role_in v chain id) ≡ false
    → (id == o) ≡ false
ne_owner v {o} chain id h k e = elim (Bool-cases (id == o)) [
  | inl same ↦
      let e' : is_owner (role_in v chain o) ≡ false = rw ((==_iff id o).0 same) at e in
      cc (e', role_in_owner v h chain k)
  | inr other ↦ other
]

abbrev pub plain : Option Member → Bool
plain m = not (is_owner (role_of_member m))

module _ {s : Seats} {o : ℕ} (h : IsSeated s o) (t : Scope) (id : ℕ) (ne : (id == o) ≡ false) where
  pub set_member-IsSeated :
      (m : Option Member)
      → plain m ≡ true
      → IsSeated (record s { member = set_in s.member t id m }) o
  set_member-IsSeated m p = record {
    named = h.named;
    holds = ground (arith, h.holds);
    only = λ u j e. ground (arith, h.only u j);
    away = λ k. ground (arith, h.away k);
    unbanned = h.unbanned;
  }

  pub set_banned-IsSeated :
      (b : Option Ban) → IsSeated (record s { banned = set_in s.banned t id b }) o
  set_banned-IsSeated b = record {
    named = h.named;
    holds = h.holds;
    only = h.only;
    away = h.away;
    unbanned = λ u. ground (arith, h.unbanned u);
  }

-- A ban may be lifted, whoever it is of.
pub lift_ban-IsSeated :
    {s : Seats} {o : ℕ} (h : IsSeated s o) (t : Scope) (id : ℕ)
    → IsSeated (record s { banned = set_in s.banned t id none }) o
lift_ban-IsSeated h t id = record {
  named = h.named;
  holds = h.holds;
  only = h.only;
  away = h.away;
  unbanned = λ u. ground (arith, h.unbanned u);
}

-- New settings that name the same owner.
pub set_meta-IsSeated :
    {s : Seats} {o : ℕ} (h : IsSeated s o) (t : Scope) (m : Meta)
    → (t ≡ top → m.owner ≡ some o)
    → IsSeated (record s { metas = set_scope s.metas t (some m) }) o
set_meta-IsSeated h top m e = record {
  named = e refl;
  holds = h.holds;
  only = h.only;
  away = h.away;
  unbanned = h.unbanned;
}
set_meta-IsSeated h (sub k) m e = record {
  named = h.named;
  holds = h.holds;
  only = h.only;
  away = h.away;
  unbanned = h.unbanned;
}

knows-append :
    (v : View) (s : ℕ) (chain : List ℕ)
    → knows v chain ≡ true
    → is_some (v.subspace s) ≡ true
    → knows v (chain ++ s ∷ []) ≡ true
knows-append v s [] k e = ground arith
knows-append v s (t ∷ chain) k e = ground (arith, knows-append v s chain)

chain_from-knows :
    (fuel : ℕ) (v : View) (s : Scope) (chain result : List ℕ)
    → knows v chain ≡ true
    → chain_from fuel v s chain ≡ some result
    → knows v result ≡ true
unfolding chain_from
chain_from-knows fuel v top chain result k e = ground arith
chain_from-knows zero v (sub s) chain result k e = cc
chain_from-knows (suc fuel) v (sub s) chain result k e = elim (Option-cases (v.subspace s)) [
  | inl none_here ↦ ground arith
  | inr (info, found) ↦
      ground (
        arith,
        knows-append v s chain,
        chain_from-knows fuel v info.parent (chain ++ s ∷ []) result,
      )
]

pub chain_of-knows :
    (v : View) (s : Scope) (chain : List ℕ) → chain_of v s ≡ some chain → knows v chain ≡ true
unfolding chain_of
chain_of-knows v s chain e = chain_from-knows _ v s [] chain refl e
