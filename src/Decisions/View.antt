-- ===== src/Decisions/View.antt =====
-- The view of lib/decisions/apply.js: a Hyperbee whose keys are a prefix and ids. Each prefix is a
-- field here, a function that gives the value at the ids or none. A prefix that a sub-space has of
-- its own (`sub:<key>:…`) takes the scope first.
use hypergraph.Prelude.{
  ℕ, suc, Bool, true, false, ◌&&◌, Option, List, String, str_eq, ◌==◌, if◌then◌else◌,
}
use hypergraph.Roles.{Role, Permission}
use hypergraph.Decisions.Data.{WriteLimit, Call}

-- The space itself, or one of its sub-spaces by its key (null or a key in the source).
pub data Scope : Type 0 where
  top : Scope
  sub : ℕ → Scope

abbrev pub eq_scope : Scope → Scope → Bool
eq_scope top top = true
eq_scope (sub a) (sub b) = a == b
eq_scope _ _ = false

pub record Member : Type 0 where
  pub role : Role
  pub by : ℕ
  pub stamp : ℕ
  pub writer : Option ℕ
  pub writer_device : Option ℕ

pub record Writer : Type 0 where
  pub identity : ℕ
  pub device : Option ℕ
  pub indexer : Bool

pub record Ban : Type 0 where
  pub by : ℕ
  pub reason : String
  pub stamp : ℕ
  pub drops_all : Bool

pub record Cut : Type 0 where
  pub logs : List (ℕ × ℕ)
  pub stamp : ℕ

pub record Moderated : Type 0 where
  pub flagged : Bool
  pub hidden : Bool
  pub removed : Bool

pub record Stamped : Type 0 where
  pub by : ℕ
  pub stamp : ℕ

pub record RoleEntry : Type 0 where
  pub permissions : List Permission
  pub by : ℕ
  pub stamp : ℕ

pub record Subspace : Type 0 where
  pub name : String
  pub is_private : Bool
  pub write_roles : List Role
  pub parent : Scope
  pub by : ℕ
  pub stamp : ℕ

-- commits: epoch to commitment; others: commitment to epoch. No entry yet: `current` is -1.
pub record Epochs : Type 0 where
  pub current : ℕ
  pub commits : List (ℕ × ℕ)
  pub others : List (ℕ × ℕ)

-- A sub-space's own entry has only what `settings/set` put there.
pub record Meta : Type 0 where
  pub name : Option String
  pub owner : Option ℕ
  pub policy : Option String
  pub is_private : Bool
  pub version : Option ℕ
  pub parent : Option ℕ
  pub stamp : Option ℕ
  pub rules : Option (List String)
  pub history : Option String
  pub helpers : Option (List String)
  pub write_limit : Option WriteLimit
  pub is_public : Bool

pub record View : Type 0 where
  pub metas : Scope → Option Meta
  pub member : Scope → ℕ → Option Member
  pub banned : Scope → ℕ → Option Ban
  pub cut : Scope → ℕ → Option Cut
  pub editcut : Scope → ℕ → Option (List (Permission × List (ℕ × ℕ)))
  pub admit : Scope → ℕ → Option ℕ
  pub moderated : Scope → ℕ → Option Moderated
  pub redeemed : Scope → ℕ → ℕ → Option Stamped
  pub uses : Scope → ℕ → Option ℕ
  pub revoked : Scope → ℕ → Option Stamped
  pub epochs : Scope → Option Epochs
  pub writer : ℕ → Option Writer
  pub writers : ℕ → Option (List ℕ)
  pub gone : ℕ → ℕ → Option Stamped
  pub role : String → Option RoleEntry
  pub subspace : ℕ → Option Subspace
  pub subspaces : Option (List ℕ)
  pub types : Option ℕ
  pub types_at : ℕ → Option String
  pub listed : ℕ → Option ℕ

-- A function changed at one key.
module _ {ℓ} {V : Type ℓ} where
  abbrev pub set : (ℕ → V) → ℕ → V → ℕ → V
  set f k v = λ j. if k == j then v else f j

  abbrev pub set_text : (String → V) → String → V → String → V
  set_text f k v = λ j. if str_eq k j then v else f j

  abbrev pub set_scope : (Scope → V) → Scope → V → Scope → V
  set_scope f s v = λ t. if eq_scope s t then v else f t

  abbrev pub set_in : (Scope → ℕ → V) → Scope → ℕ → V → Scope → ℕ → V
  set_in f s k v = λ t j. if eq_scope s t && k == j then v else f t j

-- The view while a decision is applied (countWrites), with the calls made to Autobase.
pub record Tx : Type 0 where
  pub view : View
  pub writes : ℕ
  pub calls : List Call

-- One put or del.
abbrev pub write : View → Tx → Tx
write view tx = record tx { view = view; writes = suc tx.writes }

module _ (s : Scope) (id : ℕ) where
  abbrev pub set_member : Option Member → Tx → Tx
  set_member v tx = write (record (tx.view) { member = set_in tx.view.member s id v }) tx

  abbrev pub set_banned : Option Ban → Tx → Tx
  set_banned v tx = write (record (tx.view) { banned = set_in tx.view.banned s id v }) tx

  abbrev pub set_cut : Option Cut → Tx → Tx
  set_cut v tx = write (record (tx.view) { cut = set_in tx.view.cut s id v }) tx

  abbrev pub set_editcut : Option (List (Permission × List (ℕ × ℕ))) → Tx → Tx
  set_editcut v tx = write (record (tx.view) { editcut = set_in tx.view.editcut s id v }) tx

  abbrev pub set_admit : Option ℕ → Tx → Tx
  set_admit v tx = write (record (tx.view) { admit = set_in tx.view.admit s id v }) tx

  abbrev pub set_moderated : Option Moderated → Tx → Tx
  set_moderated v tx = write (record (tx.view) { moderated = set_in tx.view.moderated s id v }) tx

  abbrev pub set_revoked : Option Stamped → Tx → Tx
  set_revoked v tx = write (record (tx.view) { revoked = set_in tx.view.revoked s id v }) tx

  abbrev pub set_uses : Option ℕ → Tx → Tx
  set_uses v tx = write (record (tx.view) { uses = set_in tx.view.uses s id v }) tx

abbrev pub set_redeemed : Scope → ℕ → ℕ → Option Stamped → Tx → Tx
set_redeemed s invite id v tx =
    write
      (record (tx.view) {
        redeemed = set_in tx.view.redeemed s invite (set (tx.view.redeemed s invite) id v);
      })
      tx

abbrev pub set_meta : Scope → Option Meta → Tx → Tx
set_meta s v tx = write (record (tx.view) { metas = set_scope tx.view.metas s v }) tx

abbrev pub set_epochs : Scope → Option Epochs → Tx → Tx
set_epochs s v tx = write (record (tx.view) { epochs = set_scope tx.view.epochs s v }) tx

abbrev pub set_writer : ℕ → Option Writer → Tx → Tx
set_writer key v tx = write (record (tx.view) { writer = set tx.view.writer key v }) tx

abbrev pub set_writers : ℕ → Option (List ℕ) → Tx → Tx
set_writers id v tx = write (record (tx.view) { writers = set tx.view.writers id v }) tx

abbrev pub set_gone : ℕ → ℕ → Option Stamped → Tx → Tx
set_gone id device v tx =
    write (record (tx.view) { gone = set tx.view.gone id (set (tx.view.gone id) device v) }) tx

abbrev pub set_role : String → Option RoleEntry → Tx → Tx
set_role name v tx = write (record (tx.view) { role = set_text tx.view.role name v }) tx

abbrev pub set_subspace : ℕ → Option Subspace → Tx → Tx
set_subspace key v tx = write (record (tx.view) { subspace = set tx.view.subspace key v }) tx

abbrev pub set_subspaces : Option (List ℕ) → Tx → Tx
set_subspaces v tx = write (record (tx.view) { subspaces = v }) tx

abbrev pub set_listed : ℕ → Option ℕ → Tx → Tx
set_listed log v tx = write (record (tx.view) { listed = set tx.view.listed log v }) tx
