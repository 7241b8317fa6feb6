-- ===== src/Decisions/Seats.antt =====
-- The part of the view that cuts and writer keys leave alone: recordCut, admit, recordEditCuts,
-- dropAll, addKey and settle of lib/decisions/apply.js write other keys only.
use hypergraph.Prelude.{
  ℕ, ◌≡◌, refl, ◌∙◌, Bool, Option, none, some, List, [], ◌∷◌, String, arith, map, not, if_same,
}
use hypergraph.Roles.{Role, Permission, Table, decide, can}
use hypergraph.Decisions.Data.{Env, CutEntries}
use hypergraph.Decisions.View.{
  Scope, Member, Writer, Ban, Moderated, Stamped, RoleEntry, Subspace, Epochs, Meta, View, Tx,
}
use hypergraph.Decisions.Chain.{subspaces_of, writes_anywhere, role_in}
use hypergraph.Decisions.Writers.{
  writers_of, nodes_of, add_key, forget, remove_from_base, drop_keys, resettle, settle,
}
use hypergraph.Decisions.Cuts.{
  record_cut, admit, record_edit_cuts, drop_logs, drop_edits, drop_scopes, drop_all, scopes_below,
}

pub record Seats : Type 0 where
  pub metas : Scope → Option Meta
  pub member : Scope → ℕ → Option Member
  pub banned : Scope → ℕ → Option Ban
  pub moderated : Scope → ℕ → Option Moderated
  pub redeemed : Scope → ℕ → ℕ → Option Stamped
  pub uses : Scope → ℕ → Option ℕ
  pub revoked : Scope → ℕ → Option Stamped
  pub epochs : Scope → Option Epochs
  pub gone : ℕ → ℕ → Option Stamped
  pub role : String → Option RoleEntry
  pub subspace : ℕ → Option Subspace
  pub subspaces : Option (List ℕ)
  pub types : Option ℕ
  pub types_at : ℕ → Option String
  pub listed : ℕ → Option ℕ

abbrev pub seats_of : View → Seats
seats_of v = record {
  metas = v.metas;
  member = v.member;
  banned = v.banned;
  moderated = v.moderated;
  redeemed = v.redeemed;
  uses = v.uses;
  revoked = v.revoked;
  epochs = v.epochs;
  gone = v.gone;
  role = v.role;
  subspace = v.subspace;
  subspaces = v.subspaces;
  types = v.types;
  types_at = v.types_at;
  listed = v.listed;
}

abbrev pub seats : Tx → Seats
seats tx = seats_of tx.view

pub seats-record_cut :
    (s : Scope) (id : ℕ) (entries : CutEntries) (stamp : ℕ) (tx : Tx)
    → seats (record_cut s id entries stamp tx) ≡ seats tx
unfolding record_cut
seats-record_cut s id entries stamp tx = refl

pub seats-admit :
    (s : Scope) (id : ℕ) (role : Option Role) (table : Table) (code : ℕ) (tx : Tx)
    → seats (admit s id role table code tx) ≡ seats tx
unfolding admit
seats-admit s id role table code tx = ground arith

pub seats-record_edit_cuts :
    (s : Scope) (id : ℕ) (lost : List Permission) (entries : CutEntries) (tx : Tx)
    → seats (record_edit_cuts s id lost entries tx) ≡ seats tx
unfolding record_edit_cuts
seats-record_edit_cuts s id [] entries tx = refl
seats-record_edit_cuts s id (p ∷ lost) entries tx = refl

seats-drop_logs :
    (scope s : Scope) (id : ℕ) (named : List ℕ) (stamp : ℕ) (tx : Tx)
    → seats (drop_logs scope s id named stamp tx) ≡ seats tx
unfolding drop_logs
seats-drop_logs scope s id named stamp tx = ground arith

seats-drop_edits : (s : Scope) (id : ℕ) (tx : Tx) → seats (drop_edits s id tx) ≡ seats tx
unfolding drop_edits
seats-drop_edits s id tx = ground arith

seats-drop_scopes :
    (scopes : List Scope) (scope : Scope) (id : ℕ) (named : List ℕ) (stamp : ℕ) (tx : Tx)
    → seats (drop_scopes scopes scope id named stamp tx) ≡ seats tx
unfolding drop_scopes
seats-drop_scopes [] scope id named stamp tx = refl
seats-drop_scopes (s ∷ scopes) scope id named stamp tx =
    let one = drop_logs scope s id named stamp tx in
    seats-drop_scopes scopes scope id named stamp (drop_edits s id one)
    ∙ seats-drop_edits s id one
    ∙ seats-drop_logs scope s id named stamp tx

pub seats-drop_all :
    (s : Scope) (id : ℕ) (entries : CutEntries) (stamp : ℕ) (tx : Tx)
    → seats (drop_all s id entries stamp tx) ≡ seats tx
unfolding drop_all
seats-drop_all s id entries stamp tx =
    let subs = subspaces_of tx.view in
    seats-drop_scopes (s ∷ scopes_below subs subs s) s id (map (λ e. e.0) entries) stamp tx

pub seats-add_key :
    (env : Env) (id key : ℕ) (device : Option ℕ) (tx : Tx)
    → seats (add_key env id key device tx).1 ≡ seats tx
unfolding add_key
seats-add_key env id key none tx = ground arith
seats-add_key env id key (some device) tx = ground arith

pub seats-forget : (id key : ℕ) (tx : Tx) → seats (forget id key tx) ≡ seats tx
unfolding forget
seats-forget id key tx = refl

pub seats-remove_from_base :
    (env : Env) (key : ℕ) (tx : Tx) → seats (remove_from_base env key tx) ≡ seats tx
unfolding remove_from_base
seats-remove_from_base env key tx = ground arith

seats-drop_keys :
    (env : Env) (id : ℕ) (keys : List ℕ) (tx : Tx) → seats (drop_keys env id keys tx) ≡ seats tx
unfolding drop_keys
seats-drop_keys env id [] tx = refl
seats-drop_keys env id (key ∷ keys) tx =
    seats-drop_keys env id keys (remove_from_base env key (forget id key tx))
    ∙ seats-remove_from_base env key (forget id key tx)
    ∙ seats-forget id key tx

seats-resettle :
    (env : Env) (decides : Bool) (nodes : List (ℕ × Writer)) (tx : Tx)
    → seats (resettle env decides nodes tx) ≡ seats tx
unfolding resettle
seats-resettle env decides [] tx = ground arith
seats-resettle env decides (node ∷ nodes) tx = ground arith

pub seats-settle :
    (env : Env) (id : ℕ) (table : Table) (tx : Tx) → seats (settle env id table tx) ≡ seats tx
unfolding settle
seats-settle env id table tx =
    let keys = writers_of tx.view id in
    let (writes, loaded) = writes_anywhere tx.view id table in
    if_same (not writes) seats (seats-drop_keys env id keys tx)
      (seats-resettle env (can (role_in tx.view [] id) decide loaded) (nodes_of tx.view keys) tx)

pub ruleset same_seats = (
  seats-record_cut, seats-admit, seats-record_edit_cuts, seats-drop_all, seats-add_key,
  seats-forget, seats-remove_from_base, seats-settle,
)
