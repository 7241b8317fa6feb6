-- ===== src/Decisions/Cuts.antt =====
-- What a member's logs count up to: recordCut, admit, lostPermissions, recordEditCuts, dropAll and
-- dropBelow of lib/decisions/apply.js.
use hypergraph.Prelude.{
  ℕ, not, ◌&&◌, ◌||◌, Option, none, some, List, [], ◌∷◌, ◌++◌, map, if◌then◌else◌, is_some, keep,
  put, keys,
}
use hypergraph.Roles.{
  Role, Permission, Table, post, can, has, eq_permission, permissions_of, or_empty,
}
use hypergraph.Decisions.Data.{CutEntries}
use hypergraph.Decisions.View.{
  Scope, sub, eq_scope, Cut, Tx, set_member, set_cut, set_editcut, set_admit,
}
use hypergraph.Decisions.Chain.{SubInfo, subspaces_of, below}

-- The entries as an object, on top of one: a later entry of a log replaces an earlier one.
unfoldable pub assign : List (ℕ × ℕ) → CutEntries → List (ℕ × ℕ)
assign logs [] = logs
assign logs ((log, length) ∷ entries) = assign (put logs log length) entries

abbrev pub cut_logs : Option Cut → List (ℕ × ℕ)
cut_logs none = []
cut_logs (some cut) = cut.logs

unfoldable pub record_cut : Scope → ℕ → CutEntries → ℕ → Tx → Tx
unfolding assign
record_cut s id entries stamp tx =
    let logs = assign (assign [] entries) (cut_logs (tx.view.cut s id)) in
    set_admit s id none (set_cut s id (some (record { logs = logs; stamp = stamp })) tx)

unfoldable pub admit : Scope → ℕ → Option Role → Table → ℕ → Tx → Tx
admit s id role table code tx =
    if not (can role post table) || not (is_some (tx.view.cut s id)) || is_some (tx.view.admit s id)
    then tx
    else set_admit s id (some code) tx

unfoldable pub lost_permissions : Option Role → Option Role → Table → List Permission
lost_permissions before after table =
    keep (λ p. not (eq_permission p post) && not (has p (or_empty (permissions_of after table))))
      (or_empty (permissions_of before table))

-- An object by permission: perms[p], and perms[p] = v.
abbrev pub Perms : Type 0
Perms = List (Permission × List (ℕ × ℕ))

unfoldable pub get_perm : Perms → Permission → Option (List (ℕ × ℕ))
get_perm [] p = none
get_perm ((q, logs) ∷ perms) p = if eq_permission q p then some logs else get_perm perms p

unfoldable pub put_perm : Perms → Permission → List (ℕ × ℕ) → Perms
put_perm [] p logs = (p, logs) ∷ []
put_perm ((q, old) ∷ perms) p logs =
    if eq_permission q p then (q, logs) ∷ perms else (q, old) ∷ put_perm perms p logs

abbrev pub logs_or_empty : Option (List (ℕ × ℕ)) → List (ℕ × ℕ)
logs_or_empty none = []
logs_or_empty (some logs) = logs

unfoldable pub cut_perms : Perms → List Permission → CutEntries → Perms
unfolding get_perm put_perm assign
cut_perms perms [] entries = perms
cut_perms perms (p ∷ lost) entries =
    cut_perms (put_perm perms p (assign (assign [] entries) (logs_or_empty (get_perm perms p))))
      lost entries

abbrev pub perms_or_empty : Option Perms → Perms
perms_or_empty none = []
perms_or_empty (some perms) = perms

unfoldable pub record_edit_cuts : Scope → ℕ → List Permission → CutEntries → Tx → Tx
unfolding cut_perms
record_edit_cuts s id [] entries tx = tx
record_edit_cuts s id (p ∷ lost) entries tx =
    set_editcut s id (some (cut_perms (perms_or_empty (tx.view.editcut s id)) (p ∷ lost) entries))
      tx

-- The scopes that a removal or a ban reaches: the sub-spaces below `s`.
unfoldable pub scopes_below : List SubInfo → List SubInfo → Scope → List Scope
scopes_below subs [] s = []
scopes_below subs (t ∷ others) s =
    let rest = scopes_below subs others s in if below subs t.key s then sub t.key ∷ rest else rest

-- Every log of these counts up to 0.
unfoldable pub zeros : List (ℕ × ℕ) → List ℕ → List (ℕ × ℕ)
zeros logs [] = logs
zeros logs (log ∷ rest) = zeros (put logs log 0) rest

unfoldable pub zero_perms : Perms → Perms
unfolding zeros
zero_perms [] = []
zero_perms ((p, logs) ∷ perms) = (p, zeros [] (keys logs)) ∷ zero_perms perms

unfoldable pub drop_logs : Scope → Scope → ℕ → List ℕ → ℕ → Tx → Tx
unfolding zeros
drop_logs scope s id named stamp tx =
    let logs = zeros [] (named ++ keys (cut_logs (tx.view.cut s id))) in
    if eq_scope s scope || is_some (tx.view.cut s id)
    then set_cut s id (some (record { logs = logs; stamp = stamp })) tx
    else tx

unfoldable pub drop_edits : Scope → ℕ → Tx → Tx
unfolding zero_perms
drop_edits s id tx = elim (tx.view.editcut s id) [
  | none ↦ tx
  | some perms ↦ set_editcut s id (some (zero_perms perms)) tx
]

unfoldable pub drop_scopes : List Scope → Scope → ℕ → List ℕ → ℕ → Tx → Tx
drop_scopes [] scope id named stamp tx = tx
drop_scopes (s ∷ scopes) scope id named stamp tx =
    drop_scopes scopes scope id named stamp (drop_edits s id (drop_logs scope s id named stamp tx))

unfoldable pub drop_all : Scope → ℕ → CutEntries → ℕ → Tx → Tx
unfolding scopes_below drop_scopes drop_logs drop_edits
drop_all scope id entries stamp tx =
    let subs = subspaces_of tx.view in
    set_admit scope id none (
      drop_scopes (scope ∷ scopes_below subs subs scope) scope id (map (λ e. e.0) entries) stamp tx)

-- The own entries in every sub-space below go too.
unfoldable pub drop_members : List Scope → ℕ → Tx → Tx
drop_members [] id tx = tx
drop_members (s ∷ scopes) id tx =
    drop_members scopes id (if is_some (tx.view.member s id) then set_member s id none tx else tx)

unfoldable pub drop_below : Scope → ℕ → Tx → Tx
unfolding scopes_below drop_members
drop_below s id tx =
    let subs = subspaces_of tx.view in drop_members (scopes_below subs subs s) id tx
