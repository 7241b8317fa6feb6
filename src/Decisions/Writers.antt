-- ===== src/Decisions/Writers.antt =====
-- Writer keys in lib/decisions/apply.js: writersOf, addKey, forget, removeFromBase, settle.
use hypergraph.Prelude.{
  ℕ, Bool, true, false, not, ◌&&◌, ◌||◌, Option, none, some, List, [], ◌∷◌, ◌++◌, ◌==◌,
  if◌then◌else◌, is_some, keep, find,
}
use hypergraph.Roles.{Table, decide, can}
use hypergraph.Decisions.Data.{Env, Call, add_writer, remove_writer}
use hypergraph.Decisions.View.{Writer, View, Tx, set_writer, set_writers}
use hypergraph.Decisions.Chain.{writes_anywhere, role_in}

unfoldable pub writers_of : View → ℕ → List ℕ
writers_of view id = elim (view.writers id) [ none ↦ [] | some keys ↦ keys ]

-- A call of Autobase, if there is one.
abbrev pub tell : Env → Call → Tx → Tx
tell env call tx = if env.has_host then record tx { calls = tx.calls ++ call ∷ [] } else tx

abbrev pub is_gone : View → ℕ → Option ℕ → Bool
is_gone view id none = false
is_gone view id (some device) = is_some (view.gone id device)

-- Whether the key was added, and the view after.
unfoldable pub add_key : Env → ℕ → ℕ → Option ℕ → Tx → Bool × Tx
unfolding writers_of
add_key env id key device tx =
    if is_some (tx.view.writer key) || is_gone tx.view id device then (false, tx) else (
      true,
      tell env (add_writer key false) (
          set_writers id (some (writers_of tx.view id ++ key ∷ [])) (
            set_writer key (some (record { identity = id; device = device; indexer = false })) tx)),
    )

abbrev pub non_empty : List ℕ → Option (List ℕ)
non_empty [] = none
non_empty (k ∷ ks) = some (k ∷ ks)

unfoldable pub forget : ℕ → ℕ → Tx → Tx
unfolding writers_of
forget id key tx =
    set_writers id (non_empty (keep (λ k. not (k == key)) (writers_of tx.view id)))
      (set_writer key none tx)

unfoldable pub remove_from_base : Env → ℕ → Tx → Tx
remove_from_base env key tx =
    if env.has_host && env.removeable tx.calls key then tell env (remove_writer key) tx else tx

-- The keys of somebody who may write decisions nowhere any more.
unfoldable pub drop_keys : Env → ℕ → List ℕ → Tx → Tx
unfolding forget remove_from_base
drop_keys env id [] tx = tx
drop_keys env id (key ∷ keys) tx =
    drop_keys env id keys (remove_from_base env key (forget id key tx))

-- Each key with its entry; the source reads the entry of every key listed.
unfoldable pub nodes_of : View → List ℕ → List (ℕ × Writer)
nodes_of view [] = []
nodes_of view (key ∷ keys) = elim (view.writer key) [
  | none ↦ nodes_of view keys
  | some w ↦ (key, w) ∷ nodes_of view keys
]

abbrev pub set_indexer : Bool → ℕ × Writer → Tx → Tx
set_indexer indexer (key, w) tx = set_writer key (some (record w { indexer = indexer })) tx

abbrev pub settler_of : List (ℕ × Writer) → Option (ℕ × Writer)
settler_of = find (λ node. node.1.indexer)

-- Nobody settles the order for them yet: the first key does.
unfoldable pub make_settler : Env → List (ℕ × Writer) → Tx → Tx
make_settler env [] tx = tx
make_settler env (node ∷ nodes) tx = tell env (add_writer node.0 true) (set_indexer true node tx)

unfoldable pub unmake_settler : Env → ℕ × Writer → Tx → Tx
unmake_settler env node tx =
    let next = set_indexer false node tx in
    if env.has_host && env.removeable next.calls node.0
    then tell env (add_writer node.0 false) next
    else next

unfoldable pub resettle : Env → Bool → List (ℕ × Writer) → Tx → Tx
unfolding make_settler unmake_settler
resettle env decides nodes tx =
    if decides
    then elim (settler_of nodes) [ none ↦ make_settler env nodes tx | some node ↦ tx ]
    else elim (settler_of nodes) [ none ↦ tx | some node ↦ unmake_settler env node tx ]

unfoldable pub settle : Env → ℕ → Table → Tx → Tx
unfolding drop_keys resettle nodes_of writers_of
settle env id table tx =
    let keys = writers_of tx.view id in
    let (writes, loaded) = writes_anywhere tx.view id table in
    if not writes
    then drop_keys env id keys tx
    else resettle env (can (role_in tx.view [] id) decide loaded) (nodes_of tx.view keys) tx
