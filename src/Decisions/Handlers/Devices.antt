-- ===== src/Decisions/Handlers/Devices.antt =====
-- Devices and their writer keys in applyOne of lib/decisions/apply.js: space/init, writer/add,
-- device/remove and logs/list.
use hypergraph.Prelude.{
  ℕ, Bool, true, false, not, ◌||◌, Option, none, some, List, [], ◌∷◌, String, ◌==◌, if◌then◌else◌,
  is_some, take,
}
use hypergraph.Roles.{Role, Table}
use hypergraph.Roles
use hypergraph.Decisions.Data.{Env, Device, writer_claim, removal}
use hypergraph.Decisions.View.{
  top, Meta, Member, Writer, View, Tx, set_meta, set_member, set_writer, set_writers, set_gone,
  set_listed,
}
use hypergraph.Decisions.Chain.{may_write, writes_anywhere}
use hypergraph.Decisions.Writers.{writers_of, add_key, forget, remove_from_base, settle}
use hypergraph.Decisions.Handlers.Members.{Context, in_subspace}

abbrev pub first_meta : String → Option ℕ → Bool → String → ℕ → ℕ → ℕ → Meta
first_meta name parent is_private policy version stamp owner = record {
  name = some name;
  owner = some owner;
  policy = some policy;
  is_private = is_private;
  version = some version;
  parent = parent;
  stamp = some stamp;
  rules = none;
  history = none;
  helpers = none;
  write_limit = none;
  is_public = false;
}

abbrev pub first_member : ℕ → ℕ → Member
first_member stamp owner = record {
  role = Roles.owner;
  by = owner;
  stamp = stamp;
  writer = none;
  writer_device = none;
}

-- The first entries of the view: the space's settings, its owner and the owner's device.
unfoldable pub create : String → Option ℕ → Bool → String → ℕ → ℕ → ℕ → Device → Tx → Tx
create name parent is_private policy version stamp writer info tx =
    set_writers info.identity (some (writer ∷ [])) (
      set_writer writer
        (some (record { identity = info.identity; device = some info.device; indexer = true }))
        (set_member top info.identity (some (first_member stamp info.identity)) (
          set_meta top (some (first_meta name parent is_private policy version stamp info.identity))
            tx)))

unfoldable pub space_init : Env → ℕ → ℕ → String → Option ℕ → Bool → String → ℕ → ℕ → Tx → Tx
unfolding create
space_init env writer stamp name parent is_private policy version proof tx =
    if is_some (tx.view.metas top) || not (writer == env.space)
    then tx
    else elim (env.verify proof (writer_claim writer env.space)) [
      | none ↦ tx
      | some info ↦ create name parent is_private policy version stamp writer info tx
    ]

abbrev pub settle_if : Env → ℕ → Table → Bool × Tx → Tx
settle_if env id table (added, tx) = if added then settle env id table tx else tx

unfoldable pub writer_add : Env → Context → ℕ → ℕ → Tx → Tx
writer_add env c key proof tx =
    if in_subspace c then tx else elim (env.verify proof (writer_claim key env.space)) [
      | none ↦ tx
      | some info ↦
          let (writes, table) = writes_anywhere tx.view info.identity c.table in
          if info.device == info.identity || not writes
          then tx
          else settle_if env info.identity table
              (add_key env info.identity key (some info.device) tx)
    ]

-- The keys of a device among `keys`.
abbrev pub is_of_device : ℕ → Option Writer → Bool
is_of_device device none = false
is_of_device device (some w) = elim w.device [ none ↦ false | some d ↦ d == device ]

unfoldable pub keys_of_device : View → ℕ → List ℕ → List ℕ
keys_of_device view device [] = []
keys_of_device view device (key ∷ keys) =
    let rest = keys_of_device view device keys in
    if is_of_device device (view.writer key) then key ∷ rest else rest

unfoldable pub forget_all : ℕ → List ℕ → Tx → Tx
forget_all id [] tx = tx
forget_all id (key ∷ keys) tx = forget_all id keys (forget id key tx)

unfoldable pub remove_all : Env → List ℕ → Tx → Tx
remove_all env [] tx = tx
remove_all env (key ∷ keys) tx = remove_all env keys (remove_from_base env key tx)

-- after its checks
unfoldable pub remove_device : Env → Context → ℕ → ℕ → Tx → Tx
unfolding keys_of_device forget_all remove_all
remove_device env c id device tx =
    let marked = set_gone id device (some (record { by = c.author; stamp = c.stamp })) tx in
    let dropped = keys_of_device marked.view device (writers_of marked.view id) in
    remove_all env dropped (settle env id c.table (forget_all id dropped marked))

unfoldable pub device_remove : Env → Context → ℕ → ℕ → ℕ → Tx → Tx
unfolding remove_device
device_remove env c device cut proof tx =
    if in_subspace c then tx else elim (env.verify proof (removal env.space device cut)) [
      | none ↦ tx
      | some info ↦
          if not (info.device == info.identity) || is_some (tx.view.gone info.identity device)
          then tx
          else remove_device env c info.identity device tx
    ]

abbrev pub max_listed : ℕ
max_listed = 1000

-- `logs`: [{ space, log }]
unfoldable pub list_all : List (ℕ × ℕ) → Tx → Tx
list_all [] tx = tx
list_all ((space, log) ∷ logs) tx =
    list_all logs (if is_some (tx.view.listed log) then tx else set_listed log (some space) tx)

unfoldable pub logs_list : Context → List (ℕ × ℕ) → Tx → Tx
unfolding list_all
logs_list c logs tx =
    if in_subspace c || not (may_write c.role c.table)
    then tx
    else list_all (take max_listed logs) tx
