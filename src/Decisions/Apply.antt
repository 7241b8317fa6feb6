-- ===== src/Decisions/Apply.antt =====
-- applyOne, applyNodes, listDecision and details of lib/decisions/apply.js. The decision list
-- (`~log:` and `~count`) stands beside the view, whose other keys decisions write; a row's number
-- is kept as a number, the source pads it to twelve digits.
use hypergraph.Prelude.{
  ℕ, suc, Bool, true, false, not, ◌&&◌, Option, none, some, List, [], ◌∷◌, String, if◌then◌else◌,
  ltb, ◌==◌,
}
use hypergraph.Roles.{Role, Permission}
use hypergraph.Decisions.Data.{
  Env, Call, Redemption, Invite, Action, Settings, Body, space_init, member_add, member_remove,
  role_define, role_set, moderate, invite_revoke, invite_redeem, key_rotate, subspace_create,
  settings_set, writer_add, device_remove, scoped, logs_list, types_set,
}
use hypergraph.Decisions.View.{top, sub, Writer, View, Tx, set}
use hypergraph.Decisions.Chain.{chain_of, role_in, load}
use hypergraph.Decisions.Handlers.Members.{Context}
use hypergraph.Decisions.Handlers.Members
use hypergraph.Decisions.Handlers.Moderation
use hypergraph.Decisions.Handlers.Invites
use hypergraph.Decisions.Handlers.Devices
use hypergraph.Decisions.Handlers.Settings

-- The `switch` of applyOne.
unfoldable pub dispatch : Env → Context → Body → Tx → Tx
dispatch env c (member_add id) tx = Members.member_add c id tx
dispatch env c (member_remove id cut) tx = Members.member_remove env c id cut tx
dispatch env c (role_define name perms) tx = Members.role_define c name perms tx
dispatch env c (role_set id role cut) tx = Members.role_set env c id role cut tx
dispatch env c (moderate action target reason cut drop) tx =
    Moderation.apply_moderate env c action target reason cut drop tx
dispatch env c (invite_redeem bytes) tx = Invites.invite_redeem env c bytes tx
dispatch env c (invite_revoke bytes) tx = Invites.invite_revoke env c bytes tx
dispatch env c (writer_add key proof) tx = Devices.writer_add env c key proof tx
dispatch env c (settings_set d) tx = Settings.settings_set c d tx
dispatch env c (types_set version types) tx = Settings.types_set env c version types tx
dispatch env c (logs_list logs) tx = Devices.logs_list c logs tx
dispatch env c (subspace_create key name is_private write_roles) tx =
    Settings.subspace_create env c key name is_private write_roles tx
dispatch env c (key_rotate epoch commit) tx = Settings.key_rotate c epoch commit tx
dispatch env c (device_remove device cut proof) tx = Devices.device_remove env c device cut proof tx
dispatch env c body tx = tx

-- What applyOne reads before its `switch`.
abbrev pub context : View → List ℕ → ℕ → ℕ → Writer → Context
context view chain stamp code w =
    let role = role_in view chain w.identity in
    record {
      chain = chain;
      author = w.identity;
      role = role;
      table = load view role [];
      stamp = stamp;
      code = code;
    }

-- A decision by a key that speaks for somebody.
unfoldable pub decide_as : Env → List ℕ → ℕ → ℕ → Body → Option Writer → Tx → Tx
decide_as env chain stamp code body none tx = tx
decide_as env chain stamp code body (some w) tx =
    dispatch env (context tx.view chain stamp code w) body tx

unfoldable pub apply_one : Env → List ℕ → ℕ → ℕ → ℕ → Body → Tx → Tx
unfolding decide_as
apply_one env chain writer stamp code (space_init name parent is_private policy version proof) tx =
    Devices.space_init env writer stamp name parent is_private policy version proof tx
apply_one env chain writer stamp code body tx =
    decide_as env chain stamp code body (tx.view.writer writer) tx

-- SCOPED: what may be decided inside a sub-space.
abbrev pub is_scoped : Body → Bool
is_scoped (member_remove id cut) = true
is_scoped (role_set id role cut) = true
is_scoped (moderate action target reason cut drop) = true
is_scoped (invite_redeem bytes) = true
is_scoped (invite_revoke bytes) = true
is_scoped (key_rotate epoch commit) = true
is_scoped (settings_set d) = true
is_scoped (subspace_create key name is_private write_roles) = true
is_scoped _ = false

-- What a decision says, readable.
pub data Details : Type 0 where
  named : String → String → Details
  about : ℕ → Details
  role_defined : String → List Permission → Details
  role_given : ℕ → Role → Details
  moderated : Action → ℕ → String → Option String → Details
  redeemed : ℕ → Role → ℕ → ℕ → Details
  revoked : ℕ → Role → ℕ → Details
  settings : Settings → Details
  types_version : ℕ → Details
  writer_key : ℕ → Details
  device_removed : ℕ → Details
  subspace : ℕ → String → Bool → Details
  epoch : ℕ → Details
  nothing : Details

redeemed_details : Option Redemption → Details
redeemed_details none = nothing
redeemed_details (some r) = redeemed r.identity r.invite.role r.invite.id r.invite.maker

revoked_details : Option Invite → Details
revoked_details none = nothing
revoked_details (some inv) = revoked inv.id inv.role inv.maker

unfoldable pub details : Env → Body → Details
unfolding redeemed_details revoked_details
details env (space_init name parent is_private policy version proof) = named name policy
details env (member_add id) = about id
details env (member_remove id cut) = about id
details env (role_define name perms) = role_defined name perms
details env (role_set id role cut) = role_given id role
details env (moderate action target reason cut drop) = moderated action target.bytes reason drop
details env (invite_redeem bytes) = redeemed_details (env.decode_redemption bytes)
details env (invite_revoke bytes) = revoked_details (env.decode_invite bytes)
details env (settings_set d) = settings d
details env (types_set version types) = types_version version
details env (writer_add key proof) = writer_key key
details env (device_remove device cut proof) = device_removed device
details env (subspace_create key name is_private write_roles) = subspace key name is_private
details env (key_rotate e commit) = epoch e
details env _ = nothing

-- A row of the decision list.
pub record Entry : Type 0 where
  pub body : Body
  pub at : ℕ
  pub writer : ℕ
  pub by : Option ℕ
  pub device : Option ℕ
  pub counted : Bool
  pub details : Details
  pub space : Option ℕ

-- The whole view: what decisions write, the rows of the list by number, how many there are
-- (none before the first), and the calls made to Autobase.
pub record Ledger : Type 0 where
  pub view : View
  pub rows : ℕ → Option Entry
  pub count : Option ℕ
  pub calls : List Call

abbrev pub or_zero : Option ℕ → ℕ
or_zero none = 0
or_zero (some n) = n

abbrev pub identity_of : Option Writer → Option ℕ
identity_of none = none
identity_of (some w) = some w.identity

abbrev pub device_of : Option Writer → Option ℕ
device_of none = none
device_of (some w) = w.device

abbrev pub owner_of : View → Option ℕ
owner_of view = elim (view.metas top) [ none ↦ none | some m ↦ m.owner ]

abbrev pub is_init : Body → Bool
is_init (space_init name parent is_private policy version proof) = true
is_init _ = false

-- listDecision: one more row. A first decision that counted is by the owner that it names.
unfoldable pub list_decision :
    Env → Body → ℕ → ℕ → Option Writer → Bool → Option ℕ → Ledger → Ledger
unfolding details
list_decision env body stamp writer before counted space l =
    let seq = or_zero l.count in
    let first = is_init body && counted in
    let entry : Entry = record {
      body = body;
      at = stamp;
      writer = writer;
      by = if first then owner_of l.view else identity_of before;
      device = if first then device_of (l.view.writer writer) else device_of before;
      counted = counted;
      details = details env body;
      space = space;
    } in
    record l { rows = set l.rows seq (some entry); count = some (suc seq) }

-- { value, from: { key } }
pub record Node : Type 0 where
  pub value : ℕ
  pub key : ℕ

abbrev pub is_listing : Body → Bool
is_listing (logs_list logs) = true
is_listing _ = false

abbrev pub start : Ledger → Tx
start l = record { view = l.view; writes = 0; calls = l.calls }

-- The decision applied, unless it is ignored or its sub-space isn't one.
unfoldable pub apply_if : Env → Bool → Option (List ℕ) → ℕ → ℕ → ℕ → Body → Tx → Tx
apply_if env ignored none writer stamp code body tx = tx
apply_if env ignored (some chain) writer stamp code body tx =
    if ignored then tx else apply_one env chain writer stamp code body tx

-- A decision that may not be made inside a sub-space, made inside one.
abbrev pub is_ignored : Option ℕ → Body → Bool
is_ignored none body = false
is_ignored (some space) body = not (is_scoped body)

abbrev pub chain_for : View → Option ℕ → Option (List ℕ)
chain_for view none = some []
chain_for view (some space) = chain_of view (sub space)

-- A decision decoded: about the space, or about the sub-space `space`.
unfoldable pub apply_decoded : Env → Node → ℕ → Body → Option ℕ → Ledger → Ledger
unfolding apply_if
apply_decoded env node stamp body space l =
    let ignored = is_ignored space body in
    let chain = chain_for l.view space in
    let tx =
      apply_if env ignored chain node.key stamp (env.code node.key node.value) body (start l) in
    let next = record l { view = tx.view; calls = tx.calls } in
    if is_listing body
    then next
    else list_decision env body stamp node.key (l.view.writer node.key) (ltb 0 tx.writes) space next

abbrev pub unscoped : Env → Node → ℕ → Body → Ledger → Ledger
unscoped env node stamp (scoped space bytes) l = elim (env.decode bytes) [
  | none ↦ l
  | some d ↦ apply_decoded env node d.stamp d.body (some space) l
]
unscoped env node stamp body l = apply_decoded env node stamp body none l

unfoldable pub apply_node : Env → Node → Ledger → Ledger
unfolding apply_decoded
apply_node env node l = elim (env.decode node.value) [
  | none ↦ l
  | some d ↦ unscoped env node d.stamp d.body l
]

-- c.buffer reads an empty target as null, of which details takes the hex: it throws, whoever decided
-- and in whichever space, if a ban or an unban did not throw before.
abbrev pub has_no_target : Body → Bool
has_no_target (moderate action target reason cut drop) = target.byte_length == 0
has_no_target _ = false

abbrev pub throws_unscoped : Env → Body → Bool
throws_unscoped env (scoped space bytes) = elim (env.decode bytes) [
  | none ↦ false
  | some d ↦ has_no_target d.body
]
throws_unscoped env body = has_no_target body

unfoldable pub throws : Env → Node → Bool
throws env node = elim (env.decode node.value) [
  | none ↦ false
  | some d ↦ throws_unscoped env d.body
]

-- Where a decision makes it throw, nothing of it or of those after it is applied.
unfoldable pub apply_nodes : Env → List Node → Ledger → Ledger
unfolding throws
apply_nodes env [] l = l
apply_nodes env (node ∷ nodes) l =
    let rest = apply_nodes env nodes (apply_node env node l) in if throws env node then l else rest
