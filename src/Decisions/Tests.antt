-- ===== src/Decisions/Tests.antt =====
-- A decision log played: a space made by its owner, a member, a custom role, a removed record, a
-- removed device, a version of the types, a private sub-space with a key, and a revoked invite.
use hypergraph.Prelude.{
  ℕ, ◌≤◌, ◌≡◌, refl, true, false, Option, none, some, List, [], ◌∷◌, String, ◌==◌, if◌then◌else◌,
  arith, get, put, get_text, put_text,
}
use hypergraph.Types.{Named, Declared, Stored, stored_of, describe, Rule}
use hypergraph.Types.Declare.{declare, declarations_of}
use hypergraph.Types.Compatible.{check_compatible}
use hypergraph.Types.All.{declare_all, new_types, from_stored}
use hypergraph.Types.Text.{parse, print, parse-print}
use hypergraph.Roles
use hypergraph.Roles.{
  is_owner, has, app, permissions_of, can, grantable, may_assign, may_invite, may_remove,
}
use hypergraph.Decisions.Data.{
  Env, Device, Body, Invite, Redemption, Settings, space_init, member_add, role_define, moderate,
  invite_revoke, key_rotate, subspace_create, settings_set, device_remove, scoped, types_set,
  remove, ban,
}
use hypergraph.Decisions.View.{top, sub}
use hypergraph.Decisions.Apply.{Node, Ledger, owner_of, start}
use hypergraph.Decisions.Owner.History.{replay, empty_ledger, owner_forever}
use hypergraph.Decisions.Handlers.Members.{Context}
use hypergraph.Decisions.Handlers.Settings.{or_no_version}
use hypergraph.Decisions.Steps.Lasting.{
  removed_forever, gone_forever, types_forever, role_keeps, revoked_for_good, permissions_at,
}
use hypergraph.Decisions.Steps.Types.{types_grow}
use hypergraph.Decisions.Apply.{
  dispatch, decide_as, apply_one, details, list_decision, apply_if, apply_decoded, apply_node,
  apply_nodes, throws,
}
use hypergraph.Decisions.Chain.{
  chain_from, chain_of, infos, subspaces_of, below_from, below, banned_in, inherit, own, member_in,
  role_in, load, may_write, roles_below, writes_loop, writes_anywhere,
}
use hypergraph.Decisions.Cuts.{
  assign, record_cut, admit, lost_permissions, get_perm, put_perm, cut_perms, record_edit_cuts,
  scopes_below, zeros, zero_perms, drop_logs, drop_edits, drop_scopes, drop_all, drop_members,
  drop_below,
}
use hypergraph.Decisions.Handlers.Devices.{
  create, space_init as apply_space_init, writer_add as apply_writer_add, keys_of_device,
  forget_all, remove_all, remove_device, device_remove as apply_device_remove, list_all,
  logs_list as apply_logs_list,
}
use hypergraph.Decisions.Handlers.Invites.{
  verify_invite, verify_redemption, is_refused, given_role, let_in, let_in_table, let_into,
  let_into_if, let_into_all, redeem, redeem_if, invite_redeem as apply_invite_redeem, revoke,
  invite_revoke as apply_invite_revoke,
}
use hypergraph.Decisions.Handlers.Members.{
  member_add as apply_member_add, lose, remove_member, member_remove as apply_member_remove,
  takes_away, role_define as apply_role_define, add_kept_key, give_role, role_set as apply_role_set,
}
use hypergraph.Decisions.Handlers.Moderation.{
  ban_member, ban_stranger, apply_ban, apply_unban, mark, moderate_record, act, apply_moderate,
}
use hypergraph.Decisions.Handlers.Settings.{
  is_hex_key, valid_helpers, utf8_length, accept_types, valid_limit, limit_of, counted, merge,
  settings_set as apply_settings_set, types_set as apply_types_set,
  subspace_create as apply_subspace_create, key_rotate as apply_key_rotate,
}
use hypergraph.Decisions.Writers.{
  writers_of, add_key, forget, remove_from_base, drop_keys, nodes_of, make_settler, unmake_settler,
  resettle, settle,
}

program : Unit {0}
unfolding dispatch decide_as apply_one details list_decision apply_if apply_decoded apply_node
    apply_nodes throws chain_from chain_of infos subspaces_of below_from below banned_in inherit own
    member_in role_in load may_write roles_below writes_loop writes_anywhere assign record_cut admit
    lost_permissions get_perm put_perm cut_perms record_edit_cuts scopes_below zeros zero_perms
    drop_logs drop_edits drop_scopes drop_all drop_members drop_below create apply_space_init
    apply_writer_add keys_of_device forget_all remove_all remove_device apply_device_remove list_all
    apply_logs_list verify_invite verify_redemption is_refused given_role let_in let_in_table
    let_into let_into_if let_into_all redeem redeem_if apply_invite_redeem revoke
    apply_invite_revoke apply_member_add lose remove_member apply_member_remove takes_away
    apply_role_define add_kept_key give_role apply_role_set ban_member ban_stranger apply_ban
    apply_unban mark moderate_record act apply_moderate is_hex_key valid_helpers valid_limit
    limit_of counted merge apply_settings_set apply_types_set apply_subspace_create apply_key_rotate
    writers_of add_key forget remove_from_base drop_keys nodes_of make_settler unmake_settler
    resettle settle permissions_of utf8_length accept_types check_compatible describe declare
    declarations_of declare_all new_types from_stored parse print can grantable may_assign
    may_invite may_remove get put get_text put_text
program = tt

-- The owner is 10 with the device 11; the space's key, and its first writer's, is 1.
abbrev owners_device : Device
owners_device = record { identity = 10; device = 11 }

-- A proof of 100 is by the owner's device, one of 101 by the identity key itself.
abbrev proof_of : ℕ → Option Device
proof_of p =
    if p == 100
    then some owners_device
    else if p == 101
    then some (record { identity = 10; device = 10 })
    else none

abbrev friend_invite : Invite
friend_invite = record {
  body = record {
    space = 1;
    id = 70;
    role = Roles.member;
    uses = 1;
    expires = 0;
    subspaces = [];
    maker = 10;
  };
  proof = 100;
}

abbrev friend_redemption : Redemption
friend_redemption = record { invite = friend_invite; identity = 30; writer = 31; proof = 100 }

abbrev public_settings : Settings
public_settings = record {
  policy = none;
  write_limit = none;
  rules = none;
  history = none;
  helpers = none;
  is_public = some true;
}

-- The app's notes gain a size in its second version.
abbrev first : List (String × String)
first = ("text", "text") ∷ []

abbrev second : List (String × String)
second = ("text", "text") ∷ ("size", "uint") ∷ []

abbrev note : List (String × String) → Declared
note fields = record {
  fields = fields;
  links = [];
  one_per_member = false;
  target = none;
  editable = Rule.author;
  put = Rule.members;
  index = [];
}

abbrev stored_note : List (String × String) → Named Stored
stored_note fields = ("note", stored_of (note fields)) ∷ []

abbrev declared_text : List (String × String) → String
declared_text fields = print (stored_note fields)

-- The decisions by the numbers that encode them.
abbrev decision_of : ℕ → Option Body
decision_of n =
    if n == 1
    then some (space_init "forum" none false "auto" 1 100)
    else if n == 2
    then some (member_add 20)
    else if n == 3
    then some (role_define "editor" (app "edit" ∷ []))
    else if n == 4
    then some (moderate remove (record { bytes = 80; byte_length = 34 }) "spam" [] none)
    else if n == 5
    then some (device_remove 12 0 101)
    else if n == 6
    then some (settings_set public_settings)
    else if n == 7
    then some (types_set 1 (declared_text first))
    else if n == 8
    then some (subspace_create 50 "staff" true [])
    else if n == 9
    then some (scoped 50 90)
    else if n == 10
    then some (invite_revoke 70)
    else if n == 11
    then some (types_set 2 (declared_text second))
    else if n == 12
    then some (types_set 3 (declared_text first))
    else if n == 90
    then some (key_rotate 0 95)
    else if n == 91
    then some (moderate ban (record { bytes = 10; byte_length = 32 }) "coup" [] none)
    else if n == 92
    then some (moderate remove (record { bytes = 0; byte_length = 0 }) "" [] none)
    else none

abbrev env : Env
env = record {
  space = 1;
  verify = λ p signed. proof_of p;
  decode =
      λ n. elim (decision_of n) [ none ↦ none | some b ↦ some (record { stamp = n; body = b }) ];
  decode_redemption = λ n. if n == 71 then some friend_redemption else none;
  decode_invite = λ n. if n == 70 then some friend_invite else none;
  is_record_id = λ t. t.byte_length == 34;
  code = λ key value. value;
  parse = parse;
  print = print;
  has_host = true;
  removeable = λ calls key. true;
}

abbrev by_owner : ℕ → Node
by_owner n = record { value = n; key = 1 }

abbrev log : List Node
log =
    by_owner 1
    ∷ by_owner 2
    ∷ by_owner 3
    ∷ by_owner 4
    ∷ by_owner 5
    ∷ by_owner 6
    ∷ by_owner 7
    ∷ by_owner 8
    ∷ by_owner 9
    ∷ by_owner 10
    ∷ []

-- The owner's own log goes on with an attempt to ban the owner.
abbrev more : List Node
more = by_owner 91 ∷ by_owner 4 ∷ []

abbrev played : Ledger
played = replay env log

owner_is_owner : owner_of played.view ≡ some 10
unfolding program
owner_is_owner = refl

member_is_in : role_in played.view [] 20 ≡ some Roles.member
unfolding program
member_is_in = refl

-- A moderation of nothing stops the log.
stops : apply_nodes env (by_owner 92 ∷ by_owner 9 ∷ []) played ≡ played
unfolding program
stops = refl

second_types :
    or_no_version (replay env (by_owner 1 ∷ by_owner 7 ∷ by_owner 11 ∷ [])).view.types ≡ 2
unfolding program
second_types = refl

ten_rows : played.count ≡ some 10
unfolding program
ten_rows = refl

abbrev on : Ledger
on = apply_nodes env more played

owner_forever_example :
    (owner_of on.view ≡ some 10) × (is_owner (role_in on.view (50 ∷ []) 20) ≡ (20 == 10))
unfolding program
owner_forever_example = owner_forever env log more 10 20 (sub 50) (50 ∷ []) refl refl

removed_forever_example :
    on.view.moderated top 80 ≡ some (record { flagged = false; hidden = false; removed = true })
unfolding program
removed_forever_example =
    removed_forever env more played top 80
      (record { flagged = false; hidden = false; removed = true }) refl refl

gone_forever_example : on.view.gone 10 12 ≡ some (record { by = 10; stamp = 5 })
unfolding program
gone_forever_example = gone_forever env more played 10 12 (record { by = 10; stamp = 5 }) refl

types_forever_example :
    (on.view.types_at 1 ≡ played.view.types_at 1)
    × (or_no_version played.view.types ≤ or_no_version on.view.types)
unfolding program
types_forever_example = types_forever env more played 1 (omega arith)

role_keeps_example : has (app "edit") (permissions_at (on.view.role "editor")) ≡ true
unfolding program
role_keeps_example = role_keeps env more played "editor" (app "edit") refl refl

abbrev owners : Context
owners = record {
  chain = [];
  author = 10;
  role = some Roles.owner;
  table = [];
  stamp = 20;
  code = 7;
}

revoked_for_good_example : apply_invite_redeem env owners 71 (start on) ≡ start on
unfolding program
revoked_for_good_example =
    revoked_for_good env more played owners 71 friend_redemption (record { by = 10; stamp = 10 })
      refl refl

abbrev typed : List Node
typed = by_owner 1 ∷ by_owner 7 ∷ by_owner 11 ∷ by_owner 12 ∷ []

types_grow_example :
    (old : Named Declared) × (new : Named Declared) × ((replay env typed).view.types_at 1
      ≡ some (print (describe old)))
    × ((replay env typed).view.types_at 2 ≡ some (print (describe new)))
    × (check_compatible new (describe old) ≡ true)
unfolding program
types_grow_example =
    types_grow env parse-print typed empty_ledger 1 2 refl (omega arith) (omega arith) (omega arith)
