-- ===== src/Decisions/Effects.antt =====
-- What the parts of the cases of applyOne (lib/decisions/apply.js) that follow their checks leave
-- in the view, cuts and writer keys aside.
use hypergraph.Prelude.{
  ℕ, ◌≡◌, refl, ◌∙◌, Bool, true, not, ◌&&◌, Option, none, some, List, [], ◌∷◌, is_some, if_same,
  String,
}
use hypergraph.Roles.{Role, member, Table, post, can}
use hypergraph.Decisions.Data.{Env, CutEntries, InviteBody}
use hypergraph.Decisions.View.{Scope, Member, Ban, Tx, set_member, set_gone}
use hypergraph.Decisions.Chain.{scope_of, role_of_member, role_in, load, may_write}
use hypergraph.Decisions.Writers.{add_key, forget, writers_of, remove_from_base}
use hypergraph.Decisions.Cuts.{admit, lost_permissions, drop_below}
use hypergraph.Decisions.Handlers.Members.{
  Context, lose, remove_member, add_kept_key, give_role, writer_of, writer_device_of,
}
use hypergraph.Decisions.Handlers.Moderation.{
  is_all, drop_if, has_entries, ban_member, ban_stranger,
}
use hypergraph.Decisions.Handlers.Invites.{given_role, let_in, is_below}
use hypergraph.Decisions.Handlers.Devices.{
  forget_all, remove_all, remove_device, keys_of_device, settle_if,
}
use hypergraph.Decisions.Seats.{
  seats, seats-record_cut, seats-admit, seats-record_edit_cuts, seats-drop_all, seats-add_key,
  seats-forget, seats-remove_from_base, seats-settle,
}

seats-lose :
    (env : Env) (c : Context) (id : ℕ) (cut : CutEntries) (before after : Option Role)
    (table : Table) (tx : Tx)
    → seats (lose env c id cut before after table tx) ≡ seats tx
unfolding lose
seats-lose env c id cut before after table tx =
    seats-record_edit_cuts (scope_of c.chain) id (lost_permissions before after table) cut _
    ∙ if_same (can before post table && not (can after post table)) seats
        (seats-record_cut (scope_of c.chain) id cut c.stamp tx) refl

-- The entry that member/add leaves.
abbrev pub added : Context → Member
added c = record {
  role = member;
  by = c.author;
  stamp = c.stamp;
  writer = none;
  writer_device = none;
}

pub seats-remove_member :
    (env : Env) (c : Context) (id : ℕ) (cut : CutEntries) (role : Option Role) (table : Table)
    (tx : Tx)
    → seats (remove_member env c id cut role table tx)
      ≡ seats (drop_below (scope_of c.chain) id (set_member (scope_of c.chain) id none tx))
unfolding remove_member
seats-remove_member env c id cut role table tx =
    let removed = drop_below (scope_of c.chain) id (set_member (scope_of c.chain) id none tx) in
    let after = role_in removed.view c.chain id in
    let loaded = load removed.view after table in
    seats-settle env id loaded (lose env c id cut role after loaded removed)
    ∙ seats-lose env c id cut role after loaded removed

seats-add_kept_key :
    (env : Env) (id : ℕ) (role : Role) (key device : Option ℕ) (table : Table) (tx : Tx)
    → seats (add_kept_key env id role key device table tx) ≡ seats tx
unfolding add_kept_key
seats-add_kept_key env id role none device table tx = refl
seats-add_kept_key env id role (some key) device table tx =
    if_same (may_write (some role) table) seats (seats-add_key env id key device tx) refl

-- The entry that a role given leaves.
abbrev pub given : Context → Role → Option Member → Member
given c role old = record {
  role = role;
  by = c.author;
  stamp = c.stamp;
  writer = writer_of old;
  writer_device = writer_device_of old;
}

pub seats-give_role :
    (env : Env) (c : Context) (id : ℕ) (role : Role) (cut : CutEntries) (old : Option Member)
    (table : Table) (tx : Tx)
    → seats (give_role env c id role cut old table tx)
      ≡ seats (set_member (scope_of c.chain) id (some (given c role old)) tx)
unfolding give_role
seats-give_role env c id role cut old table tx =
    let s = scope_of c.chain in
    let put = set_member s id (some (given c role old)) tx in
    let admitted = admit s id (some role) table c.code put in
    seats-settle env id table _
    ∙ seats-add_kept_key env id role (writer_of old) (writer_device_of old) table _
    ∙ if_same (is_some old) seats
        (seats-lose env c id cut (role_of_member old) (some role) table admitted) refl
    ∙ seats-admit s id (some role) table c.code put

-- The entry that a ban leaves.
abbrev pub banned_by : Context → String → Option String → Ban
banned_by c reason drop = record {
  by = c.author;
  reason = reason;
  stamp = c.stamp;
  drops_all = is_all drop;
}

pub seats-drop_if :
    (all : Bool) (s : Scope) (id : ℕ) (cut : CutEntries) (stamp : ℕ) (tx : Tx)
    → seats (drop_if all s id cut stamp tx) ≡ seats tx
seats-drop_if all s id cut stamp tx = if_same all seats (seats-drop_all s id cut stamp tx) refl

pub seats-ban_member :
    (env : Env) (c : Context) (id : ℕ) (cut : CutEntries) (all : Bool) (role : Option Role)
    (table : Table) (tx : Tx)
    → seats (ban_member env c id cut all role table tx)
      ≡ seats (set_member (scope_of c.chain) id none tx)
unfolding ban_member
seats-ban_member env c id cut all role table tx =
    let s = scope_of c.chain in
    let out = set_member s id none tx in
    seats-settle env id table _
    ∙ seats-drop_if all s id cut c.stamp _
    ∙ seats-record_edit_cuts s id (lost_permissions role none table) cut _
    ∙ if_same (can role post table) seats (seats-record_cut s id cut c.stamp out) refl

pub seats-ban_stranger :
    (env : Env) (c : Context) (id : ℕ) (cut : CutEntries) (all : Bool) (table : Table) (tx : Tx)
    → seats (ban_stranger env c id cut all table tx) ≡ seats tx
unfolding ban_stranger
seats-ban_stranger env c id cut all table tx =
    let s = scope_of c.chain in
    seats-settle env id table _
    ∙ seats-drop_if all s id cut c.stamp _
    ∙ if_same (has_entries cut) seats (seats-record_cut s id cut c.stamp tx) refl

-- The entry that an invite leaves.
abbrev pub invited : Context → InviteBody → Option ℕ → Option ℕ → Member
invited c inv writer device = record {
  role = inv.role;
  by = inv.maker;
  stamp = c.stamp;
  writer = writer;
  writer_device = device;
}

pub seats-let_in :
    (env : Env) (c : Context) (inv : InviteBody) (id writer device : ℕ) (old : Option Member)
    (table : Table) (tx : Tx)
    → is_below old inv.role ≡ true
    → seats (let_in env c inv id writer device old table tx)
      ≡ seats
          (set_member (scope_of c.chain) id (some (invited c inv (some writer) (some device))) tx)
unfolding let_in given_role
seats-let_in env c inv id writer device old table tx below =
    let s = scope_of c.chain in
    let put = set_member s id (some (invited c inv (some writer) (some device))) tx in
    rw below (
      seats-settle env id table _
      ∙ if_same (may_write (some inv.role) table) seats
          (seats-add_key env id writer (some device) _) refl
      ∙ seats-admit s id (some inv.role) table c.code put)

seats-forget_all : (id : ℕ) (keys : List ℕ) (tx : Tx) → seats (forget_all id keys tx) ≡ seats tx
unfolding forget_all
seats-forget_all id [] tx = refl
seats-forget_all id (key ∷ keys) tx =
    seats-forget_all id keys (forget id key tx) ∙ seats-forget id key tx

seats-remove_all : (env : Env) (keys : List ℕ) (tx : Tx) → seats (remove_all env keys tx) ≡ seats tx
unfolding remove_all
seats-remove_all env [] tx = refl
seats-remove_all env (key ∷ keys) tx =
    seats-remove_all env keys (remove_from_base env key tx) ∙ seats-remove_from_base env key tx

pub seats-remove_device :
    (env : Env) (c : Context) (id device : ℕ) (tx : Tx)
    → seats (remove_device env c id device tx)
      ≡ seats (set_gone id device (some (record { by = c.author; stamp = c.stamp })) tx)
unfolding remove_device
seats-remove_device env c id device tx =
    let marked = set_gone id device (some (record { by = c.author; stamp = c.stamp })) tx in
    let dropped = keys_of_device marked.view device (writers_of marked.view id) in
    seats-remove_all env dropped _
    ∙ seats-settle env id c.table _
    ∙ seats-forget_all id dropped marked

pub seats-settle_if :
    (env : Env) (id key device : ℕ) (table : Table) (tx : Tx)
    → seats (settle_if env id table (add_key env id key (some device) tx)) ≡ seats tx
seats-settle_if env id key device table tx =
    let (added, next) = add_key env id key (some device) tx in
    if_same added seats (seats-settle env id table next) refl
    ∙ seats-add_key env id key (some device) tx
