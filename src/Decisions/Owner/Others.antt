-- ===== src/Decisions/Owner/Others.antt =====
-- The other cases of applyOne in lib/decisions/apply.js keep the owner's seat: they write neither
-- members nor bans, and settings/set keeps the owner named.
use hypergraph.Prelude.{
  ℕ, suc, ◌≡◌, refl, Bool, true, not, ◌&&◌, ◌||◌, Option, some, List, [], ◌∷◌, String, arith, ◌==◌,
  str_eq, is_some, if◌then◌else◌, if_keeps, if_splits, Option-cases, inl, inr, ltb, take, keep, get,
}
use hypergraph.Roles.{Role, Permission, roles, decide, can, grantable}
use hypergraph.Decisions.Data.{Env, Invite, Settings, writer_claim, removal}
use hypergraph.Decisions.View.{top, Tx, set_listed}
use hypergraph.Decisions.Chain.{scope_of, may_write, writes_anywhere}
use hypergraph.Decisions.Handlers.Members.{
  Context, in_subspace, role_define, is_builtin_name, takes_away, unique, is_empty_permission,
}
use hypergraph.Decisions.Handlers.Invites.{revoke, invite_revoke, space_of, verify_invite}
use hypergraph.Decisions.Handlers.Devices.{
  space_init, writer_add, device_remove, list_all, logs_list, max_listed,
}
use hypergraph.Decisions.Handlers.Settings.{
  settings_set, counted, counts_for_nothing, merge, meta_or, types_set, or_no_version, max_types,
  utf8_length, accept_types, subspace_create, key_rotate, is_private_in, next_epoch, epochs_or,
  is_commit, is_truthy,
}
use hypergraph.Decisions.Seats.{seats}
use hypergraph.Decisions.Effects.{seats-remove_device, seats-settle_if}
use hypergraph.Decisions.Owner.{IsSeated, moved, reseat, owner_in, set_meta-IsSeated}

list_all-IsSeated :
    {o : ℕ} (logs : List (ℕ × ℕ)) (tx : Tx)
    → IsSeated (seats tx) o
    → IsSeated (seats (list_all logs tx)) o
unfolding list_all
list_all-IsSeated [] tx h = h
list_all-IsSeated {o} ((space, log) ∷ logs) tx h =
    let known = is_some (tx.view.listed log) in
    list_all-IsSeated logs (if known then tx else set_listed log (some space) tx)
      (if_keeps known (λ (t : Tx). IsSeated (seats t) o) h (λ _. reseat refl refl refl h))

-- The settings keep their owner through a change.
owner-merge :
    (c : Context) (d : Settings) (tx : Tx) {o : ℕ}
    → owner_in (seats tx) ≡ some o
    → (merge (counted c tx.view d) (meta_or (tx.view.metas top))).owner ≡ some o
unfolding merge
owner-merge c d tx h = ground arith

module _ (env : Env) (c : Context) (tx : Tx) {o : ℕ} (h : IsSeated (seats tx) o) where
  abbrev Seated : Tx → Type 0
  Seated t = IsSeated (seats t) o

  pub role_define-IsSeated :
      (name : String) (list : List Permission) → Seated (role_define c name list tx)
  unfolding role_define
  role_define-IsSeated name list =
      let permissions = unique [] (keep (λ p. not (is_empty_permission p)) list) in
      if_keeps
        (in_subspace c || not (can c.role roles c.table) || str_eq name "" || is_builtin_name name)
        Seated h
        λ _.
          if_keeps
            (takes_away (tx.view.role name) permissions
              || not (grantable c.role permissions c.table))
            Seated h (λ _. reseat refl refl refl h)

  revoke-IsSeated : (inv : Invite) → Seated (revoke env c inv tx)
  unfolding revoke
  revoke-IsSeated inv =
      if_keeps
        (not (inv.space == space_of env (scope_of c.chain))
          || not (verify_invite env inv)
          || (not (can c.role decide c.table) && not (c.author == inv.maker))
          || is_some (tx.view.revoked (scope_of c.chain) inv.id))
        Seated h (λ _. reseat refl refl refl h)

  pub invite_revoke-IsSeated : (bytes : ℕ) → Seated (invite_revoke env c bytes tx)
  unfolding invite_revoke
  invite_revoke-IsSeated bytes = elim (Option-cases (env.decode_invite bytes)) [
    | inl malformed ↦ rw (malformed, invite_revoke) h
    | inr (inv, decoded) ↦ rw (decoded, invite_revoke) (revoke-IsSeated inv)
  ]

  pub writer_add-IsSeated : (key proof : ℕ) → Seated (writer_add env c key proof tx)
  unfolding writer_add
  writer_add-IsSeated key proof = if_keeps (in_subspace c) Seated h λ _.
      elim (Option-cases (env.verify proof (writer_claim key env.space))) [
        | inl unsigned ↦ rw (unsigned, writer_add) h
        | inr (info, signed) ↦
            let (writes, table) = writes_anywhere tx.view info.identity c.table in
            rw (signed, writer_add)
              (if_keeps (info.device == info.identity || not writes) Seated h
                (λ _. moved (seats-settle_if env info.identity key info.device table tx) h))
      ]

  pub device_remove-IsSeated :
      (device cut proof : ℕ) → Seated (device_remove env c device cut proof tx)
  unfolding device_remove
  device_remove-IsSeated device cut proof = if_keeps (in_subspace c) Seated h λ _.
      elim (Option-cases (env.verify proof (removal env.space device cut))) [
        | inl unsigned ↦ rw (unsigned, device_remove) h
        | inr (info, signed) ↦
            rw (signed, device_remove)
              (if_keeps
                (not (info.device == info.identity) || is_some (tx.view.gone info.identity device))
                Seated h
                (λ _.
                  moved (seats-remove_device env c info.identity device tx)
                    (reseat refl refl refl h)))
      ]

  pub logs_list-IsSeated : (logs : List (ℕ × ℕ)) → Seated (logs_list c logs tx)
  unfolding logs_list
  logs_list-IsSeated logs =
      if_keeps (in_subspace c || not (may_write c.role c.table)) Seated h
        (λ _. list_all-IsSeated (take max_listed logs) tx h)

  pub settings_set-IsSeated : (d : Settings) → Seated (settings_set c d tx)
  unfolding settings_set
  settings_set-IsSeated d =
      let n = counted c tx.view d in
      let s = scope_of c.chain in
      if_keeps (not (can c.role decide c.table) || counts_for_nothing n) Seated h λ _.
        set_meta-IsSeated h s (merge n (meta_or (tx.view.metas s)))
          (λ e. rw e (owner-merge c d tx h.named))

  pub types_set-IsSeated :
      (version : ℕ) (types : String) → Seated (types_set env c version types tx)
  unfolding types_set
  types_set-IsSeated version types =
      let current = or_no_version tx.view.types in
      if_keeps
        (in_subspace c
          || not (can c.role decide c.table)
          || ltb max_types (utf8_length types)
          || not (version == suc current))
        Seated h
        λ _. elim (Option-cases (accept_types env current tx.view.types_at types)) [
          | inl refused ↦ rw (refused, types_set) h
          | inr (text, accepted) ↦ rw (accepted, types_set) (reseat refl refl refl h)
        ]

  pub subspace_create-IsSeated :
      (key : ℕ) (name : String) (is_private : Bool) (write_roles : List Role)
      → Seated (subspace_create env c key name is_private write_roles tx)
  unfolding subspace_create
  subspace_create-IsSeated key name is_private write_roles =
      if_keeps
        (not (can c.role decide c.table) || key == env.space || is_some (tx.view.subspace key))
        Seated h (λ _. reseat refl refl refl h)

  pub key_rotate-IsSeated : (epoch commit : ℕ) → Seated (key_rotate c epoch commit tx)
  unfolding key_rotate
  key_rotate-IsSeated epoch commit =
      let s = scope_of c.chain in
      let old = tx.view.epochs s in
      let e = epochs_or old in
      if_keeps (not (may_write c.role c.table) || not (is_private_in tx.view s)) Seated h λ _.
        if_splits (epoch == next_epoch old) Seated (λ _. reseat refl refl refl h)
          λ _.
            if_splits
              (ltb epoch (next_epoch old)
                && not (is_commit (get e.commits epoch) commit)
                && not (is_truthy (get e.others commit)))
              Seated (λ _. reseat refl refl refl h) (λ _. h)

  -- A space has one owner: a second space/init counts for nothing.
  pub space_init-IsSeated :
      (writer stamp : ℕ) (name : String) (parent : Option ℕ) (is_private : Bool) (policy : String)
      (version proof : ℕ)
      → Seated (space_init env writer stamp name parent is_private policy version proof tx)
  unfolding space_init
  space_init-IsSeated writer stamp name parent is_private policy version proof =
      let there : is_some (tx.view.metas top) ≡ true = ground (arith, h.named) in
      rw (there, space_init) h
