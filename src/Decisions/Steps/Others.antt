-- ===== src/Decisions/Steps/Others.antt =====
-- The other cases of applyOne in lib/decisions/apply.js make a sequence of the guarded writes.
use hypergraph.Prelude.{
  ℕ, suc, ◌≡◌, refl, sym, Bool, false, not, ◌&&◌, ◌||◌, Option, none, some, List, [], ◌∷◌, ◌++◌,
  String, arith, ◌==◌, ==_iff, is_some, if◌then◌else◌, if_keeps, if_splits, Option-cases, inl, inr,
  ltb, take, get,
}
use hypergraph.Roles.{Role, decide, can}
use hypergraph.Decisions.Data.{Env, Invite, Settings, writer_claim, removal}
use hypergraph.Decisions.View.{top, Tx, set_listed}
use hypergraph.Decisions.Chain.{scope_of, listed_subspaces, may_write, writes_anywhere}
use hypergraph.Decisions.Handlers.Members.{Context, in_subspace}
use hypergraph.Decisions.Handlers.Invites.{revoke, invite_revoke, space_of, verify_invite}
use hypergraph.Decisions.Handlers.Devices.{
  space_init, create, first_meta, first_member, writer_add, device_remove, list_all, logs_list,
  max_listed,
}
use hypergraph.Decisions.Handlers.Settings.{
  settings_set, counted, counts_for_nothing, types_set, or_no_version, max_types, utf8_length,
  accept_types, unique_roles, subspace_create, key_rotate, is_private_in, next_epoch, epochs_or,
  is_commit, is_truthy,
}
use hypergraph.Decisions.Seats.{seats}
use hypergraph.Decisions.Effects.{seats-remove_device, seats-settle_if}
use hypergraph.Decisions.Steps.{Write, Reach, Reach-trans, Reach-step}

is_some-false {ℓ} : {A : Type ℓ} (o : Option A) → is_some o ≡ false → o ≡ none
is_some-false none e = refl
is_some-false (some a) e = cc

list_all-Reach :
    {env : Env} (logs : List (ℕ × ℕ)) (tx : Tx) → Reach env (seats tx) (seats (list_all logs tx))
unfolding list_all
list_all-Reach {env} [] tx = Reach.here refl
list_all-Reach {env} ((space, log) ∷ logs) tx =
    let known = is_some (tx.view.listed log) in
    Reach-trans
      (if_keeps known (λ (t : Tx). Reach env (seats tx) (seats t)) (Reach.here refl)
        (λ e. Reach-step (Write.listed log space (is_some-false (tx.view.listed log) e)) refl))
      (list_all-Reach logs (if known then tx else set_listed log (some space) tx))

module _ (env : Env) (c : Context) (tx : Tx) where
  abbrev To : Tx → Type 0
  To t = Reach env (seats tx) (seats t)

  revoke-Reach : (inv : Invite) → To (revoke env c inv tx)
  unfolding revoke
  revoke-Reach inv =
      if_keeps
        (not (inv.space == space_of env (scope_of c.chain))
          || not (verify_invite env inv)
          || (not (can c.role decide c.table) && not (c.author == inv.maker))
          || is_some (tx.view.revoked (scope_of c.chain) inv.id))
        To (Reach.here refl)
        λ e.
          Reach-step
            (Write.revoked (scope_of c.chain) inv.id (record { by = c.author; stamp = c.stamp })
              (is_some-false (tx.view.revoked (scope_of c.chain) inv.id) (ground arith)))
            refl

  pub invite_revoke-Reach : (bytes : ℕ) → To (invite_revoke env c bytes tx)
  unfolding invite_revoke
  invite_revoke-Reach bytes = elim (Option-cases (env.decode_invite bytes)) [
    | inl malformed ↦ rw (malformed, invite_revoke) (Reach.here refl)
    | inr (inv, decoded) ↦ rw (decoded, invite_revoke) (revoke-Reach inv)
  ]

  pub writer_add-Reach : (key proof : ℕ) → To (writer_add env c key proof tx)
  unfolding writer_add
  writer_add-Reach key proof = if_keeps (in_subspace c) To (Reach.here refl) λ _.
      elim (Option-cases (env.verify proof (writer_claim key env.space))) [
        | inl unsigned ↦ rw (unsigned, writer_add) (Reach.here refl)
        | inr (info, signed) ↦
            let (writes, table) = writes_anywhere tx.view info.identity c.table in
            rw (signed, writer_add)
              (if_keeps (info.device == info.identity || not writes) To (Reach.here refl) (λ _.
                Reach.here (sym (seats-settle_if env info.identity key info.device table tx))))
      ]

  pub device_remove-Reach : (device cut proof : ℕ) → To (device_remove env c device cut proof tx)
  unfolding device_remove
  device_remove-Reach device cut proof = if_keeps (in_subspace c) To (Reach.here refl) λ _.
      elim (Option-cases (env.verify proof (removal env.space device cut))) [
        | inl unsigned ↦ rw (unsigned, device_remove) (Reach.here refl)
        | inr (info, signed) ↦
            rw (signed, device_remove)
              (if_keeps
                (not (info.device == info.identity) || is_some (tx.view.gone info.identity device))
                To (Reach.here refl)
                λ e.
                  Reach-step
                    (Write.gone info.identity device (record { by = c.author; stamp = c.stamp })
                      (is_some-false (tx.view.gone info.identity device) (ground arith)))
                    (seats-remove_device env c info.identity device tx))
      ]

  pub logs_list-Reach : (logs : List (ℕ × ℕ)) → To (logs_list c logs tx)
  unfolding logs_list
  logs_list-Reach logs =
      if_keeps (in_subspace c || not (may_write c.role c.table)) To (Reach.here refl)
        (λ _. list_all-Reach (take max_listed logs) tx)

  pub settings_set-Reach : (d : Settings) → To (settings_set c d tx)
  unfolding settings_set
  settings_set-Reach d =
      let n = counted c tx.view d in
      let s = scope_of c.chain in
      if_keeps (not (can c.role decide c.table) || counts_for_nothing n) To (Reach.here refl)
        (λ _. Reach-step (Write.settled s n) refl)

  pub types_set-Reach : (version : ℕ) (types : String) → To (types_set env c version types tx)
  unfolding types_set
  types_set-Reach version types =
      let current = or_no_version tx.view.types in
      if_keeps
        (in_subspace c
          || not (can c.role decide c.table)
          || ltb max_types (utf8_length types)
          || not (version == suc current))
        To (Reach.here refl)
        λ e. elim (Option-cases (accept_types env current tx.view.types_at types)) [
          | inl refused ↦ rw (refused, types_set) (Reach.here refl)
          | inr (text, accepted) ↦
              let next : version ≡ suc current = ground arith in
              rw (accepted, types_set) (rw next (Reach-step (Write.typed text types accepted) refl))
        ]

  pub subspace_create-Reach :
      (key : ℕ) (name : String) (is_private : Bool) (write_roles : List Role)
      → To (subspace_create env c key name is_private write_roles tx)
  unfolding subspace_create
  subspace_create-Reach key name is_private write_roles =
      if_keeps
        (not (can c.role decide c.table) || key == env.space || is_some (tx.view.subspace key)) To
        (Reach.here refl)
        λ e.
          Reach-step
            (Write.subspace key
              (record {
                name = name;
                is_private = is_private;
                write_roles = unique_roles [] write_roles;
                parent = scope_of c.chain;
                by = c.author;
                stamp = c.stamp;
              })
              (some (listed_subspaces tx.view ++ key ∷ []))
              (is_some-false (tx.view.subspace key) (ground arith)))
            refl

  pub key_rotate-Reach : (epoch commit : ℕ) → To (key_rotate c epoch commit tx)
  unfolding key_rotate
  key_rotate-Reach epoch commit =
      let s = scope_of c.chain in
      let old = tx.view.epochs s in
      let e = epochs_or old in
      if_keeps (not (may_write c.role c.table) || not (is_private_in tx.view s)) To
        (Reach.here refl)
        λ _.
          if_splits (epoch == next_epoch old) To
            (λ same.
              let next : epoch ≡ next_epoch old = (==_iff epoch (next_epoch old)).0 same in
              rw next (Reach-step (Write.rotated s commit) refl))
            λ _.
              if_splits
                (ltb epoch (next_epoch old)
                  && not (is_commit (get e.commits epoch) commit)
                  && not (is_truthy (get e.others commit)))
                To (λ b. Reach-step (Write.rotated_too s epoch commit (ground arith)) refl)
                (λ _. (Reach.here refl))

  pub space_init-Reach :
      (writer stamp : ℕ) (name : String) (parent : Option ℕ) (is_private : Bool) (policy : String)
      (version proof : ℕ)
      → To (space_init env writer stamp name parent is_private policy version proof tx)
  unfolding space_init create
  space_init-Reach writer stamp name parent is_private policy version proof =
      if_keeps (is_some (tx.view.metas top) || not (writer == env.space)) To (Reach.here refl) λ e.
        elim (Option-cases (env.verify proof (writer_claim writer env.space))) [
          | inl unsigned ↦ rw (unsigned, space_init) (Reach.here refl)
          | inr (info, signed) ↦
              rw (signed, space_init)
                (Reach-trans
                  (Reach-step
                    (Write.created
                      (first_meta name parent is_private policy version stamp info.identity)
                      (is_some-false (tx.view.metas top) (ground arith)))
                    refl)
                  (Reach-step
                    (Write.member top info.identity (some (first_member stamp info.identity)))
                    refl))
        ]
