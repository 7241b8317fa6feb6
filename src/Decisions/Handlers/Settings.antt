-- ===== src/Decisions/Handlers/Settings.antt =====
-- Settings, record types, sub-spaces and keys in applyOne of lib/decisions/apply.js:
-- settings/set, types/set, subspace/create and key/rotate; validLimit of lib/limit.js.
use Prim.Native.Char.{code}
use Prim.Native.String
use Prim.Native.Nat.{Ordering}
use hypergraph.Prelude.{
  ℕ, zero, suc, Bool, true, false, not, ◌&&◌, ◌||◌, Option, none, some, List, [], ◌∷◌, ◌++◌, String,
  str_eq, ◌==◌, if◌then◌else◌, is_some, ltb, leb, all, any, length, get, put, or_else, ◌+◌,
}
use hypergraph.Types.{Named, Stored, Declared, describe}
use hypergraph.Types.Compatible.{check_compatible}
use hypergraph.Types.All.{from_stored}
use hypergraph.Roles.{Role, custom, decide, can, is_owner, eq_role}
use hypergraph.Decisions.Data.{Env, WriteLimit, Settings}
use hypergraph.Decisions.View.{
  Scope, top, sub, Meta, Epochs, View, Tx, write, set, set_meta, set_epochs, set_subspace,
  set_subspaces,
}
use hypergraph.Decisions.Chain.{scope_of, may_write, listed_subspaces}
use hypergraph.Decisions.Handlers.Members.{Context, in_subspace}

abbrev pub one_of : List String → Option String → Option String
one_of texts none = none
one_of texts (some t) = if any (λ s. str_eq s t) texts then some t else none

abbrev pub policies : List String
policies = "auto" ∷ "everything" ∷ []

abbrev pub histories : List String
histories = "visible" ∷ "hidden" ∷ []

-- [...new Set(texts)]
abbrev pub unique_texts : List String → List String → List String
unique_texts seen [] = []
unique_texts seen (t ∷ texts) =
    let rest = unique_texts (t ∷ seen) texts in
    let again = unique_texts seen texts in if any (λ s. str_eq s t) seen then again else t ∷ rest

-- Array.prototype.sort on texts, by their code units.
abbrev pub insert_text : String → List String → List String
insert_text t [] = t ∷ []
insert_text t (u ∷ texts) =
    let rest = insert_text t texts in
    elim (String.compare t u) [ Ordering.gt ↦ u ∷ rest | _ ↦ t ∷ u ∷ texts ]

abbrev pub sort_texts : List String → List String
sort_texts [] = []
sort_texts (t ∷ texts) = insert_text t (sort_texts texts)

abbrev pub codes : String → List ℕ
codes String.[] = []
codes (String.◌∷◌ c s) = code c ∷ codes s

abbrev pub is_hex_digit : ℕ → Bool
is_hex_digit c = (leb b'0' c && leb c b'9') || (leb b'a' c && leb c b'f')

-- /^[0-9a-f]{64}$/
unfoldable pub is_hex_key : String → Bool
is_hex_key s = (length (codes s) == 64) && all is_hex_digit (codes s)

abbrev pub max_helpers : ℕ
max_helpers = 8

unfoldable pub valid_helpers : List String → Option (List String)
unfolding is_hex_key
valid_helpers list =
    if ltb max_helpers (length list) || not (all is_hex_key list)
    then none
    else some (unique_texts [] list)

unfoldable pub valid_limit : WriteLimit → Bool
valid_limit l = leb 1 l.records && leb 1 l.period_ms

-- The limit to set: none for nothing, `some none` to lift it.
unfoldable pub limit_of : Option WriteLimit → Option (Option WriteLimit)
unfolding valid_limit
limit_of none = none
limit_of (some l) =
    if l.records == 0 then some none else if valid_limit l then some (some l) else none

abbrev pub empty_meta : Meta
empty_meta = record {
  name = none;
  owner = none;
  policy = none;
  is_private = false;
  version = none;
  parent = none;
  stamp = none;
  rules = none;
  history = none;
  helpers = none;
  write_limit = none;
  is_public = false;
}

abbrev pub meta_or : Option Meta → Meta
meta_or none = empty_meta
meta_or (some m) = m

-- Is the scope private? A sub-space's own entry says nothing of it.
abbrev pub is_private_in : View → Scope → Bool
is_private_in view top = (meta_or (view.metas top)).is_private
is_private_in view (sub key) = elim (view.subspace key) [
  | none ↦ false
  | some info ↦ info.is_private
]

abbrev pub is_true : Option Bool → Bool
is_true none = false
is_true (some b) = b

abbrev pub sorted_rules : Option (List String) → Option (List String)
sorted_rules none = none
sorted_rules (some rules) = some (sort_texts (unique_texts [] rules))

abbrev pub helpers_if : Bool → Option (List String) → Option (List String)
helpers_if allowed none = none
helpers_if allowed (some list) = if allowed then valid_helpers list else none

-- What of the settings counts.
pub record Counted : Type 0 where
  pub policy : Option String
  pub rules : Option (List String)
  pub limit : Option (Option WriteLimit)
  pub history : Option String
  pub helpers : Option (List String)
  pub makes_public : Bool

unfoldable pub counted : Context → View → Settings → Counted
unfolding limit_of valid_helpers
counted c view d = record {
  policy = one_of policies d.policy;
  rules = sorted_rules d.rules;
  limit = limit_of d.write_limit;
  history = one_of histories d.history;
  helpers = helpers_if (is_owner c.role && not (in_subspace c)) d.helpers;
  makes_public = is_true d.is_public && not (is_private_in view (scope_of c.chain));
}

abbrev pub counts_for_nothing : Counted → Bool
counts_for_nothing n =
    not (is_some n.policy)
    && not (is_some n.rules)
    && not (is_some n.limit)
    && not (is_some n.history)
    && not (is_some n.helpers)
    && not n.makes_public

unfoldable pub merge : Counted → Meta → Meta
merge n m = record m {
  policy = or_else n.policy m.policy;
  rules = or_else n.rules m.rules;
  history = or_else n.history m.history;
  helpers = or_else n.helpers m.helpers;
  write_limit = elim n.limit [ none ↦ m.write_limit | some l ↦ l ];
  is_public = n.makes_public || m.is_public;
}

unfoldable pub settings_set : Context → Settings → Tx → Tx
unfolding counted merge
settings_set c d tx =
    let s = scope_of c.chain in
    let n = counted c tx.view d in
    if not (can c.role decide c.table) || counts_for_nothing n
    then tx
    else set_meta s (some (merge n (meta_or (tx.view.metas s)))) tx

abbrev pub max_types : ℕ
max_types = 32768

-- b4a.byteLength: the bytes of a text in UTF-8
abbrev char_bytes : ℕ → ℕ
char_bytes c = if ltb c 128 then 1 else if ltb c 2048 then 2 else if ltb c 65536 then 3 else 4

unfoldable pub utf8_length : String → ℕ
utf8_length String.[] = 0
utf8_length (String.◌∷◌ c s) = char_bytes (code c) + utf8_length s

abbrev pub or_no_version : Option ℕ → ℕ
or_no_version none = 0
or_no_version (some v) = v

-- next.checkCompatible(JSON.parse(text)): false where it throws
abbrev pub accepts_text : Env → Named Declared → Option String → Bool
accepts_text env next none = false
accepts_text env next (some text) = elim (env.parse text) [
  | none ↦ false
  | some old ↦ check_compatible next old
]

-- Do the types go with the version recorded, if there is one?
abbrev pub accepts : Env → Named Declared → ℕ → (ℕ → Option String) → Bool
accepts env next zero at = true
accepts env next (suc v) at = accepts_text env next (at (suc v))

abbrev pub accept_next : Env → ℕ → (ℕ → Option String) → Option (Named Declared) → Option String
accept_next env current at none = none
accept_next env current at (some next) =
    if accepts env next current at then some (env.print (describe next)) else none

-- Types.from(JSON.parse(types)), checked against the version recorded, as the text of its describe()
abbrev pub accept_parsed : Env → ℕ → (ℕ → Option String) → Option (Named Stored) → Option String
accept_parsed env current at none = none
accept_parsed env current at (some stored) = accept_next env current at (from_stored stored)

unfoldable pub accept_types : Env → ℕ → (ℕ → Option String) → String → Option String
unfolding check_compatible describe from_stored
accept_types env current at types = accept_parsed env current at (env.parse types)

unfoldable pub types_set : Env → Context → ℕ → String → Tx → Tx
types_set env c version types tx =
    let current = or_no_version tx.view.types in
    if in_subspace c
      || not (can c.role decide c.table)
      || ltb max_types (utf8_length types)
      || not (version == suc current)
    then tx
    else elim (accept_types env current tx.view.types_at types) [
      | none ↦ tx
      | some text ↦
          let kept =
            write (record (tx.view) { types_at = set tx.view.types_at version (some text) }) tx in
          write (record (kept.view) { types = some version }) kept
    ]

abbrev pub is_empty_role : Role → Bool
is_empty_role (custom name) = str_eq name ""
is_empty_role _ = false

abbrev pub unique_roles : List Role → List Role → List Role
unique_roles seen [] = []
unique_roles seen (r ∷ roles) =
    let rest = unique_roles (r ∷ seen) roles in
    let again = unique_roles seen roles in
    if is_empty_role r || any (λ s. eq_role s r) seen then again else r ∷ rest

unfoldable pub subspace_create : Env → Context → ℕ → String → Bool → List Role → Tx → Tx
subspace_create env c key name is_private write_roles tx =
    if not (can c.role decide c.table) || key == env.space || is_some (tx.view.subspace key)
    then tx
    else let made =
        set_subspace key
          (some (record {
            name = name;
            is_private = is_private;
            write_roles = unique_roles [] write_roles;
            parent = scope_of c.chain;
            by = c.author;
            stamp = c.stamp;
          }))
          tx in
      set_subspaces (some (listed_subspaces made.view ++ key ∷ [])) made

-- The epoch after the current one: 0 before the first.
abbrev pub next_epoch : Option Epochs → ℕ
next_epoch none = 0
next_epoch (some e) = suc e.current

abbrev pub no_epochs : Epochs
no_epochs = record { current = 0; commits = []; others = [] }

abbrev pub epochs_or : Option Epochs → Epochs
epochs_or none = no_epochs
epochs_or (some e) = e

abbrev pub is_commit : Option ℕ → ℕ → Bool
is_commit none commit = false
is_commit (some c) commit = c == commit

-- `others[commit]` is an epoch, and epoch 0 is falsy: one kept for epoch 0 is written once more.
abbrev pub is_truthy : Option ℕ → Bool
is_truthy none = false
is_truthy (some n) = not (n == 0)

unfoldable pub key_rotate : Context → ℕ → ℕ → Tx → Tx
key_rotate c epoch commit tx =
    let s = scope_of c.chain in
    let old = tx.view.epochs s in
    let e = epochs_or old in
    if not (may_write c.role c.table) || not (is_private_in tx.view s)
    then tx
    else if epoch == next_epoch old
    then set_epochs s (some (record e { current = epoch; commits = put e.commits epoch commit })) tx
    else if ltb epoch (next_epoch old)
        && not (is_commit (get e.commits epoch) commit)
        && not (is_truthy (get e.others commit))
    then set_epochs s (some (record e { others = put e.others commit epoch })) tx
    else tx
