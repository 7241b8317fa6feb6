-- ===== src/Decisions/Data.antt =====
-- The decisions of lib/encodings.js as lib/decisions/apply.js reads them, the invites of
-- lib/invites.js, and what the program takes from its libraries. Every string of bytes (a key, a
-- hash, an encoded message) is a number that stands for it, another number for each other string;
-- the source compares them as bytes or as hex.
use hypergraph.Prelude.{ℕ, Bool, Option, List, String}
use hypergraph.Types.{Named, Stored}
use hypergraph.Roles.{Role, Permission}

-- { identity, device } of a proof that holds
pub record Device : Type 0 where
  pub identity : ℕ
  pub device : ℕ

pub record InviteBody : Type 0 where
  pub space : ℕ
  pub id : ℕ
  pub role : Role
  pub uses : ℕ
  pub expires : ℕ
  pub subspaces : List ℕ
  pub maker : ℕ

pub record Invite : Type 0 where
  pub body : InviteBody
  pub open body use *
  pub proof : ℕ

pub record Redemption : Type 0 where
  pub invite : Invite
  pub identity : ℕ
  pub writer : ℕ
  pub proof : ℕ

-- What a proof signs; each constructor is one of the source's byte strings, with its own prefix.
pub data Signed : Type 0 where
  -- writerSignable(writerKey, space)
  writer_claim : ℕ → ℕ → Signed
  -- removalSignable(space, device, cut)
  removal : ℕ → ℕ → ℕ → Signed
  -- inviteSignable(inv, root): the root's key for an invite to a sub-space only
  invitation : InviteBody → Option ℕ → Signed
  -- redemptionSignable(inv, identity, writer): the invite's space and id, identity, writer
  redeeming : ℕ → ℕ → ℕ → ℕ → Signed

pub data Action : Type 0 where
  flag hide reveal remove ban unban : Action
  unknown : String → Action

-- The target of a moderation: its bytes, and how many they are. Of none c.buffer makes null.
pub record Target : Type 0 where
  pub bytes : ℕ
  pub byte_length : ℕ

-- [{ log, length }]
abbrev pub CutEntries : Type 0
CutEntries = List (ℕ × ℕ)

pub record WriteLimit : Type 0 where
  pub records : ℕ
  pub period_ms : ℕ

pub record Settings : Type 0 where
  pub policy : Option String
  pub write_limit : Option WriteLimit
  pub rules : Option (List String)
  pub history : Option String
  pub helpers : Option (List String)
  pub is_public : Option Bool

-- A decision's fields after its stamp. `settings_set` has its fields in a record of their own.
pub data Body : Type 0 where
  space_init : String → Option ℕ → Bool → String → ℕ → ℕ → Body
  member_add : ℕ → Body
  member_remove : ℕ → CutEntries → Body
  role_define : String → List Permission → Body
  role_set : ℕ → Role → CutEntries → Body
  moderate : Action → Target → String → CutEntries → Option String → Body
  invite_create : ℕ → Body
  invite_revoke : ℕ → Body
  invite_redeem : ℕ → Body
  key_rotate : ℕ → ℕ → Body
  subspace_create : ℕ → String → Bool → List Role → Body
  settings_set : Settings → Body
  writer_add : ℕ → ℕ → Body
  device_remove : ℕ → ℕ → ℕ → Body
  scoped : ℕ → ℕ → Body
  logs_list : List (ℕ × ℕ) → Body
  types_set : ℕ → String → Body

pub record Decision : Type 0 where
  pub stamp : ℕ
  pub body : Body

-- What is told to Autobase.
pub data Call : Type 0 where
  add_writer : ℕ → Bool → Call
  remove_writer : ℕ → Call

-- The space, and what the program takes from its libraries: keet-identity-key's check of a proof,
-- compact-encoding's decoders, the hash that is a decision's code, whether Autobase can remove a
-- writer after the calls made so far, and JSON: a text that stands for types in the form in which a
-- space stores them (none for any other text), and the text of such.
pub record Env : Type 0 where
  pub space : ℕ
  pub verify : ℕ → Signed → Option Device
  pub decode : ℕ → Option Decision
  pub decode_redemption : ℕ → Option Redemption
  pub decode_invite : ℕ → Option Invite
  pub is_record_id : Target → Bool
  pub code : ℕ → ℕ → ℕ
  pub parse : String → Option (Named Stored)
  pub print : Named Stored → String
  pub has_host : Bool
  pub removeable : List Call → ℕ → Bool
