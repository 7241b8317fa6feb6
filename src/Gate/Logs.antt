-- ===== src/Gate/Logs.antt =====
-- Which logs are kept: the header of a log, as OwnLog#ready of lib/log.js writes it and readHeader
-- reads it, and checkLog of lib/gate.js. Proofs are made and checked by lib/identity.js with
-- keet-identity-key: `Identities`.
use hypergraph.Prelude.{
  ℕ, Bool, true, false, Option, none, some, [], ◌∷◌, ◌++◌, ◌==◌, ◌&&◌, if◌then◌else◌, ltb,
}
use hypergraph.State.Limits.{Limit, up_to, unlimited}
use hypergraph.Encodings.Bytes.{eq_bytes}
use hypergraph.Encodings.Codec.{Bytes, Value, num, bytes, Object, end, field, field_of, Wire}
use hypergraph.Encodings.Header.{encode_header, decode_header}

pub record Who : Type 0 where
  pub identity : Bytes
  pub device : Bytes

-- attest, and Identity.verify of a proof, which is null where it was empty.
pub record Identities : Type 0 where
  pub attest : Bytes → Bytes
  pub verify : Option Bytes → Bytes → Option Who

abbrev pub version : ℕ
version = 1

-- 'hypergraph/log\0'
abbrev pub ns_log : Bytes
ns_log = 104 ∷ 121 ∷ 112 ∷ 101 ∷ 114 ∷ 103 ∷ 114 ∷ 97 ∷ 112 ∷ 104 ∷ 47 ∷ 108 ∷ 111 ∷ 103 ∷ 0 ∷ []

abbrev pub log_signable : Bytes → Bytes → Bytes
log_signable log_key space = ns_log ++ (log_key ++ space)

abbrev pub is_num : Value → ℕ → Bool
is_num (num n) m = n == m
is_num _ m = false

abbrev pub is_bytes : Value → Bytes → Bool
is_bytes (bytes b) c = eq_bytes b c
is_bytes _ c = false

abbrev pub proof_of : Value → Option Bytes
proof_of (bytes b) = some b
proof_of _ = none

-- { identity, device, admitted }
pub record Writer : Type 0 where
  pub who : Who
  pub admitted : Option Bytes

abbrev pub writer : Option Bytes → Option Who → Option Writer
writer admitted none = none
writer admitted (some who) = some (record { who = who; admitted = admitted })

pub data LogVerdict : Type 0 where
  bad_header : LogVerdict
  may_not_write : Bool → Writer → LogVerdict
  accepted : Limit → Writer → LogVerdict

-- limit > 1
abbrev pub has_room : Limit → Bool
has_room (up_to n) = ltb 1 n
has_room unlimited = true

module _ (w : Wire) (ids : Identities) where
  abbrev pub header_object : Bytes → Bytes → Bytes → Object
  header_object log_key space decisions = field "version" (num version) (
      field "space" (bytes space) (
        field "decisions" (bytes decisions)
          (field "proof" (bytes (ids.attest (log_signable log_key space))) end)))

  -- block 0, as OwnLog#ready appends it
  unfoldable pub write_header : Bytes → Bytes → Bytes → Option Bytes → Option Bytes
  unfolding encode_header
  write_header log_key space decisions admitted =
      encode_header w (header_object log_key space decisions) admitted

  abbrev pub is_ours : Object → Bytes → Bytes → Bool
  is_ours h space decisions =
      is_num (field_of h "version") version
      && (is_bytes (field_of h "space") space && is_bytes (field_of h "decisions") decisions)

  abbrev pub read_object : Bytes → Bytes → Bytes → Option (Object × Option Bytes) → Option Writer
  read_object log_key space decisions none = none
  read_object log_key space decisions (some (h, admitted)) =
      if is_ours h space decisions
      then writer admitted (ids.verify (proof_of (field_of h "proof")) (log_signable log_key space))
      else none

  unfoldable pub read_header : Bytes → Bytes → Bytes → Bytes → Option Writer
  unfolding decode_header
  read_header block log_key space decisions =
      read_object log_key space decisions (decode_header w block)

  -- `limits`: how much of the writer's log counts, and whether its author may write later.
  module _ (limit_of : Writer → Bytes → Limit) (may_retry : Who → Bytes → Bool) where
    abbrev pub judge_writer : Bytes → Option Writer → LogVerdict
    judge_writer log_key none = bad_header
    judge_writer log_key (some x) =
        let limit = limit_of x log_key in
        if has_room limit then accepted limit x else may_not_write (may_retry x.who log_key) x

    unfoldable pub check_log : Bytes → Bytes → Bytes → Bytes → LogVerdict
    unfolding read_header
    check_log block log_key space decisions =
        judge_writer log_key (read_header block log_key space decisions)
