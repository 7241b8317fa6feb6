-- ===== src/Gate/OwnLogs.antt =====
-- The log that a device makes is taken by every reader of its space, and by none of another
-- (lib/log.js and lib/gate.js).
use hypergraph.Prelude.{
  Bool, Option, none, some, [], ◌∷◌, ◌&&◌, if◌then◌else◌, ◌≡◌, refl, ap, ◌∙◌, Bool-cases, inl, inr,
  &&-true, subst,
}
use hypergraph.State.Limits.{Limit}
use hypergraph.Encodings.Codec.{Bytes, bytes, buffer, Object, Wire, norm, norm_fields}
use hypergraph.Encodings.RoundTrip.{IsWire, drop_empty}
use hypergraph.Encodings.Header.{header_fields, decode_header-encode_header}
use hypergraph.Encodings.Bytes.{eq_bytes, eq_bytes_path}
use hypergraph.Gate.Logs.{
  Who, Identities, log_signable, proof_of, Writer, writer, is_ours, header_object, write_header,
  read_object, judge_writer, check_log,
}

proof_norm : (p : Bytes) → proof_of (norm buffer (bytes p)) ≡ drop_empty (some p)
unfolding norm
proof_norm [] = refl
proof_norm (x ∷ xs) = refl

-- What a device attests is not empty, and is verified as its own.
abbrev pub Attests : Identities → Who → Type 0
Attests ids who =
    (data' : Bytes)
    → (drop_empty (some (ids.attest data')) ≡ some (ids.attest data'))
      × (ids.verify (some (ids.attest data')) data' ≡ some who)

module _ (w : Wire) (laws : IsWire w) (ids : Identities) (who : Who)
    (attests : Attests ids who) where
  verified :
      (log_key space : Bytes)
      → ids.verify
          (proof_of (norm buffer (bytes (ids.attest (log_signable log_key space)))))
          (log_signable log_key space)
        ≡ some who
  verified log_key space =
      let data' = log_signable log_key space in
      let law = attests data' in
      ap (λ p. ids.verify p data') (proof_norm (ids.attest data') ∙ law.0) ∙ law.1

  abbrev written : Bytes → Bytes → Bytes → Object
  written log_key space decisions =
      norm_fields header_fields (header_object w ids log_key space decisions)

  is_ours-written :
      (log_key space decisions space' decisions' : Bytes)
      → is_ours w ids (written log_key space decisions) space' decisions'
        ≡ eq_bytes space space' && eq_bytes decisions decisions'
  unfolding norm_fields norm
  is_ours-written log_key space decisions space' decisions' = refl

  read_written :
      (log_key space decisions space' decisions' : Bytes) (admitted : Option Bytes)
      → read_object w ids log_key space' decisions'
          (some (written log_key space decisions, admitted))
        ≡ (if eq_bytes space space' && eq_bytes decisions decisions'
            then some (record { who = who; admitted = admitted })
            else none)
  unfolding norm_fields norm
  read_written log_key space decisions space' decisions' admitted =
      elim (Bool-cases (eq_bytes space space' && eq_bytes decisions decisions')) [
        | inl e ↦
            let same =
              eq_bytes_path space space'
                (&&-true (eq_bytes space space') (eq_bytes decisions decisions') e).0 in
            rw e (
              subst
                (λ s.
                  writer admitted (
                    ids.verify
                      (proof_of (norm buffer (bytes (ids.attest (log_signable log_key space)))))
                      (log_signable log_key s))
                  ≡ some (record { who = who; admitted = admitted }))
                same (ap (writer admitted) (verified log_key space)))
        | inr e ↦ rw e refl
      ]

  -- Over codecs that keep what compact-encoding documents, and identities that verify what their
  -- devices attest, the header that a device writes in its own log passes as its own with every
  -- reader of that space and decision log, with its admission code, and so counts as far as the
  -- reader's limits say; a reader of any other space, or with another decision log, takes it for a
  -- bad header.
  pub check_log-write_header :
      (limit_of : Writer → Bytes → Limit) (may_retry : Who → Bytes → Bool)
      (log_key space decisions space' decisions' block : Bytes) (admitted : Option Bytes)
      → write_header w ids log_key space decisions admitted ≡ some block
      → check_log w ids limit_of may_retry block log_key space' decisions'
        ≡ judge_writer w ids limit_of may_retry log_key (
            if eq_bytes space space' && eq_bytes decisions decisions'
            then some (record { who = who; admitted = admitted })
            else none)
  unfolding write_header check_log
  check_log-write_header limit_of may_retry log_key space decisions space' decisions' block admitted
        h =
      ap (judge_writer w ids limit_of may_retry log_key) (
        ap (read_object w ids log_key space' decisions') (
          decode_header-encode_header w laws (header_object w ids log_key space decisions) admitted
            block (tt, (tt, (tt, (tt, tt)))) h)
        ∙ read_written log_key space decisions space' decisions' admitted)
