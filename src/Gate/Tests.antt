-- ===== src/Gate/Tests.antt =====
-- A page that editors edit, in a space where one of them lost the permission.
use hypergraph.Prelude.{◌≡◌, refl, Option, some, [], String, get}
use hypergraph.Roles.{Permission, app}
use hypergraph.State.Data.{State, new_state, new_part}
use hypergraph.State.Effective.{editcut, get_cut}
use hypergraph.Gate.{by_permission, TypeRules, edit, ChangeRow, TargetRow, may_change}
use hypergraph.Prelude.{Bool, true, false, none, ◌∷◌, ◌++◌, if◌then◌else◌}
use hypergraph.Prelude.{ℕ, ◌==◌, get_text, inr}
use hypergraph.Types.{Rule, Declared, describe}
use hypergraph.Types.Compatible.{conflict, common, check_compatible}
use hypergraph.Gate.Links.{link_counts, links_allowed, builtin_valid, broken_rule, no_number}
use hypergraph.Gate.Counting.{link_counts-links_allowed}
use hypergraph.State.Limits.{Limit, up_to}
use hypergraph.Encodings.Codec.{Bytes, encode, encode_fields}
use hypergraph.Encodings.Header.{encode_header}
use hypergraph.Encodings.Tests.{wire, wire-IsWire, key}
use hypergraph.Encodings.Bytes.{eq_bytes, eq_bytes_self}
use hypergraph.Gate.Logs.{Who, Identities, Writer, ns_log, accepted, write_header, check_log}
use hypergraph.Gate.OwnLogs.{Attests, check_log-write_header}

abbrev editors : Permission
editors = app "edit-pages"

abbrev rules : String → Option TypeRules
rules type = some (record { editable = by_permission editors; put = some editors })

-- identity 3 was cut at block 5 of log 20
abbrev state : State
state = record new_state {
  own = record new_part { editcuts = (3, (editors, (20, 5) ∷ []) ∷ []) ∷ [] };
}

abbrev change : ChangeRow
change = record { kind = edit; type = "page"; author = 3; id = some (record { log = 20; seq = 4 }) }

abbrev target : TargetRow
target = record { type = "page"; author = 8 }

below_the_cut : may_change rules state [] change target ≡ true
unfolding editcut get get_cut may_change
below_the_cut = refl

abbrev me : Who
me = record { identity = 1 ∷ []; device = 2 ∷ [] }

-- A proof is its data after a byte.
abbrev checks : Option Bytes → Bytes → Option Who
checks none data' = none
checks (some []) data' = none
checks (some (b ∷ bs)) data' = if eq_bytes bs data' then some me else none

abbrev ids : Identities
ids = record { attest = λ data'. 9 ∷ data'; verify = checks }

me-Attests : Attests ids me
me-Attests data' = (refl, rw (eq_bytes_self data') refl)

abbrev up_to_five : Writer → Bytes → Limit
up_to_five x log = up_to 5

abbrev never : Who → Bytes → Bool
never x log = false

abbrev header : Bytes
header = 1 ∷ key ++ (key ++ (49 ∷ 9 ∷ ns_log ++ (7 ∷ key)))

check_log-write_header_example :
    check_log wire ids up_to_five never header (7 ∷ []) key key
    ≡ accepted (up_to 5) (record { who = me; admitted = none })
unfolding write_header encode_header encode_fields encode
check_log-write_header_example =
    check_log-write_header wire wire-IsWire ids me me-Attests up_to_five never (7 ∷ []) key key key
      key header none refl

abbrev reply : Declared
reply = record {
  fields = ("text", "text") ∷ ("on", "link") ∷ ("by", "link") ∷ [];
  links = ("on", "post" ∷ []) ∷ ("by", "hg/device" ∷ []) ∷ [];
  one_per_member = false;
  target = none;
  editable = Rule.author;
  put = Rule.members;
  index = [];
}

abbrev type_at : ℕ → Option String
type_at id = if id == 4 then some "post" else none

-- A later version of the type has one more link.
abbrev longer : Declared
longer = record reply {
  fields = reply.fields ++ (("via", "link") ∷ []);
  links = reply.links ++ (("via", "post" ∷ []) ∷ []);
}

link_counts-links_allowed_example :
    link_counts (("reply", reply) ∷ []) "reply" (some (("on", 4) ∷ [])) 4 (some "post") ≡ some true
unfolding links_allowed get_text conflict describe common check_compatible
link_counts-links_allowed_example =
    link_counts-links_allowed (("reply", longer) ∷ []) (("reply", reply) ∷ []) "reply"
      (("on", 4) ∷ ("via", 4) ∷ []) (("on", 4) ∷ []) type_at 4 "post" (inr (refl, refl))
      (refl, (refl, (refl, tt))) refl refl

no_link :
    builtin_valid "hg/tag" true (
      some (record {
        on = none;
        from = none;
        to = none;
        tag = some "red";
        rel = none;
        value = no_number;
        size = none;
      }))
    ≡ false
unfolding builtin_valid
no_link = refl

thrown : broken_rule (("short", λ n. some (n == 3)) ∷ ("safe", λ n. none) ∷ []) 3 ≡ some "safe"
unfolding broken_rule
thrown = refl
