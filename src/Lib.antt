-- ===== src/Lib.antt =====
-- Hypergraph keeps a peer-to-peer space: its members write records in logs of their own, and what
-- they agree on (members and roles, sub-spaces, invites, bans and cuts, moderation, settings,
-- keys, record types) is a log of decisions that Autobase puts in one order. Every member applies
-- the decisions in that order to a view, a Hyperbee, and keeps a state from the view's changes.
-- The state answers who may do what, and how much of each log counts.
--
-- The parts and the files that model them:
--
--   Prelude                  lists, JavaScript's Map and objects as association lists, Boolean tests
--   Roles                    lib/decisions/state.js: ROLES, RANK, OWN, POWER, permissionsOf, can,
--                            grantable, mayAssign, mayInvite, mayRemove
--   Decisions/Data           lib/encodings.js: decisions, invites, redemptions; what is signed
--   Encodings/Codec          lib/encodings.js: values, codecs, `struct`; compact-encoding is `Wire`
--   Encodings/Decision       the fields of each decision, invites and messages; `decision`
--   Encodings/Records        recordId, record, encodeRecord, decodeRecord; Header: header, summary
--   Encodings/Ids            idBytes, idToString, idFromString, idParts; z32 is in `Texts`
--   Decisions/View           lib/decisions/apply.js: the view's keys, and countWrites
--   Decisions/Chain          chainOf, subspacesOf, below, memberIn, bannedIn, roleIn, writesAnywhere
--   Decisions/Writers        addKey, forget, removeFromBase, settle
--   Decisions/Cuts           recordCut, admit, recordEditCuts, dropAll, dropBelow
--   Decisions/Handlers       the cases of applyOne, one function for each type of decision
--   Decisions/Apply          applyOne, details, listDecision, applyNodes
--   State/Data, State/Apply  lib/decisions/state.js: State, its `apply` and `from`;
--                            lib/decisions/log.js: readChanges
--   State/Effective          State#sub and SubState: members, bans, cuts and edit cuts as they count
--   State/Settings, Limits   the getters, and what State and SubState answer about an identity
--   State/Touched            touched
--   Limit                    lib/limit.js: judge, nextAllowed
--   Ranges                   lib/ranges.js: Keys
--   Gate                     lib/gate.js: mayChange, mayEdit, mayPut
--   Gate/Logs                lib/gate.js: checkLog; lib/log.js: a log's header, readHeader
--   Gate/Records             checkRecord; unseal of a private space is a parameter
--   Gate/Links               linksAllowed, linkCounts, builtinValid, brokenRule
--   Stamp                    lib/stamp.js: Stamper, compare, latest, isFuture
--   Activity                 lib/activity.js: periodOf, derive, checkEntry
--   Activity/Waiting         the class Activity: entries kept, checked and waiting, and who is asked
--   Types                    lib/types.js: what a space stores of a type, linkAllowed
--   Types/Declare, All       declare, declarationsOf, BUILTIN; Types, Types.from, Types.adding
--   Types/Compatible         checkCompatible, conflict, over, stale
--   Types/Validate           validate, checkValue
--   Fields/Kinds, Ref        lib/fields.js: KINDS, ref, spaceKey; `Codecs` are compact-encoding's
--   Fields/Codec             codec: unknownOf, encode, decode
--
-- The other files hold proofs: Roles/Order and Power; Decisions/Seats, Effects and Owner (who
-- holds the owner's role), Decisions/Steps (the single writes that a decision is made of, what
-- lasts through them, and the versions of the types); State/Parts, Follows, Subs, Cuts and
-- Untouched; Limit/Window; Ranges/Search, Sorted and Digest; Gate/OwnLogs and Counting;
-- Encodings/RoundTrip, Trailing and RecordTrip; Stamp/Rising and Latest; Activity/Steps, Derive,
-- Parts and Cover (deriving), Events, Distinct, Bounds, Strangers and Accounted (the lists over
-- time); Types/Same, Later, Versions, Agree, RoundTrip, Values and Again; Fields/Entries and
-- Ends (the loops), Written, Kept and Unknown (an edit), Values, Names, Reading and Trip
-- (reading). Types/Text is a text of types for the tests. Files called Tests hold examples.
--
-- How the code is read. A key, a hash and an encoded message is a number that stands for its
-- bytes, but where bytes are read or written: in Encodings, Fields, Gate/Logs and Gate/Records
-- they are lists of numbers. The view is a record of functions, one for each prefix of its keys,
-- and `Tx` is the view with the number of writes so far and the calls of Autobase. A decision's
-- handler is a function from `Tx` to `Tx`; an early return gives the `Tx` back. The record `Env`
-- has what is not in the repository (the decoders of compact-encoding, the check of a proof by
-- keet-identity-key, the hash of an entry, whether Autobase can remove a writer, and JSON's
-- texts of types). What theorems assume of them is named: that JSON reads back the types that it
-- wrote (`IsJson`), what compact-encoding promises where bytes are read back (`IsWire`), what
-- keet-identity-key promises where a log's proof is checked (`Attests`), z32 where values are
-- checked again (`IsTexts`), and c.int, c.float64 and the bytes that c.uint looks at, where
-- fields are read (`IsCodecs`). c.int counts in doubles and need not keep an integer below
-- -2^52: what it reads of such a one is whatever it reads of the bytes that it wrote.
--
-- What throws. A moderation with an empty target makes applyNodes throw. `apply_nodes` then stops
-- with the view as it was before that decision, and so gives its handler no empty target.
--
-- Loops. chainOf, below and State#sub follow parents; they take one round of fuel for each sub-
-- space listed, and one more. chainOf gives null where it meets a sub-space again, so a chain is
-- no longer than the list of the sub-spaces held. The binary search of Keys takes a round of fuel
-- for each key, and the loops of lib/fields.js a round for each byte. All other loops are over
-- lists, or over a number of blocks that is known before.
--
-- What is left out. A custom role called like an inherited property of a JavaScript object is
-- not modelled. The decision list, kept in the view under a prefix that the state does not read,
-- is kept beside it. A sub-space's State has only the maps that a SubState reads of it. Not
-- modelled: the whole maps of a SubState; prefixes and Session of lib/ranges.js; declareRules of
-- lib/gate.js; the messages of lib/activity.js, its reading of blocks and its timer; and the
-- index. Activity#receive awaits the reading of blocks: it is two steps, and others may come
-- between. A type or a field called like an inherited property of a JavaScript object is not
-- modelled either. Opening and closing, timers, events, storage, the network and encryption are
-- calls of other libraries, and src/, the first version of the library, is replaced by lib/.
pub mod Prelude
pub mod Roles
pub mod Decisions
pub mod State
pub mod Limit
pub mod Ranges
pub mod Gate
pub mod Encodings
pub mod Stamp
pub mod Activity
pub mod Types
pub mod Fields
