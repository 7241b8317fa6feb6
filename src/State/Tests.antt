-- ===== src/State/Tests.antt =====
-- A state kept from a view's changes: a space with an owner and a member, a private sub-space in
-- which a guest was let in, and a cut of the member's log.
use hypergraph.Prelude.{ℕ, ◌≡◌, ◌≤◌, inl, refl, false, Option, none, some, List, [], ◌∷◌, get, put}
use hypergraph.Roles
use hypergraph.Decisions.View.{top, sub, View, Member, Subspace}
use hypergraph.Decisions.Chain.{chain_from, chain_of, member_in}
use hypergraph.State.Data
use hypergraph.State.Data.{State, Change, at, new_state, part_of}
use hypergraph.State.Apply.{known, apply_entry, apply, apply_all}
use hypergraph.State.Effective.{Layer, Layers, member, cut, layers_of}
use hypergraph.State.Limits.{up_to, limit_of}
use hypergraph.State.Parts.{put_entry, put_change}
use hypergraph.State.Follows.{Follows, put_all, apply_all-Follows, new_state-Follows, empty_view}
use hypergraph.State.Subs.{sub_member}
use hypergraph.State.Cuts.{cut_reaches_down}
use hypergraph.State.Touched.{touched, touch_each, touch, touch_entry}
use hypergraph.State.Untouched.{IsSame, touched-IsSame}

abbrev member_entry : Roles.Role → Option Member
member_entry role =
    some (record { role = role; by = 1; stamp = 5; writer = none; writer_device = none })

abbrev room : Subspace
room = record {
  name = "room";
  is_private = false;
  write_roles = [];
  parent = top;
  by = 1;
  stamp = 6;
}

abbrev changes : List Change
changes =
    at top (Data.member 1 (member_entry Roles.owner))
    ∷ at top (Data.member 2 (member_entry Roles.member))
    ∷ Data.subspaces (some (7 ∷ []))
    ∷ Data.subspace 7 (some room)
    ∷ at (sub 7) (Data.member 3 (member_entry Roles.guest))
    ∷ at top (Data.cut 2 (some (record { logs = (20, 4) ∷ []; stamp = 9 })))
    ∷ []

abbrev played : View
played = put_all changes empty_view

abbrev kept : State
kept = apply_all changes new_state

kept-Follows : Follows played kept
kept-Follows = apply_all-Follows changes empty_view new_state new_state-Follows

apply_all-Follows_example : Follows played kept
apply_all-Follows_example = apply_all-Follows changes empty_view new_state new_state-Follows

sub_member_example :
    (layers : Layers) × (layers_of kept (sub 7) ≡ some layers)
    × ((id : ℕ) → member kept layers id ≡ known (member_in played (7 ∷ []) id))
unfolding chain_of chain_from put_all put_change put_entry
sub_member_example = sub_member kept-Follows 7 (7 ∷ []) refl

abbrev room_layer : Layer
room_layer = record { key = 7; info = room; part = Data.new_part }

cut_reaches_down_example : (n : ℕ) × (limit_of kept (room_layer ∷ []) 2 20 ≡ up_to n) × (n ≤ 4)
unfolding cut apply_all apply apply_entry get put part_of
cut_reaches_down_example = cut_reaches_down kept room_layer [] 2 20 4 (inl refl)

-- member 3 is let in and cut; member 2 is not named
abbrev later : List Change
later =
    at top (Data.member 3 (member_entry Roles.member))
    ∷ at (sub 7) (Data.cut 3 (some (record { logs = (30, 2) ∷ []; stamp = 12 })))
    ∷ []

touched-IsSame_example : IsSame 2 kept (apply_all later kept)
unfolding touched touch_each touch touch_entry
touched-IsSame_example = touched-IsSame 2 later kept refl refl
