-- ===== src/Stamp/Latest.antt =====
-- Every member settles on the same version (compare and latest of lib/stamp.js).
use hypergraph.Prelude.{
  ◌≡◌, ◌⊎◌, inl, inr, refl, ap, subst, true, false, some, List, [], ◌∷◌, arith, if_splits,
}
use hypergraph.Stamp.{Version, wins, latest_from, latest}

abbrev pub In : Version → List Version → Type 0
In v [] = ⊥
In v (x ∷ xs) = (x ≡ v) ⊎ In v xs

-- One device gives no stamp twice: what has the same stamp and device is the same version.
abbrev pub IsSettled : List Version → Type 0
IsSettled xs = (a b : Version) → In a xs → In b xs → a.stamp ≡ b.stamp → a.device ≡ b.device → a ≡ b

-- No version wins over it.
abbrev IsBest : Version → List Version → Type 0
IsBest m xs = (v : Version) → In v xs → wins v m ≡ false

wins_self : (a : Version) → wins a a ≡ false
unfolding wins
wins_self a = ground arith

wins_back : (a b : Version) → wins a b ≡ true → wins b a ≡ false
unfolding wins
wins_back a b h = ground arith

wins_trans : (a b c : Version) → wins a b ≡ false → wins b c ≡ false → wins a c ≡ false
unfolding wins
wins_trans a b c h k = ground arith

wins_tie :
    (a b : Version)
    → wins a b ≡ false
    → wins b a ≡ false
    → (a.stamp ≡ b.stamp) × (a.device ≡ b.device)
unfolding wins
wins_tie a b h k = (ground arith, ground arith)

latest_from-In : (best : Version) (xs : List Version) → In (latest_from best xs) (best ∷ xs)
unfolding latest_from
latest_from-In best [] = inl refl
latest_from-In best (x ∷ xs) =
    if_splits (wins x best) (λ b. In (latest_from b xs) (best ∷ x ∷ xs))
      (λ h. inr (latest_from-In x xs))
      (λ h. elim (latest_from-In best xs) [ inl e ↦ inl e | inr i ↦ inr (inr i) ])

latest_from-IsBest : (best : Version) (xs : List Version) → IsBest (latest_from best xs) (best ∷ xs)
unfolding latest_from
latest_from-IsBest best [] v (inl e) = subst (λ a. wins a best ≡ false) e (wins_self best)
latest_from-IsBest best [] v (inr i) = elim i [ ]
latest_from-IsBest best (x ∷ xs) v (inl e) =
    if_splits (wins x best) (λ b. wins v (latest_from b xs) ≡ false)
      (λ h.
        subst (λ a. wins a (latest_from x xs) ≡ false) e
          (wins_trans best x (latest_from x xs) (wins_back x best h)
            (latest_from-IsBest x xs x (inl refl))))
      (λ h. latest_from-IsBest best xs v (inl e))
latest_from-IsBest best (x ∷ xs) v (inr (inl e)) =
    if_splits (wins x best) (λ b. wins v (latest_from b xs) ≡ false)
      (λ h. latest_from-IsBest x xs v (inl e))
      (λ h.
        subst (λ a. wins a (latest_from best xs) ≡ false) e
          (wins_trans x best (latest_from best xs) h (latest_from-IsBest best xs best (inl refl))))
latest_from-IsBest best (x ∷ xs) v (inr (inr i)) =
    if_splits (wins x best) (λ b. wins v (latest_from b xs) ≡ false)
      (λ h. latest_from-IsBest x xs v (inr i)) (λ h. latest_from-IsBest best xs v (inr i))

-- Two lists that hold the same versions, in whatever order and however often, give the same latest
-- version, if among them no device gave one stamp to two versions: so members who met the versions
-- in different orders settle on the same one.
pub latest_agrees :
    (xs ys : List Version)
    → ((v : Version) → In v xs → In v ys)
    → ((v : Version) → In v ys → In v xs)
    → IsSettled xs
    → latest xs ≡ latest ys
unfolding latest
latest_agrees [] [] to from s = refl
latest_agrees [] (y ∷ ys) to from s = absurd (from y (inl refl))
latest_agrees (x ∷ xs) [] to from s = absurd (to x (inl refl))
latest_agrees (x ∷ xs) (y ∷ ys) to from s =
    let a = latest_from x xs in
    let b = latest_from y ys in
    let a_in = latest_from-In x xs in
    let b_in = from b (latest_from-In y ys) in
    let tie =
      wins_tie a b (latest_from-IsBest y ys a (to a a_in)) (latest_from-IsBest x xs b b_in) in
    ap some (s a b a_in b_in tie.0 tie.1)
