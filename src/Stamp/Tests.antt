-- ===== src/Stamp/Tests.antt =====
-- Three versions of a record, two of them stamped alike, met in two orders; and a clock set back.
use hypergraph.Prelude.{◌≡◌, inl, inr, sym, ap, ◌∙◌, List, [], ◌∷◌, arith}
use hypergraph.Stamp.{Version, latest}
use hypergraph.Stamp.Latest.{In, IsSettled, latest_agrees}
use hypergraph.Stamp.Rising.{Event, see, give}

abbrev told : List Event
told = give 50 0 ∷ see 70 ∷ give 40 0 ∷ give 10 90 ∷ []

abbrev a : Version
a = record { stamp = 5; device = 1; content = 11 }

abbrev b : Version
b = record { stamp = 5; device = 2; content = 12 }

swap : (v : Version) → In v (a ∷ b ∷ []) → In v (b ∷ a ∷ [])
swap v (inl e) = inr (inl e)
swap v (inr (inl e)) = inl e
swap v (inr (inr i)) = elim i [ ]

back : (v : Version) → In v (b ∷ a ∷ []) → In v (a ∷ b ∷ [])
back v (inl e) = inr (inl e)
back v (inr (inl e)) = inl e
back v (inr (inr i)) = elim i [ ]

settled : IsSettled (a ∷ b ∷ [])
settled v w (inl p) (inl q) s d = sym p ∙ q
settled v w (inl p) (inr (inl q)) s d = ground (arith, ap (λ x. x.device) p, ap (λ x. x.device) q)
settled v w (inr (inl p)) (inl q) s d = ground (arith, ap (λ x. x.device) p, ap (λ x. x.device) q)
settled v w (inr (inl p)) (inr (inl q)) s d = sym p ∙ q
settled v w (inr (inr i)) j s d = elim i [ ]
settled v w (inl p) (inr (inr i)) s d = elim i [ ]
settled v w (inr (inl p)) (inr (inr i)) s d = elim i [ ]

latest_agrees_example : latest (a ∷ b ∷ []) ≡ latest (b ∷ a ∷ [])
latest_agrees_example = latest_agrees (a ∷ b ∷ []) (b ∷ a ∷ []) swap back settled
