-- ===== src/Encodings/Bytes.antt =====
-- b4a.equals and subarray of bytes.
use hypergraph.Prelude.{
  ℕ, zero, suc, ◌-◌, ◌≡◌, ◌≤◌, refl, ap, Bool, true, false, [], ◌∷◌, ◌++◌, ◌&&◌, ◌==◌, arith,
  length, take, &&-true, length-append,
}
use hypergraph.Encodings.Codec.{Bytes}

abbrev pub eq_bytes : Bytes → Bytes → Bool
eq_bytes [] [] = true
eq_bytes (a ∷ as') (b ∷ bs) = (a == b) && eq_bytes as' bs
eq_bytes _ _ = false

abbrev pub drop : ℕ → Bytes → Bytes
drop zero bs = bs
drop (suc n) [] = []
drop (suc n) (b ∷ bs) = drop n bs

pub eq_bytes_path : (a b : Bytes) → eq_bytes a b ≡ true → a ≡ b
eq_bytes_path [] [] h = refl
eq_bytes_path [] (b ∷ bs) h = cc
eq_bytes_path (a ∷ as') [] h = cc
eq_bytes_path (a ∷ as') (b ∷ bs) h =
    let (x, y) = &&-true (a == b) (eq_bytes as' bs) h in ground (arith, eq_bytes_path as' bs y)

pub eq_bytes_self : (b : Bytes) → eq_bytes b b ≡ true
eq_bytes_self [] = refl
eq_bytes_self (x ∷ xs) = ground (arith, eq_bytes_self xs)

pub take-append : (b rest : Bytes) → take (length b) (b ++ rest) ≡ b
take-append [] rest = refl
take-append (x ∷ b) rest = ap (λ l. x ∷ l) (take-append b rest)

pub drop-append : (b rest : Bytes) → drop (length b) (b ++ rest) ≡ rest
drop-append [] rest = refl
drop-append (x ∷ b) rest = drop-append b rest

pub take-drop : (n : ℕ) (b : Bytes) → take n b ++ drop n b ≡ b
take-drop zero b = refl
take-drop (suc n) [] = refl
take-drop (suc n) (x ∷ b) = ap (λ l. x ∷ l) (take-drop n b)

pub length-take : (n : ℕ) (b : Bytes) → n ≤ length b → length (take n b) ≡ n
length-take zero b h = refl
length-take (suc n) [] h = absurd (omega arith)
length-take (suc n) (x ∷ b) h = ap suc (length-take n b (omega arith))

-- What comes before the rest.
pub take_before : (b rest : Bytes) → take (length (b ++ rest) - length rest) (b ++ rest) ≡ b
take_before b rest =
    let e : length (b ++ rest) - length rest ≡ length b = omega (arith, length-append b rest) in
    rw e (take-append b rest)
