-- ===== src/Rendering/Slices.antt =====
-- The parts that a content is cut into for a splice (`_insert_link` of app/connectors/wordpress.py).
use linking_engine_backend.Prelude.{
  ℕ, zero, suc, ◌+◌, ◌≤◌, ◌≡◌, refl, ap, List, [], ◌∷◌, ◌++◌, take, length, arith,
}
use linking_engine_backend.Rendering.{drop_chars, slice}

pub take-drop_chars : (n : ℕ) (cs : List ℕ) → take n cs ++ drop_chars n cs ≡ cs
take-drop_chars zero cs = refl
take-drop_chars (suc n) [] = refl
take-drop_chars (suc n) (c ∷ cs) = ap (c ∷◌) (take-drop_chars n cs)

pub length-take : (n : ℕ) (cs : List ℕ) → n ≤ length cs → length (take n cs) ≡ n
length-take zero cs h = refl
length-take (suc n) [] h = absurd (ground (arith, h))
length-take (suc n) (c ∷ cs) h = ground (arith, length-take n cs (ground (arith, h)))

-- What is before a slice, the slice, and what is after it make up the content.
pub parts_of_slice :
    (i j : ℕ) (cs : List ℕ) → i ≤ j → take i cs ++ (slice i j cs ++ drop_chars j cs) ≡ cs
parts_of_slice zero j cs h = take-drop_chars j cs
parts_of_slice (suc i) zero cs h = absurd (ground (arith, h))
parts_of_slice (suc i) (suc j) [] h = refl
parts_of_slice (suc i) (suc j) (c ∷ cs) h = ap (c ∷◌) (parts_of_slice i j cs (ground (arith, h)))

pub length-slice : (i j : ℕ) (cs : List ℕ) → i ≤ j → j ≤ length cs → i + length (slice i j cs) ≡ j
length-slice zero j cs h k = ground (arith, length-take j cs k)
length-slice (suc i) zero cs h k = absurd (ground (arith, h))
length-slice (suc i) (suc j) [] h k = absurd (ground (arith, k))
length-slice (suc i) (suc j) (c ∷ cs) h k =
    ground (arith, length-slice i j cs (ground (arith, h)) (ground (arith, k)))
