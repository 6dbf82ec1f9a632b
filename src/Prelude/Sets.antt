-- ===== src/Prelude/Sets.antt =====
-- Sets of numbers as lists, and primary keys.
use mathlib.Core.Path.{◌≡◌, refl, ap, sym, ◌∙◌}
use mathlib.Core.Logic.{inl, inr}
use mathlib.Core.Bool.{Bool, true, false, not, ◌&&◌}
use mathlib.Core.List.{List, [], ◌∷◌, map}
use Prim.Native.Nat.{ℕ, ◌<◌}
use native.Mathlib.Omega.{arith}
use linking_engine_backend.Prelude.Tests.{Bool-cases, ◌==◌, ==_iff}
use linking_engine_backend.Prelude.Lists.{In, elem, without, dedup, length}
use linking_engine_backend.Prelude.Tables.{select}
use linking_engine_backend.Prelude.Grouping.{In-map_intro}

pub Bool-ext : (p q : Bool) → (p ≡ true → q ≡ true) → (q ≡ true → p ≡ true) → p ≡ q
Bool-ext true true f g = refl
Bool-ext false false f g = refl
Bool-ext true false f g = sym (f refl)
Bool-ext false true f g = g refl

module _ {A : Type 0} where
  pub select-ext :
      (p q : A → Bool) → ((x : A) → p x ≡ q x) → (xs : List A) → select p xs ≡ select q xs
  select-ext p q h [] = refl
  select-ext p q h (x ∷ xs) = ground (arith, h x, select-ext p q h xs)

pub elem-In : (n : ℕ) (ns : List ℕ) → elem n ns ≡ true → In n ns
elem-In n [] e = cc
elem-In n (m ∷ ns) e = elim (Bool-cases (n == m)) [
  | inl f ↦ inl ((==_iff n m).0 f)
  | inr f ↦ inr (elem-In n ns (rw f at e))
]

pub In-elem : (n : ℕ) (ns : List ℕ) → In n ns → elem n ns ≡ true
In-elem n [] i = absurd i
In-elem n (m ∷ ns) (inl e) = ground (arith)
In-elem n (m ∷ ns) (inr i) = ground (arith, In-elem n ns i)

In-without_intro : (m n : ℕ) (ns : List ℕ) → In m ns → (n == m) ≡ false → In m (without n ns)
In-without_intro m n [] i e = i
In-without_intro m n (k ∷ ns) (inl f) e = rw (← f, e) (inl refl)
In-without_intro m n (k ∷ ns) (inr i) e = elim (Bool-cases (n == k)) [
  | inl f ↦ rw f (In-without_intro m n ns i e)
  | inr f ↦ rw f (inr (In-without_intro m n ns i e))
]

In-without : (m n : ℕ) (ns : List ℕ) → In m (without n ns) → In m ns
In-without m n [] i = i
In-without m n (k ∷ ns) i = elim (Bool-cases (n == k)) [
  | inl f ↦ inr (In-without m n ns (rw f at i))
  | inr f ↦ elim (rw f at i) [ inl e ↦ inl e | inr j ↦ inr (In-without m n ns j) ]
]

pub In-dedup : (m : ℕ) (ns : List ℕ) → In m (dedup ns) → In m ns
In-dedup m [] i = i
In-dedup m (n ∷ ns) (inl e) = inl e
In-dedup m (n ∷ ns) (inr i) = inr (In-dedup m ns (In-without m n (dedup ns) i))

pub In-dedup_intro : (m : ℕ) (ns : List ℕ) → In m ns → In m (dedup ns)
In-dedup_intro m [] i = i
In-dedup_intro m (n ∷ ns) (inl e) = inl e
In-dedup_intro m (n ∷ ns) (inr i) = elim (Bool-cases (n == m)) [
  | inl f ↦ inl (sym ((==_iff n m).0 f))
  | inr f ↦ inr (In-without_intro m n (dedup ns) (In-dedup_intro m ns i) f)
]

not-In-short : (m : ℕ) (ns : List ℕ) → length ns < 1 → ¬ In m ns
not-In-short m [] h i = i
not-In-short m (n ∷ ns) h i = absurd (omega arith)

-- A set of fewer than two members has one.
pub single_of_dedup : (m n : ℕ) (ns : List ℕ) → length (dedup (n ∷ ns)) < 2 → In m (n ∷ ns) → m ≡ n
single_of_dedup m n ns h i = elim (In-dedup_intro m (n ∷ ns) i) [
  | inl e ↦ e
  | inr j ↦ absurd (not-In-short m (without n (dedup ns)) (omega arith) j)
]

-- A primary key: no two rows have one value.
abbrev pub distinct : List ℕ → Bool
distinct [] = true
distinct (n ∷ ns) = not (elem n ns) && distinct ns

pub distinct-injective :
    {A : Type 0} (key : A → ℕ) (a b : A) (xs : List A)
    → distinct (map key xs) ≡ true
    → In a xs
    → In b xs
    → key a ≡ key b
    → a ≡ b
distinct-injective key a b [] d i j e = absurd i
distinct-injective key a b (x ∷ xs) d (inl p) (inl q) e = p ∙ sym q
distinct-injective key a b (x ∷ xs) d (inl p) (inr j) e = absurd (clash p j)
  where
    clash : a ≡ x → In b xs → ⊥
    clash p j = ground (arith, In-elem (key b) (map key xs) (In-map_intro key b xs j), ap key p)
distinct-injective key a b (x ∷ xs) d (inr i) (inl q) e = absurd (clash q i)
  where
    clash : b ≡ x → In a xs → ⊥
    clash q i = ground (arith, In-elem (key a) (map key xs) (In-map_intro key a xs i), ap key q)
distinct-injective key a b (x ∷ xs) d (inr i) (inr j) e =
    distinct-injective key a b xs (ground arith) i j e

module _ {A : Type 0} (key : A → ℕ) where
  elem-select :
      (p : A → Bool) (n : ℕ) (xs : List A)
      → elem n (map key xs) ≡ false
      → elem n (map key (select p xs)) ≡ false
  elem-select p n [] e = refl
  elem-select p n (x ∷ xs) e = ground (arith, elem-select p n xs)

  -- A query keeps a primary key.
  pub distinct-select :
      (p : A → Bool) (xs : List A)
      → distinct (map key xs) ≡ true
      → distinct (map key (select p xs)) ≡ true
  distinct-select p [] d = refl
  distinct-select p (x ∷ xs) d = ground (arith, elem-select p (key x) xs, distinct-select p xs)
