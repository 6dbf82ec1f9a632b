-- ===== src/Prelude/Grouping.antt =====
-- Dictionaries of lists, sorting by a key, and membership through both.
use mathlib.Core.Path.{◌≡◌, refl, ap}
use mathlib.Core.Logic.{◌⊎◌, inl, inr}
use mathlib.Core.Bool.{Bool, true, false, not}
use mathlib.Core.List.{List, [], ◌∷◌, ◌++◌, map}
use linking_engine_backend.Prelude.Tests.{if◌then◌else◌, Bool-cases}
use linking_engine_backend.Prelude.Lists.{In, All, All-map}
use linking_engine_backend.Prelude.Tables.{select, In-select, In-select_intro}

module _ {A : Type 0} where
  abbrev pub flatten : List (List A) → List A
  flatten [] = []
  flatten (xs ∷ xss) = xs ++ flatten xss

  pub In-append_left : (x : A) (xs ys : List A) → In x xs → In x (xs ++ ys)
  In-append_left x [] ys i = absurd i
  In-append_left x (y ∷ xs) ys (inl e) = inl e
  In-append_left x (y ∷ xs) ys (inr i) = inr (In-append_left x xs ys i)

  pub In-append_right : (x : A) (xs ys : List A) → In x ys → In x (xs ++ ys)
  In-append_right x [] ys i = i
  In-append_right x (y ∷ xs) ys i = inr (In-append_right x xs ys i)

  pub In-append : (x : A) (xs ys : List A) → In x (xs ++ ys) → In x xs ⊎ In x ys
  In-append x [] ys i = inr i
  In-append x (y ∷ xs) ys (inl e) = inl (inl e)
  In-append x (y ∷ xs) ys (inr i) = elim (In-append x xs ys i) [
    | inl j ↦ inl (inr j)
    | inr j ↦ inr j
  ]

  pub In-flatten_intro :
      (x : A) (xs : List A) (xss : List (List A)) → In x xs → In xs xss → In x (flatten xss)
  In-flatten_intro x xs [] i j = absurd j
  In-flatten_intro x xs (ys ∷ xss) i (inl e) = In-append_left x ys (flatten xss) (rw e at i)
  In-flatten_intro x xs (ys ∷ xss) i (inr j) =
      In-append_right x ys (flatten xss) (In-flatten_intro x xs xss i j)

  pub In-flatten :
      (x : A) (xss : List (List A)) → In x (flatten xss) → (xs : List A) × In xs xss × In x xs
  In-flatten x [] i = absurd i
  In-flatten x (ys ∷ xss) i = elim (In-append x ys (flatten xss) i) [
    | inl j ↦ (ys, inl refl, j)
    | inr j ↦ let r = In-flatten x xss j in (r.0, inr r.1, r.2)
  ]

module _ {A B : Type 0} where
  pub In-map_intro : (f : A → B) (x : A) (xs : List A) → In x xs → In (f x) (map f xs)
  In-map_intro f x [] i = absurd i
  In-map_intro f x (y ∷ xs) (inl e) = inl (ap f e)
  In-map_intro f x (y ∷ xs) (inr i) = inr (In-map_intro f x xs i)

  pub In-map : (f : A → B) (y : B) (xs : List A) → In y (map f xs) → (x : A) × In x xs × (y ≡ f x)
  In-map f y [] i = absurd i
  In-map f y (x ∷ xs) (inl e) = (x, inl refl, e)
  In-map f y (x ∷ xs) (inr i) = let r = In-map f y xs i in (r.0, inr r.1, r.2)

-- A `defaultdict(list)` filled in the order of the rows: `same` says that two rows have one key.
-- The groups stand in the order of the first insertion of their keys.
module _ {A : Type 0} (same : A → A → Bool) where
  abbrev pub keys : List A → List A
  keys [] = []
  keys (x ∷ xs) = x ∷ select (λ y. not (same x y)) (keys xs)

  abbrev pub group_by : List A → List (List A)
  group_by xs = map (λ k. select (same k) xs) (keys xs)

  pub In-keys : (x : A) (xs : List A) → In x (keys xs) → In x xs
  In-keys x [] i = absurd i
  In-keys x (y ∷ xs) (inl e) = inl e
  In-keys x (y ∷ xs) (inr i) = inr (In-keys x xs (In-select (λ z. not (same y z)) x (keys xs) i).0)

  pub key_of :
      ((x : A) → same x x ≡ true)
      → ((x y z : A) → same x y ≡ true → same y z ≡ true → same x z ≡ true)
      → (x : A) (xs : List A) → In x xs
      → (k : A) × In k (keys xs) × (same k x ≡ true)
  key_of r t x [] i = absurd i
  key_of r t x (y ∷ xs) (inl e) = (y, inl refl, rw e (r y))
  key_of r t x (y ∷ xs) (inr i) =
      let (k, ik, e) = key_of r t x xs i in
      elim (Bool-cases (same y k)) [
        | inl f ↦ (y, inl refl, t y k x f e)
        | inr f ↦ (k, inr (In-select_intro (λ z. not (same y z)) k (keys xs) ik (rw f)), e)
      ]

  -- Every row is in the group of its key.
  pub In-group_by_intro :
      ((x : A) → same x x ≡ true)
      → ((x y z : A) → same x y ≡ true → same y z ≡ true → same x z ≡ true)
      → (x : A) (xs : List A) → In x xs
      → (g : List A) × In g (group_by xs) × In x g
  In-group_by_intro r t x xs i =
      let (k, ik, e) = key_of r t x xs i in
      (
        select (same k) xs,
        In-map_intro (λ k. select (same k) xs) k (keys xs) ik,
        In-select_intro (same k) x xs i e,
      )

  -- A group is what has the key of one of the rows.
  pub In-group_by :
      (g : List A) (xs : List A) → In g (group_by xs) → (k : A) × (g ≡ select (same k) xs)
  In-group_by g xs i = let (k, ik, e) = In-map (λ k. select (same k) xs) g (keys xs) i in (k, e)

  -- No group is empty: it holds the row that its key is taken from.
  pub group_by-inhabited :
      ((x : A) → same x x ≡ true)
      → (g : List A) (xs : List A) → In g (group_by xs)
      → (k : A) × In k g × (g ≡ select (same k) xs)
  group_by-inhabited r g xs i =
      let (k, ik, e) = In-map (λ k. select (same k) xs) g (keys xs) i in
      (k, rw e (In-select_intro (same k) k xs (In-keys k xs ik) (r k)), e)

-- A stable sort: of two equal rows the first stays first.
module _ {A : Type 0} (le : A → A → Bool) where
  abbrev pub insert_sorted : A → List A → List A
  insert_sorted x [] = x ∷ []
  insert_sorted x (y ∷ ys) =
      let rest = insert_sorted x ys in if le x y then x ∷ y ∷ ys else y ∷ rest

  abbrev pub sort : List A → List A
  sort [] = []
  sort (x ∷ xs) = insert_sorted x (sort xs)

  In-insert_intro : (x : A) (y : A) (ys : List A) → In x (y ∷ ys) → In x (insert_sorted y ys)
  In-insert_intro x y [] i = i
  In-insert_intro x y (z ∷ zs) i = elim (Bool-cases (le y z)) [
    | inl e ↦ rw e i
    | inr e ↦ rw e (elim i [
      | inl f ↦ inr (In-insert_intro x y zs (inl f))
      | inr (inl f) ↦ inl f
      | inr (inr j) ↦ inr (In-insert_intro x y zs (inr j))
    ])
  ]

  In-insert : (x : A) (y : A) (ys : List A) → In x (insert_sorted y ys) → In x (y ∷ ys)
  In-insert x y [] i = i
  In-insert x y (z ∷ zs) i = elim (Bool-cases (le y z)) [
    | inl e ↦ rw e at i
    | inr e ↦ elim (rw e at i) [
      | inl f ↦ inr (inl f)
      | inr j ↦ elim (In-insert x y zs j) [ inl f ↦ inl f | inr k ↦ inr (inr k) ]
    ]
  ]

  pub In-sort_intro : (x : A) (xs : List A) → In x xs → In x (sort xs)
  In-sort_intro x [] i = i
  In-sort_intro x (y ∷ xs) (inl e) = In-insert_intro x y (sort xs) (inl e)
  In-sort_intro x (y ∷ xs) (inr i) = In-insert_intro x y (sort xs) (inr (In-sort_intro x xs i))

  pub In-sort : (x : A) (xs : List A) → In x (sort xs) → In x xs
  In-sort x [] i = i
  In-sort x (y ∷ xs) i = elim (In-insert x y (sort xs) i) [
    | inl e ↦ inl e
    | inr j ↦ inr (In-sort x xs j)
  ]

  -- No row stands before one that sorts strictly earlier.
  abbrev pub IsSorted : List A → Type 0
  IsSorted [] = Unit
  IsSorted (x ∷ xs) = All (λ y. le x y ≡ true) xs × IsSorted xs

  module _ (total : (x y : A) → le x y ≡ false → le y x ≡ true)
      (trans : (x y z : A) → le x y ≡ true → le y z ≡ true → le x z ≡ true) where
    insert-All :
        (x y : A) (ys : List A)
        → le x y ≡ true
        → All (λ z. le x z ≡ true) ys
        → All (λ z. le x z ≡ true) (insert_sorted y ys)
    insert-All x y [] e h = (e, tt)
    insert-All x y (z ∷ zs) e h = elim (Bool-cases (le y z)) [
      | inl f ↦ rw f (e, h)
      | inr f ↦ rw f (h.0, insert-All x y zs e h.1)
    ]

    insert-IsSorted : (x : A) (xs : List A) → IsSorted xs → IsSorted (insert_sorted x xs)
    insert-IsSorted x [] h = (tt, tt)
    insert-IsSorted x (y ∷ ys) h = elim (Bool-cases (le x y)) [
      | inl e ↦ rw e (
        (e, All-map (λ z. le y z ≡ true) (λ z. le x z ≡ true) (λ z f. trans x y z e f) ys h.0),
        h,
      )
      | inr e ↦ rw e (insert-All y x ys (total x y e) h.0, insert-IsSorted x ys h.1)
    ]

    pub sort-IsSorted : (xs : List A) → IsSorted (sort xs)
    sort-IsSorted [] = tt
    sort-IsSorted (x ∷ xs) = insert-IsSorted x (sort xs) (sort-IsSorted xs)

-- A relation holds between each element and each later one.
abbrev pub Pairwise {κ} : {A : Type 0} → (A → A → Type κ) → List A → Type κ
Pairwise R [] = Unit
Pairwise R (x ∷ xs) = All (R x) xs × Pairwise R xs

pub IsSorted-Pairwise {κ} :
    {A : Type 0} (le : A → A → Bool) (R : A → A → Type κ)
    → ((x y : A) → le x y ≡ true → R x y)
    → (xs : List A) → IsSorted le xs
    → Pairwise R xs
IsSorted-Pairwise le R f [] h = tt
IsSorted-Pairwise le R f (x ∷ xs) h =
    (All-map (λ y. le x y ≡ true) (R x) (f x) xs h.0, IsSorted-Pairwise le R f xs h.1)
