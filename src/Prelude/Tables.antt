-- ===== src/Prelude/Tables.antt =====
-- A table is the list of its rows. `select` is a query with a WHERE clause, `update_where` an
-- UPDATE with one, `find` the first row that a query returns, `count` a COUNT(*).
use Prim.Native.Nat.{ℕ, ◌+◌, ◌≤◌}
use mathlib.Core.Path.{◌≡◌, refl, ap}
use mathlib.Core.Logic.{inl, inr}
use mathlib.Core.Logic.{inl, inr}
use mathlib.Core.Bool.{Bool, true, false}
use mathlib.Core.Option.{Option, none, some}
use mathlib.Core.List.{List, [], ◌∷◌, ◌++◌, map}
use native.Mathlib.Omega.{arith}
use linking_engine_backend.Prelude.Tests.{if◌then◌else◌, Bool-cases}
use linking_engine_backend.Prelude.Lists.{In}

module _ {ℓ} {A : Type ℓ} where
  abbrev pub select : (A → Bool) → List A → List A
  select p [] = []
  select p (x ∷ xs) = let rest = select p xs in if p x then x ∷ rest else rest

  abbrev pub find : (A → Bool) → List A → Option A
  find p [] = none
  find p (x ∷ xs) = let rest = find p xs in if p x then some x else rest

  abbrev pub update_where : (A → Bool) → (A → A) → List A → List A
  update_where p f [] = []
  update_where p f (x ∷ xs) = (if p x then f x else x) ∷ update_where p f xs

  abbrev pub count : (A → Bool) → List A → ℕ
  count p [] = 0
  count p (x ∷ xs) = (if p x then 1 else 0) + count p xs

  -- An update that gives no row the property leaves no more rows that have it.
  pub count-update_where :
      (p q : A → Bool) (f : A → A)
      → ((x : A) → q x ≡ true → p (f x) ≡ true → p x ≡ true)
      → (xs : List A) → count p (update_where q f xs) ≤ count p xs
  count-update_where p q f h [] = omega arith
  count-update_where p q f h (x ∷ xs) = ground (arith, h x, count-update_where p q f h xs)

module _ {A : Type 0} where
  -- A row that a query returns is in the table and passes the test.
  pub In-select : (p : A → Bool) (x : A) (xs : List A) → In x (select p xs) → In x xs × (p x ≡ true)
  In-select p x [] i = absurd i
  In-select p x (y ∷ ys) i = elim (Bool-cases (p y)) [
    | inl e ↦ elim (rw e at i) [
      | inl f ↦ (inl f, rw f e)
      | inr j ↦ let r = In-select p x ys j in (inr r.0, r.1)
    ]
    | inr e ↦ let r = In-select p x ys (rw e at i) in (inr r.0, r.1)
  ]

  pub In-select_intro :
      (p : A → Bool) (x : A) (xs : List A) → In x xs → p x ≡ true → In x (select p xs)
  In-select_intro p x [] i e = absurd i
  In-select_intro p x (y ∷ ys) (inl f) e = rw (← f, e) (inl refl)
  In-select_intro p x (y ∷ ys) (inr i) e = elim (Bool-cases (p y)) [
    | inl f ↦ rw f (inr (In-select_intro p x ys i e))
    | inr f ↦ rw f (In-select_intro p x ys i e)
  ]

  -- Each row after an update is an updated row, or one that the update leaves alone.
  pub In-update_where :
      (q : A → Bool) (f : A → A) (y : A) (xs : List A)
      → In y (update_where q f xs)
      → (x : A) × In x xs × (y ≡ (if q x then f x else x))
  In-update_where q f y [] i = absurd i
  In-update_where q f y (x ∷ xs) (inl e) = (x, inl refl, e)
  In-update_where q f y (x ∷ xs) (inr i) =
      let (z, j, e) = In-update_where q f y xs i in (z, inr j, e)

  pub In-update_where_intro :
      (q : A → Bool) (f : A → A) (x : A) (xs : List A)
      → In x xs
      → In (if q x then f x else x) (update_where q f xs)
  In-update_where_intro q f x [] i = absurd i
  In-update_where_intro q f x (y ∷ xs) (inl e) = inl (ap (λ z. if q z then f z else z) e)
  In-update_where_intro q f x (y ∷ xs) (inr i) = inr (In-update_where_intro q f x xs i)

  -- The same bound where the update is known to keep the property on the rows of the table only.
  pub count-update_rows :
      (p q : A → Bool) (f : A → A) (xs : List A)
      → ((x : A) → In x xs → q x ≡ true → p (f x) ≡ true → p x ≡ true)
      → count p (update_where q f xs) ≤ count p xs
  count-update_rows p q f [] h = omega arith
  count-update_rows p q f (x ∷ xs) h =
      ground (arith, h x (inl refl), count-update_rows p q f xs (λ y i. h y (inr i)))

  pub In-find : (p : A → Bool) (x : A) (xs : List A) → find p xs ≡ some x → In x xs × (p x ≡ true)
  In-find p x [] e = cc
  In-find p x (y ∷ xs) e = elim (Bool-cases (p y)) [
    | inl f ↦ found f (rw f at e)
    | inr f ↦ let r = In-find p x xs (rw f at e) in (inr r.0, r.1)
  ]
    where
      found : p y ≡ true → some y ≡ some x → In x (y ∷ xs) × (p x ≡ true)
      found f g = let e : x ≡ y = cc in (inl e, rw e f)

module _ {A : Type 0} (p q : A → Bool) (f : A → A) (keeps : (x : A) → p (f x) ≡ p x) where
  -- An update that does not touch the test of a query updates the row that the query returns.
  pub find-update_where :
      (x : A) (xs : List A)
      → find p xs ≡ some x
      → find p (update_where q f xs) ≡ some (if q x then f x else x)
  find-update_where x [] e = cc
  find-update_where x (y ∷ ys) e = elim (Bool-cases (p y)) [
    | inl t ↦ found t (rw t at e)
    | inr t ↦
        let rest = find-update_where x ys (rw t at e) in
        elim (Bool-cases (q y)) [ inl u ↦ rw (u, keeps y, t) rest | inr u ↦ rw (u, t) rest ]
  ]
    where
      found :
          p y ≡ true
          → some y ≡ some x
          → find p (update_where q f (y ∷ ys)) ≡ some (if q x then f x else x)
      found t g =
          let e' : y ≡ x = cc in
          rw (← e')
            (elim (Bool-cases (q y)) [ inl u ↦ rw (u, keeps y, t) refl | inr u ↦ rw (u, t) refl ])

  pub find-update_where-none :
      (xs : List A) → find p xs ≡ none → find p (update_where q f xs) ≡ none
  find-update_where-none [] e = refl
  find-update_where-none (y ∷ ys) e = elim (Bool-cases (p y)) [
    | inl t ↦ absurd (ground (arith, rw t at e))
    | inr t ↦
        let rest = find-update_where-none ys (rw t at e) in
        elim (Bool-cases (q y)) [ inl u ↦ rw (u, keeps y, t) rest | inr u ↦ rw (u, t) rest ]
  ]

-- A row that no earlier row hides is the one that a query returns.
pub find-append :
    {A : Type 0} (p : A → Bool) (x : A) (xs : List A)
    → find p xs ≡ none
    → p x ≡ true
    → find p (xs ++ x ∷ []) ≡ some x
find-append p x [] e t = rw t refl
find-append p x (y ∷ ys) e t = elim (Bool-cases (p y)) [
  | inl u ↦ absurd (ground (arith, rw u at e))
  | inr u ↦ rw u (find-append p x ys (rw u at e) t)
]

-- An update that leaves no row of a kind leaves none to count.
pub count_of_updated :
    {A : Type 0} (p : A → Bool) (f : A → A)
    → ((x : A) → p (f x) ≡ false)
    → (xs : List A) → count p (update_where p f xs) ≡ 0
count_of_updated p f h [] = refl
count_of_updated p f h (x ∷ xs) = ground (arith, h x, count_of_updated p f h xs)

pub count-append {ℓ} :
    {A : Type ℓ} (p : A → Bool) (xs ys : List A) → count p (xs ++ ys) ≡ count p xs + count p ys
count-append p [] ys = omega arith
count-append p (x ∷ xs) ys = omega (arith, count-append p xs ys)

-- An update that keeps each row's key keeps the keys.
pub map-update_where {ℓ κ} :
    {A : Type ℓ} {K : Type κ} (key : A → K) (p : A → Bool) (f : A → A)
    → ((x : A) → key (f x) ≡ key x)
    → (xs : List A) → map key (update_where p f xs) ≡ map key xs
map-update_where key p f h [] = refl
map-update_where key p f h (x ∷ xs) = elim (Bool-cases (p x)) [
  | inl e ↦ rw (e, h x, map-update_where key p f h xs) refl
  | inr e ↦ rw (e, map-update_where key p f h xs) refl
]
