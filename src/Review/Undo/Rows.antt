-- ===== src/Review/Undo/Rows.antt =====
-- The rows before a bulk rule and after its undo (app/api/routes/suggestions.py).
use linking_engine_backend.Prelude.{
  ℕ, ◌≡◌, refl, sym, subst, Bool, true, false, List, [], ◌∷◌, map, if◌then◌else◌, select,
  update_where, count, elem, length, distinct, elem-In, In-elem, In-map, In-map_intro, In-select,
  In-select_intro, Bool-ext, distinct-injective, In, Bool-cases, inl, inr, arith,
}
use linking_engine_backend.Publication.Rows.{Suggestion, SuggestionStatus}
use linking_engine_backend.Publication.Cohort.{ids_of}
use linking_engine_backend.Review.{status_code}

-- A query holds the id of a row exactly if the row passes its test.
pub elem_of_selected :
    (p : Suggestion → Bool) (s : Suggestion) (rows : List Suggestion)
    → distinct (ids_of rows) ≡ true
    → In s rows
    → elem s.id (ids_of (select p rows)) ≡ p s
elem_of_selected p s rows keys i =
    Bool-ext (elem s.id (ids_of (select p rows))) (p s)
      (λ e.
        let (x, j, same) =
          In-map (λ (x : Suggestion). x.id) s.id (select p rows)
            (elem-In s.id (ids_of (select p rows)) e) in
        let (k, passes) = In-select p x rows j in
        subst (λ y. p y ≡ true)
          (distinct-injective (λ (x : Suggestion). x.id) x s rows keys k i (sym same)) passes)
      (λ e.
        In-elem s.id (ids_of (select p rows)) (
          In-map_intro (λ (x : Suggestion). x.id) s (select p rows) (In-select_intro p s rows i e)))

abbrev pub id_and_status : Suggestion → ℕ × SuggestionStatus
id_and_status s = (s.id, s.status)

-- Two updates that give each row its id and status back.
pub map_restored :
    (q t : Suggestion → Bool) (f g : Suggestion → Suggestion) (rows : List Suggestion)
    → ((s : Suggestion)
        → In s rows
        → id_and_status (
            if t (if q s then f s else s)
            then g (if q s then f s else s)
            else (if q s then f s else s))
          ≡ id_and_status s)
    → map id_and_status (update_where t g (update_where q f rows)) ≡ map id_and_status rows
map_restored q t f g [] h = refl
map_restored q t f g (s ∷ rows) h =
    cc (h s (inl refl), map_restored q t f g rows (λ x i. h x (inr i)))

-- As many rows are restored as were changed.
pub count_restored :
    (q t : Suggestion → Bool) (f : Suggestion → Suggestion) (rows : List Suggestion)
    → ((s : Suggestion) → In s rows → t (if q s then f s else s) ≡ q s)
    → count t (update_where q f rows) ≡ length (ids_of (select q rows))
count_restored q t f [] h = refl
count_restored q t f (s ∷ rows) h = elim (Bool-cases (q s)) [
  | inl e ↦
      let here : t (f s) ≡ true = rw e at (h s (inl refl)) in
      rw (e, here) (ground (arith, count_restored q t f rows (λ x i. h x (inr i))))
  | inr e ↦
      let here : t s ≡ false = rw e at (h s (inl refl)) in
      rw (e, here) (ground (arith, count_restored q t f rows (λ x i. h x (inr i))))
]

pub status_code_injective : (a b : SuggestionStatus) → status_code a ≡ status_code b → a ≡ b
status_code_injective a b e = ground (arith, e)
