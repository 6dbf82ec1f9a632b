-- ===== src/Publication/Cohort/Directions.antt =====
-- The direction that a batch keeps of two opposite links.
use linking_engine_backend.Prelude.{
  ℕ, ◌≡◌, refl, sym, ◌∙◌, Bool, true, false, Option, none, List, [], ◌∷◌, map, inl, inr, ◌==◌, ltb,
  In, select, In-select, In-select_intro, elem, elem-In, In-elem, dedup, length, group_by, In-map,
  In-map_intro, In-append, In-group_by, select-ext, Bool-ext, Bool-cases, single_of_dedup, distinct,
  distinct-injective, arith, if◌then◌else◌, subst, &&-true, key_of, keys, ◌&&◌, In-append_left,
  In-append_right,
}
use linking_engine_backend.Publication.Rows.{Suggestion}
use linking_engine_backend.Publication.Cohort.{
  ids_of, same_pair, keep_direction, kept_ids, min_direction, batch_rows, free_rows, is_asked,
  direction_rank_lt,
}

pub same_pair_refl : (a : Suggestion) → same_pair a a ≡ true
same_pair_refl a = ground arith

pub same_pair_sym : (a b : Suggestion) → same_pair a b ≡ true → same_pair b a ≡ true
same_pair_sym a b h = ground arith

pub same_pair_trans :
    (a b c : Suggestion) → same_pair a b ≡ true → same_pair b c ≡ true → same_pair a c ≡ true
same_pair_trans a b c h k = ground arith

same_group :
    (a b : Suggestion) (rows : List Suggestion)
    → same_pair a b ≡ true
    → select (same_pair a) rows ≡ select (same_pair b) rows
same_group a b rows h =
    select-ext (same_pair a) (same_pair b)
      (λ x.
        Bool-ext (same_pair a x) (same_pair b x) (same_pair_trans b a x (same_pair_sym a b h))
          (same_pair_trans a b x h))
      rows

In-keep_direction : (a : Suggestion) (g : List Suggestion) → In a (keep_direction g) → In a g
In-keep_direction a [] i = i
In-keep_direction a (r ∷ rs) i =
    elim (Bool-cases
      (ltb (length (dedup (map (λ (x : Suggestion). x.source_article_id) (r ∷ rs)))) 2)) [
        | inl e ↦ rw e at i
        | inr e ↦
            (In-select (λ x. x.source_article_id == (min_direction r rs).source_article_id) a
              (r ∷ rs) (rw e at i)).0
      ]

-- What a group keeps has one source.
keep_direction_source :
    (g : List Suggestion)
    → (s : ℕ) × ((a : Suggestion) → In a (keep_direction g) → a.source_article_id ≡ s)
keep_direction_source [] = (0, λ a i. absurd i)
keep_direction_source (r ∷ rs) =
    elim (Bool-cases
      (ltb (length (dedup (map (λ (x : Suggestion). x.source_article_id) (r ∷ rs)))) 2)) [
        | inl e ↦ (
          r.source_article_id,
          λ a i.
              single_of_dedup a.source_article_id r.source_article_id
                (map (λ (x : Suggestion). x.source_article_id) rs) (ground arith)
                (In-map_intro (λ (x : Suggestion). x.source_article_id) a (r ∷ rs) (rw e at i)),
        )
        | inr e ↦ (
          (min_direction r rs).source_article_id,
          λ a i.
              let p =
                (In-select (λ x. x.source_article_id == (min_direction r rs).source_article_id) a
                  (r ∷ rs) (rw e at i)).1 in
              ground arith,
        )
      ]

In-kept_ids :
    (n : ℕ) (gs : List (List Suggestion))
    → In n (kept_ids gs)
    → (g : List Suggestion) × (r : Suggestion) × In g gs × In r (keep_direction g) × (n ≡ r.id)
In-kept_ids n [] i = absurd i
In-kept_ids n (g ∷ gs) i = elim (In-append n (ids_of (keep_direction g)) (kept_ids gs) i) [
  | inl j ↦
      let (r, k, e) = In-map (λ (x : Suggestion). x.id) n (keep_direction g) j in
      (g, r, inl refl, k, e)
  | inr j ↦ let (h, r, k, l, e) = In-kept_ids n gs j in (h, r, inr k, l, e)
]

In-kept_ids_intro :
    (g : List Suggestion) (r : Suggestion) (gs : List (List Suggestion))
    → In g gs
    → In r (keep_direction g)
    → In r.id (kept_ids gs)
In-kept_ids_intro g r [] i j = absurd i
In-kept_ids_intro g r (h ∷ gs) (inl e) j =
    In-append_left r.id (ids_of (keep_direction h)) (kept_ids gs)
      (In-map_intro (λ (x : Suggestion). x.id) r (keep_direction h) (rw e at j))
In-kept_ids_intro g r (h ∷ gs) (inr i) j =
    In-append_right r.id (ids_of (keep_direction h)) (kept_ids gs) (In-kept_ids_intro g r gs i j)

-- A row whose id is kept is itself kept by the group of its pair.
kept_row :
    (a : Suggestion) (rows : List Suggestion)
    → distinct (ids_of rows) ≡ true
    → In a rows
    → elem a.id (kept_ids (group_by same_pair rows)) ≡ true
    → In a (keep_direction (select (same_pair a) rows))
kept_row a rows d i e =
    let (g, r, j, k, f) =
      In-kept_ids a.id (group_by same_pair rows)
        (elem-In a.id (kept_ids (group_by same_pair rows)) e) in
    let (key, q) = In-group_by same_pair g rows j in
    let k' : In r (keep_direction (select (same_pair key) rows)) = rw q at k in
    let m =
      In-select (same_pair key) r rows (In-keep_direction r (select (same_pair key) rows) k') in
    let same : a ≡ r = distinct-injective (λ (x : Suggestion). x.id) a r rows d i m.0 f in
    rw same (subst (λ h. In r (keep_direction h)) (same_group key r rows m.1) k')

module _ (table : List Suggestion) (site_id : ℕ) where
  abbrev free : List Suggestion
  free = free_rows table site_id

  -- Every row of a batch is kept by the group of its pair.
  batch_row :
      (only : Option (List ℕ)) (a : Suggestion)
      → distinct (ids_of free) ≡ true
      → In a (batch_rows table site_id only)
      → In a (keep_direction (select (same_pair a) free))
  unfolding batch_rows
  batch_row only a d i =
      let m =
        In-select (λ r. elem r.id (kept_ids (group_by same_pair free)) && is_asked only r) a free
          i in
      kept_row a free d m.0
        (&&-true (elem a.id (kept_ids (group_by same_pair free))) (is_asked only a) m.1).0

  -- Two rows of a batch that join the same two articles point the same way.
  pub batch_rows_one_direction :
      (only : Option (List ℕ)) (a b : Suggestion)
      → distinct (ids_of free) ≡ true
      → In a (batch_rows table site_id only)
      → In b (batch_rows table site_id only)
      → same_pair a b ≡ true
      → a.source_article_id ≡ b.source_article_id
  batch_rows_one_direction only a b d i j e =
      let (s, at) = keep_direction_source (select (same_pair b) free) in
      let i' =
        subst (λ h. In a (keep_direction h)) (same_group a b free e) (batch_row only a d i) in
      at a i' ∙ sym (at b (batch_row only b d j))

under_second : (x y z : Suggestion) (rs : List Suggestion) → In x (y ∷ rs) → In x (y ∷ z ∷ rs)
under_second x y z rs (inl e) = inl e
under_second x y z rs (inr i) = inr (inr i)

min_direction_step :
    (b : Bool) (best r : Suggestion) (rs : List Suggestion)
    → ((x : Suggestion) → In (min_direction x rs) (x ∷ rs))
    → In (min_direction (if b then r else best) rs) (best ∷ r ∷ rs)
min_direction_step true best r rs ih = inr (ih r)
min_direction_step false best r rs ih = under_second (min_direction best rs) best r rs (ih best)

-- The row that has the winning direction is one of the group.
min_direction-In :
    (rs : List Suggestion) (best : Suggestion) → In (min_direction best rs) (best ∷ rs)
min_direction-In [] best = inl refl
min_direction-In (r ∷ rs) best =
    min_direction_step (direction_rank_lt r best) best r rs (min_direction-In rs)

keep_direction_nonempty :
    (a : Suggestion) (g : List Suggestion) → In a g → (w : Suggestion) × In w (keep_direction g)
keep_direction_nonempty a [] i = absurd i
keep_direction_nonempty a (r ∷ rs) i =
    elim (Bool-cases
      (ltb (length (dedup (map (λ (x : Suggestion). x.source_article_id) (r ∷ rs)))) 2)) [
        | inl e ↦ (r, rw e (inl refl))
        | inr e ↦ (
          min_direction r rs,
          rw e (
              In-select_intro (λ x. x.source_article_id == (min_direction r rs).source_article_id)
                (min_direction r rs) (r ∷ rs) (min_direction-In rs r) (ground arith)),
        )
      ]

module _ (table : List Suggestion) (site_id : ℕ) where
  -- Suppression loses no pair: a free row has a row of its own pair in the full batch.
  pub batch_rows_keep_pair :
      (a : Suggestion)
      → In a (free_rows table site_id)
      → (w : Suggestion) × In w (batch_rows table site_id none) × (same_pair a w ≡ true)
  unfolding batch_rows
  batch_rows_keep_pair a i =
      let rows = free_rows table site_id in
      let (k, ik, e) = key_of same_pair same_pair_refl same_pair_trans a rows i in
      let g = select (same_pair k) rows in
      let (w, iw) = keep_direction_nonempty a g (In-select_intro (same_pair k) a rows i e) in
      let m = In-select (same_pair k) w rows (In-keep_direction w g iw) in
      let kept = kept_ids (group_by same_pair rows) in
      let in_kept = In-elem w.id kept (
        In-kept_ids_intro g w (group_by same_pair rows)
          (In-map_intro (λ k. select (same_pair k) rows) k (keys same_pair rows) ik) iw) in
      (
        w,
        In-select_intro (λ r. elem r.id kept && is_asked none r) w rows m.0 (rw in_kept),
        same_pair_trans a k w (same_pair_sym k a e) m.1,
      )
