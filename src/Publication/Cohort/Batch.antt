-- ===== src/Publication/Cohort/Batch.antt =====
-- What the grouped batch holds: the ids of the batch's rows, each article's in rank order.
use linking_engine_backend.Prelude.{
  ℕ, ◌≡◌, sym, inl, inr, ◌∙◌, ap, subst, true, false, not, ◌&&◌, Option, none, some, List, [], ◌∷◌,
  map, ◌↔◌, In, select, In-select, In-select_intro, elem, elem-In, In-elem, group_by, In-map,
  In-map_intro, In-group_by, In-group_by_intro, &&-true, sort, In-sort, In-sort_intro, distinct,
  distinct-injective, arith, distinct-select,
}
use linking_engine_backend.Publication.Rows.{Suggestion, is_selected, is_applied}
use linking_engine_backend.Publication.Cohort.{
  ids_of, is_reverse, same_pair, same_source, batch_rows, free_rows, is_asked, is_candidate,
  batch_groups, grouped_batch, Group, rank_group, group_le, publication_rank_le, reverse_applied,
  kept_ids,
}
use linking_engine_backend.Publication.Cohort.Directions.{
  batch_rows_one_direction, batch_rows_keep_pair,
}
use linking_engine_backend.Publication.Cohort.Ranks.{
  batch_ids, same_source_refl, same_source_trans, In-batch_ids, group_rows, In-batch_ids_intro,
}

-- What makes a suggestion part of a batch, said of its fields.
pub record IsEligible (table : List Suggestion) (site_id : ℕ) (only : Option (List ℕ))
    (r : Suggestion) : Type 0 where
  pub of_site : r.site_id ≡ site_id
  pub selected : is_selected r.status ≡ true
  pub unbound : r.publication_plan_id ≡ none
  pub not_reversed :
      (w : Suggestion)
      → In w table
      → is_applied w.status ≡ true
      → r.target_article_id ≡ some w.source_article_id
      → ¬ (w.target_article_id ≡ some r.source_article_id)
  pub named : (ns : List ℕ) → only ≡ some ns → In r.id ns

not_reversed :
    (r : Suggestion) (rows : List Suggestion)
    → reverse_applied rows r ≡ false
    → (w : Suggestion) → In w rows
    → is_applied w.status ≡ true
    → r.target_article_id ≡ some w.source_article_id
    → ¬ (w.target_article_id ≡ some r.source_article_id)
not_reversed r [] v w i status there back = i
not_reversed r (x ∷ rows) v w (inl same) status there back =
    let head : is_reverse r x ≡ false = ground (arith, v) in
    let head' : is_reverse r w ≡ false = subst (λ y. is_reverse r y ≡ false) (sym same) head in
    absurd (ground (arith, rw (there, back, status) at head'))
not_reversed r (x ∷ rows) v w (inr i) status there back =
    not_reversed r rows (ground (arith, v)) w i status there back

module _ (table : List Suggestion) (site_id : ℕ) (only : Option (List ℕ)) where
  abbrev rows : List Suggestion
  rows = batch_rows table site_id only

  abbrev ids : List ℕ
  ids = batch_ids (grouped_batch table site_id only).0

  -- Grouping and sorting neither lose a row of the batch nor add one.
  batch_row_of_id : (n : ℕ) → In n ids → (r : Suggestion) × In r rows × (n ≡ r.id)
  unfolding grouped_batch
  batch_row_of_id n i =
      let (g, ig, j) = In-batch_ids n (batch_groups table site_id only) i in
      let (source_rows, k, e) =
        In-map rank_group g (group_by same_source rows)
          (In-sort group_le g (map rank_group (group_by same_source rows)) ig) in
      let (r, l, f) = In-map (λ (x : Suggestion). x.id) n g.rows j in
      let e' = ap (λ (x : Group). x.rows) e ∙ group_rows (sort publication_rank_le source_rows) in
      let l' = In-sort publication_rank_le r source_rows (subst (λ h. In r h) e' l) in
      let (key, q) = In-group_by same_source source_rows rows k in
      (r, (In-select (same_source key) r rows (subst (λ h. In r h) q l')).0, f)

  id_of_batch_row : (r : Suggestion) → In r rows → In r.id ids
  unfolding grouped_batch
  id_of_batch_row r i =
      let (source_rows, k, j) =
        In-group_by_intro same_source same_source_refl same_source_trans r rows i in
      In-batch_ids_intro r.id (rank_group source_rows) (batch_groups table site_id only)
        (In-sort_intro group_le (rank_group source_rows)
          (map rank_group (group_by same_source rows))
          (In-map_intro rank_group source_rows (group_by same_source rows) k))
        (In-map_intro (λ (x : Suggestion). x.id) r (rank_group source_rows).rows
          (subst (λ h. In r h) (sym (group_rows (sort publication_rank_le source_rows)))
            (In-sort_intro publication_rank_le r source_rows j)))

  -- A row of the batch is one of the table: of the site, selected, bound to no plan, asked for,
  -- and with no published link the other way.
  batch_row_facts :
      (r : Suggestion)
      → In r rows
      → In r table
        × (is_candidate site_id r ≡ true)
        × (reverse_applied table r ≡ false)
        × (is_asked only r ≡ true)
        × In r (free_rows table site_id)
  unfolding batch_rows
  batch_row_facts r i =
      let kept = kept_ids (group_by same_pair (free_rows table site_id)) in
      let (j, e) =
        In-select (λ x. elem x.id kept && is_asked only x) r (free_rows table site_id) i in
      let (k, f) =
        In-select (λ x. not (reverse_applied table x)) r (select (is_candidate site_id) table) j in
      let (l, g) = In-select (is_candidate site_id) r table k in
      (l, g, ground arith, ground arith, j)

  -- Every id of a batch is that of a row of the table which is of the site, selected, part of no
  -- plan and, where suggestions are named, one of them; no applied row of the table links its two
  -- articles the other way round.
  pub grouped_batch_sound :
      (n : ℕ)
      → In n ids
      → (r : Suggestion) × In r table × (n ≡ r.id) × IsEligible table site_id only r
  grouped_batch_sound n i =
      let (r, j, e) = batch_row_of_id n i in
      let (k, c, v, q, _) = batch_row_facts r j in
      (
        r,
        k,
        e,
        record {
          of_site = ground (arith, c);
          selected = ground (arith, c);
          unbound = ground (arith, c);
          not_reversed = λ w l status there back. not_reversed r table v w l status there back;
          named = λ ns f. elem-In r.id ns (subst (λ o. is_asked o r ≡ true) f q);
        },
      )

module _ (table : List Suggestion) (site_id : ℕ) (unique : distinct (ids_of table) ≡ true) where
  free_unique : distinct (ids_of (free_rows table site_id)) ≡ true
  unfolding free_rows
  free_unique =
      distinct-select (λ (x : Suggestion). x.id) (λ x. not (reverse_applied table x))
        (select (is_candidate site_id) table)
        (distinct-select (λ (x : Suggestion). x.id) (is_candidate site_id) table unique)

  table_row :
      (only : Option (List ℕ)) (a : Suggestion)
      → In a table
      → In a.id (batch_ids (grouped_batch table site_id only).0)
      → In a (batch_rows table site_id only)
  table_row only a i j =
      let (r, k, e) = batch_row_of_id table site_id only a.id j in
      let same =
        distinct-injective (λ (x : Suggestion). x.id) a r table unique i
          (batch_row_facts table site_id only r k).0 e in
      rw same k

  one_direction :
      (only : Option (List ℕ)) (a b : Suggestion)
      → In a table
      → In b table
      → In a.id (batch_ids (grouped_batch table site_id only).0)
      → In b.id (batch_ids (grouped_batch table site_id only).0)
      → a.target_article_id ≡ some b.source_article_id
      → b.target_article_id ≡ some a.source_article_id
      → a.source_article_id ≡ b.source_article_id
  one_direction only a b i j ia jb p q =
      batch_rows_one_direction table site_id only a b free_unique (table_row only a i ia)
        (table_row only b j jb) (ground arith)

  -- With the ids as a primary key, of two suggestions that link two different articles to one
  -- another no batch holds both.
  pub grouped_batch_no_mutual_link :
      (only : Option (List ℕ)) (a b : Suggestion)
      → In a table
      → In b table
      → a.target_article_id ≡ some b.source_article_id
      → b.target_article_id ≡ some a.source_article_id
      → ¬ (a.source_article_id ≡ b.source_article_id)
      → ¬ (
          In a.id (batch_ids (grouped_batch table site_id only).0)
          × In b.id (batch_ids (grouped_batch table site_id only).0))
  grouped_batch_no_mutual_link only a b i j p q differ both =
      differ (one_direction only a b i j both.0 both.1 p q)

  -- A batch narrowed to named suggestions holds exactly the named ones of the full batch.
  pub grouped_batch_narrowing :
      (named : List ℕ) (r : Suggestion)
      → In r table
      → In r.id (batch_ids (grouped_batch table site_id (some named)).0)
        ↔ (In r.id (batch_ids (grouped_batch table site_id none).0) × In r.id named)
  unfolding batch_rows
  grouped_batch_narrowing named r i =
      let kept = kept_ids (group_by same_pair (free_rows table site_id)) in
      let free = free_rows table site_id in
      (
        (λ j.
            let (k, e) =
              In-select (λ x. elem x.id kept && is_asked (some named) x) r free
                (table_row (some named) r i j) in
            (
              id_of_batch_row table site_id none r (
                  In-select_intro (λ x. elem x.id kept && is_asked none x) r free k (ground arith)),
              elem-In r.id named (&&-true (elem r.id kept) (elem r.id named) e).1,
            )),
        (λ h.
            let (k, e) =
              In-select (λ x. elem x.id kept && is_asked none x) r free (table_row none r i h.0) in
            let f = In-elem r.id named h.1 in
            id_of_batch_row table site_id (some named) r (
              In-select_intro (λ x. elem x.id kept && is_asked (some named) x) r free k
                (ground arith))),
      )

-- A selected, unbound suggestion of the site whose link is not published the other way has, in
-- the full batch, a suggestion for the same two articles: suppression drops a direction only
-- where the other is kept.
pub grouped_batch_covers_pairs :
    (table : List Suggestion) (site_id : ℕ) (a : Suggestion)
    → In a table
    → is_candidate site_id a ≡ true
    → reverse_applied table a ≡ false
    → (w : Suggestion) × In w table
      × In w.id (batch_ids (grouped_batch table site_id none).0)
      × (same_pair a w ≡ true)
unfolding free_rows
grouped_batch_covers_pairs table site_id a i c v =
    let (w, k, e) = batch_rows_keep_pair table site_id a (
      In-select_intro (λ r. not (reverse_applied table r)) a (select (is_candidate site_id) table)
        (In-select_intro (is_candidate site_id) a table i c) (rw v)) in
    (w, (batch_row_facts table site_id none w k).0, id_of_batch_row table site_id none w k, e)
