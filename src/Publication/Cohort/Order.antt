-- ===== src/Publication/Cohort/Order.antt =====
-- The order of a batch (`grouped_batch` of app/services/publication_plan_service.py): its articles,
-- and the suggestions of each.
use linking_engine_backend.Prelude.{
  ℕ, ◌≡◌, refl, sym, subst, true, ◌<◌, ◌≤◌, none, some, Option, List, [], ◌∷◌, map, In, All, In-All,
  inl, inr, ◌⊎◌, In-map, In-select, group_by, group_by-inhabited, sort, sort-IsSorted, In-sort,
  In-sort_intro, Pairwise, IsSorted-Pairwise, arith,
}
use linking_engine_backend.Publication.Rows.{Suggestion}
use linking_engine_backend.Publication.Cohort.{
  bm25, same_source, batch_rows, batch_groups, Group, group_of_sorted, rank_group, group_le,
  publication_rank_le,
}
use linking_engine_backend.Publication.Cohort.Ranks.{
  publication_rank_total, publication_rank_trans, group_total, group_trans, same_source_refl,
}

-- The BM25 score that a row counts with: a missing one is 0.
abbrev pub HasBm25 : Suggestion → ℕ → Type 0
HasBm25 r v = (r.bm25_score ≡ some v) ⊎ ((r.bm25_score ≡ none) × (v ≡ 0))

-- Higher BM25 first, then higher cosine, then lower id.
abbrev pub IsAhead : Suggestion → Suggestion → Type 0
IsAhead a b =
    (v w : ℕ)
    → HasBm25 a v
    → HasBm25 b w
    → (w < v) ⊎ ((v ≡ w) × ((b.score < a.score) ⊎ ((a.score ≡ b.score) × (a.id ≤ b.id))))

-- The higher score first, then the lower article id.
abbrev pub ComesFirst : Group → Group → Type 0
ComesFirst a b =
    (b.score < a.score) ⊎ ((a.score ≡ b.score) × (a.source_article_id ≤ b.source_article_id))

-- The rows of one article, the best ahead, and the cosine of the best as the score.
abbrev pub IsRanked : Group → Type 0
IsRanked g =
    (best : Suggestion) × (rest : List Suggestion) × (g.rows ≡ best ∷ rest)
    × (g.score ≡ best.score)
    × All (λ (r : Suggestion). r.source_article_id ≡ g.source_article_id) g.rows
    × Pairwise IsAhead g.rows

HasBm25_lem : (r : Suggestion) (v : ℕ) → HasBm25 r v → bm25 r ≡ v
HasBm25_lem r v (inl e) = rw e refl
HasBm25_lem r v (inr (e, f)) = rw (e, f) refl

publication_rank-IsAhead : (a b : Suggestion) → publication_rank_le a b ≡ true → IsAhead a b
publication_rank-IsAhead a b e v w h k =
    let e' = rw (HasBm25_lem a v h, HasBm25_lem b w k) at e in ground (arith, e')

group_le-ComesFirst : (a b : Group) → group_le a b ≡ true → ComesFirst a b
group_le-ComesFirst a b e = ground (arith, e)

ranked :
    (source : ℕ) (rows : List Suggestion) (r : Suggestion)
    → In r rows
    → All (λ (x : Suggestion). x.source_article_id ≡ source) rows
    → Pairwise IsAhead rows
    → IsRanked (group_of_sorted rows)
ranked source [] r i one ahead = absurd i
ranked source (best ∷ rest) r i one ahead = (
  best,
  rest,
  refl,
  refl,
  subst (λ n. All (λ (x : Suggestion). x.source_article_id ≡ n) (best ∷ rest)) (sym one.0) one,
  ahead,
)

rank_group-IsRanked :
    (rows : List Suggestion) (source_rows : List Suggestion)
    → In source_rows (group_by same_source rows)
    → IsRanked (rank_group source_rows)
rank_group-IsRanked rows source_rows i =
    let (key, j, is_group) = group_by-inhabited same_source same_source_refl source_rows rows i in
    ranked key.source_article_id (sort publication_rank_le source_rows) key
      (In-sort_intro publication_rank_le key source_rows j)
      (In-All (λ (x : Suggestion). x.source_article_id ≡ key.source_article_id)
        (sort publication_rank_le source_rows)
        λ x k.
          let l = subst (In x) is_group (In-sort publication_rank_le x source_rows k) in
          let (_, same) = In-select (same_source key) x rows l in ground (arith, same))
      (IsSorted-Pairwise publication_rank_le IsAhead publication_rank-IsAhead
        (sort publication_rank_le source_rows)
        (sort-IsSorted publication_rank_le publication_rank_total publication_rank_trans
          source_rows))

-- The articles of a batch come by falling score, and by rising id where two scores are equal. Each
-- has at least one row, all of its rows are the article's, and its score is the cosine of its first
-- row; its rows come by falling BM25 score (a missing one counts 0), then by falling cosine, then
-- by rising id.
pub batch_groups_ordered :
    (table : List Suggestion) (site_id : ℕ) (only : Option (List ℕ))
    → Pairwise ComesFirst (batch_groups table site_id only)
      × All IsRanked (batch_groups table site_id only)
unfolding batch_groups
batch_groups_ordered table site_id only =
    let rows = batch_rows table site_id only in
    let gs = map rank_group (group_by same_source rows) in
    (
      IsSorted-Pairwise group_le ComesFirst group_le-ComesFirst (sort group_le gs)
          (sort-IsSorted group_le group_total group_trans gs),
      In-All IsRanked (sort group_le gs) λ g i.
          let (source_rows, k, e) =
            In-map rank_group g (group_by same_source rows) (In-sort group_le g gs i) in
          subst IsRanked (sym e) (rank_group-IsRanked rows source_rows k),
    )
