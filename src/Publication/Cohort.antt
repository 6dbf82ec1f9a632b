-- ===== src/Publication/Cohort.antt =====
-- Cohort selection (app/services/publication_plan_service.py): which selected suggestions a
-- preparation renders, in which order, and which of them are retired.
pub mod Directions
pub mod Ranks
pub mod Batch
pub mod Order
use linking_engine_backend.Prelude.{
  ◌++◌, ℕ, suc, ◌<◌, Bool, true, false, not, ◌&&◌, ◌||◌, Option, none, some, List, [], ◌∷◌, map,
  ltb, leb, ◌==◌, if◌then◌else◌, is_some_of, select, update_where, count, elem, dedup, length,
  group_by, sort,
}
use linking_engine_backend.Publication.Rows.{
  Suggestion, SuggestionStatus, is_applied, is_unbound_selection, Db,
}

-- `_bm25`
abbrev pub bm25 : Suggestion → ℕ
bm25 row = elim row.bm25_score [ none ↦ 0 | some v ↦ v ]

-- `key(a) <= key(b)` for the keys of `_publication_rank`: higher BM25, then higher cosine, then id
abbrev pub publication_rank_le : Suggestion → Suggestion → Bool
publication_rank_le a b =
    ltb (bm25 b) (bm25 a)
    || (bm25 a == bm25 b && (ltb b.score a.score || (a.score == b.score && leb a.id b.id)))

-- `key(a) < key(b)` for the keys of `_direction_rank`
abbrev pub direction_rank_lt : Suggestion → Suggestion → Bool
direction_rank_lt a b = ltb b.score a.score || (a.score == b.score && ltb a.id b.id)

-- The EXISTS subquery: the link is published the other way round.
abbrev pub is_reverse : Suggestion → Suggestion → Bool
is_reverse row r =
    is_some_of row.target_article_id r.source_article_id
    && (is_some_of r.target_article_id row.source_article_id && is_applied r.status)

abbrev pub exists_row : (Suggestion → Bool) → List Suggestion → Bool
exists_row p [] = false
exists_row p (r ∷ rs) = p r || exists_row p rs

abbrev pub reverse_applied : List Suggestion → Suggestion → Bool
reverse_applied table row = exists_row (is_reverse row) table

-- The rows of the query: this site's, selected, and bound to no plan.
abbrev pub is_candidate : ℕ → Suggestion → Bool
is_candidate site_id r = r.site_id == site_id && is_unbound_selection r

-- `only is None or row.id in only`
abbrev pub is_asked : Option (List ℕ) → Suggestion → Bool
is_asked none r = true
is_asked (some ids) r = elem r.id ids

abbrev pub ids_of : List Suggestion → List ℕ
ids_of rows = map (λ (r : Suggestion). r.id) rows

abbrev pub same_target : Option ℕ → Option ℕ → Bool
same_target none none = true
same_target none (some b) = false
same_target (some a) none = false
same_target (some a) (some b) = a == b

-- `frozenset((a.source, a.target)) == frozenset((b.source, b.target))`
abbrev pub same_pair : Suggestion → Suggestion → Bool
same_pair a b =
    (a.source_article_id == b.source_article_id
      && same_target a.target_article_id b.target_article_id)
    || (is_some_of a.target_article_id b.source_article_id
        && is_some_of b.target_article_id a.source_article_id)

abbrev pub same_source : Suggestion → Suggestion → Bool
same_source a b = a.source_article_id == b.source_article_id

abbrev pub min_direction : Suggestion → List Suggestion → Suggestion
min_direction best [] = best
min_direction best (r ∷ rs) = min_direction (if direction_rank_lt r best then r else best) rs

-- The direction that a group of one pair keeps. A group is never empty.
abbrev pub keep_direction : List Suggestion → List Suggestion
keep_direction [] = []
keep_direction (r ∷ rs) =
    if ltb (length (dedup (map (λ (x : Suggestion). x.source_article_id) (r ∷ rs)))) 2
    then r ∷ rs
    else select (λ x. x.source_article_id == (min_direction r rs).source_article_id) (r ∷ rs)

-- The ids of `kept`, over the groups of `by_pair`.
abbrev pub kept_ids : List (List Suggestion) → List ℕ
kept_ids [] = []
kept_ids (g ∷ gs) = ids_of (keep_direction g) ++ kept_ids gs

-- An article's rows, best first, and the score of the best.
pub record Group : Type 0 where
  pub source_article_id : ℕ
  pub rows : List Suggestion
  pub score : ℕ

abbrev group_of_sorted : List Suggestion → Group
group_of_sorted [] = record { source_article_id = 0; rows = []; score = 0 }
group_of_sorted (r ∷ rs) = record {
  source_article_id = r.source_article_id;
  rows = r ∷ rs;
  score = r.score;
}

abbrev pub rank_group : List Suggestion → Group
rank_group rows = group_of_sorted (sort publication_rank_le rows)

-- Articles by the score of their first row, then by id.
abbrev pub group_le : Group → Group → Bool
group_le a b =
    ltb b.score a.score || (a.score == b.score && leb a.source_article_id b.source_article_id)

-- The rows whose reverse direction is not published.
unfoldable pub free_rows : List Suggestion → ℕ → List Suggestion
free_rows table site_id =
    select (λ r. not (reverse_applied table r)) (select (is_candidate site_id) table)

unfoldable pub superseded_ids : List Suggestion → ℕ → Option (List ℕ) → List ℕ
superseded_ids table site_id only =
    ids_of (
      select (is_asked only) (select (reverse_applied table) (select (is_candidate site_id) table)))

-- `kept` first, `only` second.
unfoldable pub batch_rows : List Suggestion → ℕ → Option (List ℕ) → List Suggestion
unfolding free_rows
batch_rows table site_id only =
    let rows = free_rows table site_id in
    let kept = kept_ids (group_by same_pair rows) in
    select (λ r. elem r.id kept && is_asked only r) rows

unfoldable pub batch_groups : List Suggestion → ℕ → Option (List ℕ) → List Group
unfolding batch_rows
batch_groups table site_id only =
    sort group_le (map rank_group (group_by same_source (batch_rows table site_id only)))

-- The articles with the ids of their suggestions, and the ids to retire.
unfoldable pub grouped_batch : List Suggestion → ℕ → Option (List ℕ) → List (ℕ × List ℕ) × List ℕ
unfolding batch_groups superseded_ids
grouped_batch table site_id only = (
  map (λ (g : Group). (g.source_article_id, ids_of g.rows)) (batch_groups table site_id only),
  superseded_ids table site_id only,
)

abbrev is_expirable : List ℕ → Suggestion → Bool
is_expirable ids r = elem r.id ids && is_unbound_selection r

-- The number of rows that were retired, and the new table.
unfoldable pub expire_superseded : List ℕ → Db → ℕ × Db
expire_superseded [] db = (0, db)
expire_superseded (n ∷ ns) db = (
  count (is_expirable (n ∷ ns)) db.suggestions,
  record db {
    suggestions =
        update_where (is_expirable (n ∷ ns)) (λ r. record r { status = SuggestionStatus.expired })
          db.suggestions;
  },
)
