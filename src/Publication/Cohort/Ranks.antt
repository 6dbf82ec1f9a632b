-- ===== src/Publication/Cohort/Ranks.antt =====
-- The ranks of suggestions and articles, and the groups of a batch.
use linking_engine_backend.Prelude.{
  ℕ, ◌≡◌, refl, subst, true, false, List, [], ◌∷◌, ◌++◌, map, inl, inr, In, In-append, arith,
  In-append_left, In-append_right,
}
use linking_engine_backend.Publication.Rows.{Suggestion}
use linking_engine_backend.Publication.Cohort.{
  ids_of, same_source, Group, group_le, publication_rank_le, group_of_sorted,
}

-- The suggestion ids of all articles of a batch.
abbrev pub batch_ids : List (ℕ × List ℕ) → List ℕ
batch_ids [] = []
batch_ids ((source, ids) ∷ rest) = ids ++ batch_ids rest

pub publication_rank_total :
    (a b : Suggestion) → publication_rank_le a b ≡ false → publication_rank_le b a ≡ true
publication_rank_total a b h = ground arith

pub publication_rank_trans :
    (a b c : Suggestion)
    → publication_rank_le a b ≡ true
    → publication_rank_le b c ≡ true
    → publication_rank_le a c ≡ true
publication_rank_trans a b c h k = ground arith

pub group_total : (a b : Group) → group_le a b ≡ false → group_le b a ≡ true
group_total a b h = ground arith

pub group_trans : (a b c : Group) → group_le a b ≡ true → group_le b c ≡ true → group_le a c ≡ true
group_trans a b c h k = ground arith

pub same_source_refl : (a : Suggestion) → same_source a a ≡ true
same_source_refl a = ground arith

pub same_source_trans :
    (a b c : Suggestion) → same_source a b ≡ true → same_source b c ≡ true → same_source a c ≡ true
same_source_trans a b c h k = ground arith

pub In-batch_ids :
    (n : ℕ) (gs : List Group)
    → In n (batch_ids (map (λ (g : Group). (g.source_article_id, ids_of g.rows)) gs))
    → (g : Group) × In g gs × In n (ids_of g.rows)
In-batch_ids n [] i = absurd i
In-batch_ids n (g ∷ gs) i =
    elim (In-append n (ids_of g.rows)
      (batch_ids (map (λ (g : Group). (g.source_article_id, ids_of g.rows)) gs)) i) [
        | inl j ↦ (g, inl refl, j)
        | inr j ↦ let (h, k, l) = In-batch_ids n gs j in (h, inr k, l)
      ]

pub group_rows : (rows : List Suggestion) → (group_of_sorted rows).rows ≡ rows
group_rows [] = refl
group_rows (r ∷ rs) = refl

pub In-batch_ids_intro :
    (n : ℕ) (g : Group) (gs : List Group)
    → In g gs
    → In n (ids_of g.rows)
    → In n (batch_ids (map (λ (g : Group). (g.source_article_id, ids_of g.rows)) gs))
In-batch_ids_intro n g [] i j = absurd i
In-batch_ids_intro n g (h ∷ gs) (inl e) j =
    In-append_left n (ids_of h.rows)
      (batch_ids (map (λ (g : Group). (g.source_article_id, ids_of g.rows)) gs))
      (subst (λ (x : Group). In n (ids_of x.rows)) e j)
In-batch_ids_intro n g (h ∷ gs) (inr i) j =
    In-append_right n (ids_of h.rows)
      (batch_ids (map (λ (g : Group). (g.source_article_id, ids_of g.rows)) gs))
      (In-batch_ids_intro n g gs i j)
