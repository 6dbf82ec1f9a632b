-- ===== src/Rendering/Preview.antt =====
-- How often a preview links a target, and what it writes (`preview_links` of
-- app/connectors/wordpress.py).
use linking_engine_backend.Prelude.{
  ℕ, ◌≡◌, ◌≢◌, refl, sym, subst, true, false, ◌||◌, ◌⊎◌, Option, none, some, List, [], ◌∷◌, ◌++◌,
  length, All, Bool-cases, inl, inr, arith,
}
use linking_engine_backend.Publication.Rows.{LinkOutcome}
use linking_engine_backend.Policy.Pool.{text_eq}
use linking_engine_backend.External.Policy.{elem_text}
use linking_engine_backend.Rendering.Regions.{Span}
use linking_engine_backend.Rendering.{
  Page, Limits, Link, crowds_existing_link, placed_span, text_or, appended, insert_at, insert_link,
  preview_rest, preview_links,
}
use linking_engine_backend.Rendering.Placement.{AreMatches, IsPlaced, spliced-IsPlaced}

-- The targets of the links that were written, in order.
abbrev pub written_target : Link → LinkOutcome → List (List ℕ) → List (List ℕ)
written_target l LinkOutcome.inserted ts = l.target_url ∷ ts
written_target l LinkOutcome.block ts = l.target_url ∷ ts
written_target l LinkOutcome.already_present ts = ts

abbrev pub written_targets : List Link → List LinkOutcome → List (List ℕ)
written_targets [] os = []
written_targets (l ∷ links) [] = []
written_targets (l ∷ links) (o ∷ os) =
    let rest = written_targets links os in written_target l o rest

-- No target is in the list or written twice.
abbrev pub IsFresh : List (List ℕ) → List (List ℕ) → Type 0
IsFresh existing [] = Unit {0}
IsFresh existing (t ∷ ts) = (elem_text t existing ≡ false) × IsFresh (t ∷ existing) ts

-- Each link's target was there or has been written.
abbrev pub AreLinked : List (List ℕ) → List (List ℕ) → List Link → Type 0
AreLinked existing ts links =
    All (λ (l : Link). (elem_text l.target_url existing || elem_text l.target_url ts) ≡ true) links

text_eq_refl : (t : List ℕ) → text_eq t t ≡ true
text_eq_refl [] = refl
text_eq_refl (c ∷ cs) = ground (arith, text_eq_refl cs)

AreLinked-skip :
    (t : List ℕ) (existing ts : List (List ℕ)) (links : List Link)
    → AreLinked (t ∷ existing) ts links
    → AreLinked existing (t ∷ ts) links
AreLinked-skip t existing ts [] all = tt
AreLinked-skip t existing ts (l ∷ links) (here, all) =
    (ground (arith, here), AreLinked-skip t existing ts links all)

module _ (page : Page) (limits : Limits) where
  insert_at_writes :
      (content : List ℕ) (l : Link) (o : Option Span) (ts : List (List ℕ))
      → written_target l (insert_at page limits content l o).1 ts ≡ l.target_url ∷ ts
  insert_at_writes content l none ts = refl
  insert_at_writes content l (some s) ts =
      elim (Bool-cases (crowds_existing_link page limits content s)) [
        | inl e ↦ rw e refl
        | inr e ↦ rw e refl
      ]

  insert_link_writes :
      (content : List ℕ) (l : Link) (ts : List (List ℕ))
      → written_target l (insert_link page limits content l).1 ts ≡ l.target_url ∷ ts
  unfolding insert_link
  insert_link_writes content l ts =
      insert_at_writes content l (placed_span page limits content l.anchor_text) ts

  -- What a preview does to each target.
  abbrev pub LinksOnce : List (List ℕ) → List Link → List LinkOutcome → Type 0
  LinksOnce existing links outcomes =
      IsFresh existing (written_targets links outcomes)
      × AreLinked existing (written_targets links outcomes) links
      × (length outcomes ≡ length links)

  preview_rest-LinksOnce :
      (existing : List (List ℕ)) (content : List ℕ) (links : List Link)
      → LinksOnce existing links (preview_rest page limits existing content links).1
  preview_rest-LinksOnce existing content [] = (tt, tt, refl)
  preview_rest-LinksOnce existing content (l ∷ links) =
      elim (Bool-cases (elem_text l.target_url existing)) [
        | inl e ↦
            let (fresh, linked, as_many) = preview_rest-LinksOnce existing content links in
            let rest = (preview_rest page limits existing content links).1 in
            let outcomes : (preview_rest page limits existing content (l ∷ links)).1
                ≡ LinkOutcome.already_present ∷ rest =
              rw e refl in
            subst (LinksOnce existing (l ∷ links)) (sym outcomes)
              (fresh, (ground (arith, e), linked), ground (arith, as_many))
        | inr e ↦
            let step = insert_link page limits content l in
            let (fresh, linked, as_many) =
              preview_rest-LinksOnce (l.target_url ∷ existing) step.0 links in
            let rest = (preview_rest page limits (l.target_url ∷ existing) step.0 links).1 in
            let outcomes : (preview_rest page limits existing content (l ∷ links)).1
                ≡ step.1 ∷ rest =
              rw e refl in
            let ts = written_targets links rest in
            let here : (elem_text l.target_url existing
                  || elem_text l.target_url (l.target_url ∷ ts))
                ≡ true =
              ground (arith, text_eq_refl l.target_url) in
            let as_many' : length (step.1 ∷ rest) ≡ length (l ∷ links) = ground (arith, as_many) in
            subst (LinksOnce existing (l ∷ links)) (sym outcomes) (
              subst
                (λ written.
                  IsFresh existing written
                  × AreLinked existing written (l ∷ links)
                  × (length (step.1 ∷ rest) ≡ length (l ∷ links)))
                (sym (insert_link_writes content l ts))
                (
                  (e, fresh),
                  (here, AreLinked-skip l.target_url existing ts links linked),
                  as_many',
                ))
      ]

-- The text of a block's link: the anchor, or the title of the target without one.
abbrev pub IsLabel : Link → List ℕ → Type 0
IsLabel l label =
    ((l.anchor_text ≡ some label) × (label ≢ []))
    ⊎ (((l.anchor_text ≡ none) ⊎ (l.anchor_text ≡ some [])) × (label ≡ l.target_title))

text_or-IsLabel :
    (l : Link) (t : Option (List ℕ)) → l.anchor_text ≡ t → IsLabel l (text_or t l.target_title)
text_or-IsLabel l none e = inr (inl e, refl)
text_or-IsLabel l (some []) e = inr (inr e, refl)
text_or-IsLabel l (some (c ∷ cs)) e = inl (e, λ f. cc)

module _ (page : Page) (limits : Limits) where
  -- What a link does to the content, by what is reported of it.
  abbrev pub IsWritten : List ℕ → Link → LinkOutcome → List ℕ → Type 0
  IsWritten content l LinkOutcome.inserted content' = IsPlaced page limits content l content'
  IsWritten content l LinkOutcome.block content' =
      (label : List ℕ) × IsLabel l label
      × (content' ≡ content ++ page.read_also (page.escape l.target_url) (page.escape label))
  IsWritten content l LinkOutcome.already_present content' = content' ≡ content

  -- The links are written one after the other, each into what the last one left.
  abbrev pub AreWritten : List ℕ → List Link → List LinkOutcome → List ℕ → Type 0
  AreWritten content [] [] content' = content' ≡ content
  AreWritten content [] (o ∷ os) content' = ⊥
  AreWritten content (l ∷ links) [] content' = ⊥
  AreWritten content (l ∷ links) (o ∷ os) content' =
      (next : List ℕ) × IsWritten content l o next × AreWritten next links os content'

  appended-IsWritten :
      (content : List ℕ) (l : Link)
      → IsWritten content l LinkOutcome.block
          (appended page limits content (page.escape l.target_url) l)
  appended-IsWritten content l =
      (text_or l.anchor_text l.target_title, text_or-IsLabel l l.anchor_text refl, refl)

  insert_link-IsWritten :
      (content : List ℕ) (l : Link)
      → AreMatches page
      → IsWritten content l
          (insert_link page limits content l).1
          (insert_link page limits content l).0
  unfolding insert_link
  insert_link-IsWritten content l m = at (placed_span page limits content l.anchor_text) refl
    where
      at :
          (o : Option Span)
          → placed_span page limits content l.anchor_text ≡ o
          → IsWritten content l
              (insert_at page limits content l o).1
              (insert_at page limits content l o).0
      at none f = appended-IsWritten content l
      at (some s) f = elim (Bool-cases (crowds_existing_link page limits content s)) [
        | inl e ↦ rw e (appended-IsWritten content l)
        | inr e ↦ rw e (spliced-IsPlaced page limits content m l s f e)
      ]

  preview_rest-AreWritten :
      (existing : List (List ℕ)) (content : List ℕ) (links : List Link)
      → AreMatches page
      → AreWritten content links
          (preview_rest page limits existing content links).1
          (preview_rest page limits existing content links).0
  preview_rest-AreWritten existing content [] m = refl
  preview_rest-AreWritten existing content (l ∷ links) m =
      elim (Bool-cases (elem_text l.target_url existing)) [
        | inl e ↦ rw e (content, refl, preview_rest-AreWritten existing content links m)
        | inr e ↦
            let step = insert_link page limits content l in
            rw e (
              step.0,
              insert_link-IsWritten content l m,
              preview_rest-AreWritten (l.target_url ∷ existing) step.0 links m,
            )
      ]

-- A preview of at least one link, on matches that lie in their content, has one outcome for each
-- link and writes the links one after the other: an inserted one is spliced around its anchor, a
-- block is appended with the target and the anchor (or title), and one that is already present
-- leaves the content as it is. Afterwards each target is linked: it was in a link of the post
-- before, or it has been written exactly once. No target is written that was in a link before.
pub preview_links-LinksOnce :
    (page : Page) (limits : Limits) (content : List ℕ) (l : Link) (links : List Link)
    → AreMatches page
    → let r = preview_links page limits content (l ∷ links) in
      LinksOnce page limits (page.hrefs content) (l ∷ links) r.1
      × AreWritten page limits content (l ∷ links) r.1 r.0
unfolding preview_links
preview_links-LinksOnce page limits content l links m = (
  preview_rest-LinksOnce page limits (page.hrefs content) content (l ∷ links),
  preview_rest-AreWritten page limits (page.hrefs content) content (l ∷ links) m,
)
