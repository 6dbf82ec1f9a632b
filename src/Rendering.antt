-- ===== src/Rendering.antt =====
-- The rendering of links into a WordPress post (app/connectors/wordpress.py).
--
-- A content is the list of its code points. Outside, and parameters: the matches of the regular
-- expressions (tags, shortcodes, an anchor, the marker of our own links), `str.lower`,
-- `html.escape`, and the hrefs that the HTML parser finds (none in a blank content). The prose of a post is in Regions.
pub mod Regions
pub mod Balance
pub mod Slices
pub mod Placement
pub mod Preview
mod Tests
use linking_engine_backend.Prelude.{
  ℕ, zero, suc, ◌+◌, ◌-◌, ◌==◌, Bool, true, false, not, ◌&&◌, ◌||◌, String, Option, none, some,
  List, [], ◌∷◌, ◌++◌, if◌then◌else◌, ltb, leb, length, take, select, str_eq,
}
use linking_engine_backend.Publication.Rows.{LinkOutcome}
use linking_engine_backend.Policy.Pool.{text_eq, is_empty_text}
use linking_engine_backend.External.Policy.{elem_text}
use linking_engine_backend.Rendering.Regions.{Tag, Span, prose_regions}

-- What the two settings and the texts of a link are.
pub record Limits : Type 0 where
  -- settings.publish_max_in_text_links_per_article
  pub max_links : ℕ
  -- settings.publish_min_in_text_gap_chars
  pub min_gap : ℕ

-- A suggestion, as the rendering reads it
pub record Link : Type 0 where
  pub target_url : List ℕ
  pub anchor_text : Option (List ℕ)
  pub target_title : List ℕ

pub record Page : Type 0 where
  pub lower : String → String
  pub tags : List ℕ → List Tag
  pub shortcodes : List ℕ → List Span
  -- the matches of `_anchor_regex(anchor)` in a content
  pub anchors : List ℕ → List ℕ → List Span
  -- the starts of `_IN_TEXT_MARK`
  pub marks : List ℕ → List ℕ
  pub escape : List ℕ → List ℕ
  -- `<a data-linkmesh="in-text" href="...">`, and `_READ_ALSO_BLOCK`
  pub open_tag : List ℕ → List ℕ
  pub read_also : List ℕ → List ℕ → List ℕ
  pub hrefs : List ℕ → List (List ℕ)

abbrev pub drop_chars : ℕ → List ℕ → List ℕ
drop_chars zero cs = cs
drop_chars (suc n) [] = []
drop_chars (suc n) (c ∷ cs) = drop_chars n cs

-- `content[start:end]`
abbrev pub slice : ℕ → ℕ → List ℕ → List ℕ
slice start end cs = drop_chars start (take end cs)

abbrev pub exists_span : (Span → Bool) → List Span → Bool
exists_span p [] = false
exists_span p (s ∷ spans) = p s || exists_span p spans

abbrev pub is_inside : Span → Span → Bool
is_inside s region = leb region.start s.start && leb s.end region.end

abbrev pub overlaps : Span → Span → Bool
overlaps s code = ltb code.start s.end && ltb s.start code.end

abbrev pub only_one : List Span → Option Span
only_one [] = none
only_one (s ∷ []) = some s
only_one (s ∷ t ∷ spans) = none

-- "</a>"
abbrev pub close_tag : List ℕ
close_tag = 60 ∷ 47 ∷ 97 ∷ 62 ∷ []

abbrev pub text_or : Option (List ℕ) → List ℕ → List ℕ
text_or none other = other
text_or (some t) other = if is_empty_text t then other else t

module _ (page : Page) (limits : Limits) where
  abbrev pub near_mark : Span → List ℕ → Bool
  near_mark s [] = false
  near_mark s (m ∷ marks) =
      (ltb s.start (m + limits.min_gap) && ltb m (s.end + limits.min_gap)) || near_mark s marks

  -- A gap of 0 turns the check off.
  abbrev pub crowds_existing_link : List ℕ → Span → Bool
  crowds_existing_link content s = not (limits.min_gap == 0) && near_mark s (page.marks content)

  abbrev pub is_safe_span : List ℕ → Span → Bool
  is_safe_span content s =
      exists_span (is_inside s) (prose_regions page.lower (page.tags content) (length content))
      && not (exists_span (overlaps s) (page.shortcodes content))

  unfoldable pub anchor_span : List ℕ → List ℕ → Option Span
  anchor_span content anchor =
      only_one (select (is_safe_span content) (page.anchors anchor content))

  abbrev pub at_limit : List ℕ → Bool
  at_limit content = leb limits.max_links (length (page.marks content))

  abbrev pub placed_span : List ℕ → Option (List ℕ) → Option Span
  placed_span content none = none
  placed_span content (some anchor) =
      if is_empty_text anchor || at_limit content then none else anchor_span content anchor

  abbrev pub spliced : List ℕ → List ℕ → Span → List ℕ
  spliced content href s =
      take s.start content
      ++ (page.open_tag href
          ++ (slice s.start s.end content ++ (close_tag ++ drop_chars s.end content)))

  abbrev pub appended : List ℕ → List ℕ → Link → List ℕ
  appended content href l =
      content ++ page.read_also href (page.escape (text_or l.anchor_text l.target_title))

  abbrev pub insert_at : List ℕ → Link → Option Span → List ℕ × LinkOutcome
  insert_at content l none = (appended content (page.escape l.target_url) l, LinkOutcome.block)
  insert_at content l (some s) =
      if not (crowds_existing_link content s)
      then (spliced content (page.escape l.target_url) s, LinkOutcome.inserted)
      else (appended content (page.escape l.target_url) l, LinkOutcome.block)

  unfoldable pub insert_link : List ℕ → Link → List ℕ × LinkOutcome
  unfolding anchor_span
  insert_link content l = insert_at content l (placed_span content l.anchor_text)

  abbrev pub preview_rest : List (List ℕ) → List ℕ → List Link → List ℕ × List LinkOutcome
  preview_rest existing content [] = (content, [])
  preview_rest existing content (l ∷ links) =
      let step = insert_link content l in
      let skipped = preview_rest existing content links in
      let linked = preview_rest (l.target_url ∷ existing) step.0 links in
      if elem_text l.target_url existing
      then (skipped.0, LinkOutcome.already_present ∷ skipped.1)
      else (linked.0, step.1 ∷ linked.1)

  -- The content that a preview shows, and what became of each suggestion, for the content that the
  -- site returned.
  unfoldable pub preview_links : List ℕ → List Link → List ℕ × List LinkOutcome
  unfolding insert_link
  preview_links content [] = ([], [])
  preview_links content (l ∷ links) = preview_rest (page.hrefs content) content (l ∷ links)
