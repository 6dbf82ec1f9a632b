-- ===== src/Rendering/Tests.antt =====
-- A post of one paragraph with a code sample, and two suggestions to one target.
use linking_engine_backend.Prelude.{
  ℕ, arith, ◌≡◌, refl, true, false, String, some, List, [], ◌∷◌, ◌++◌,
}
use linking_engine_backend.Publication.Rows.{LinkOutcome}
use linking_engine_backend.Rendering.Regions.{Span, Tag, prose_regions, is_unlisted, is_void}
use linking_engine_backend.Rendering.Balance.{outline, outlined_region, prose_regions_lem}
use linking_engine_backend.Rendering.Placement.{AreMatches, IsPlaced, insert_link-IsProseSpan}
use linking_engine_backend.Rendering.Preview.{LinksOnce, AreWritten, preview_links-LinksOnce}
use linking_engine_backend.Rendering.{Page, Limits, Link, insert_link, preview_links}

abbrev open_tag : ℕ → ℕ → String → Tag
open_tag start end name = record {
  start = start;
  end = end;
  closing = false;
  name = some name;
  self_closing = false;
}

abbrev close_tag_of : ℕ → ℕ → String → Tag
close_tag_of start end name = record (open_tag start end name) { closing = true }

-- <p>ab<code>c</code>d</p>
abbrev post_tags : List Tag
post_tags =
    open_tag 0 3 "p"
    ∷ open_tag 5 11 "code"
    ∷ close_tag_of 12 19 "code"
    ∷ close_tag_of 20 24 "p"
    ∷ []

code_is_no_prose :
    prose_regions (λ t. t) post_tags 24
    ≡ record { start = 3; end = 5 } ∷ record { start = 19; end = 20 } ∷ []
unfolding prose_regions is_unlisted is_void
code_is_no_prose = refl

prose_regions_lem_example :
    prose_regions (λ t. t) post_tags 24
    ≡ outlined_region 24
        (outline (λ t. t) post_tags (record { stack = []; cursor = 0; regions = [] }))
prose_regions_lem_example = prose_regions_lem (λ t. t) post_tags 24

-- A content without tags: the anchor is its first point.
abbrev first_point : Span
first_point = record { start = 0; end = 1 }

abbrev first_match : List ℕ → List ℕ → List Span
first_match anchor [] = []
first_match anchor (c ∷ cs) = first_point ∷ []

abbrev page : Page
page = record {
  lower = λ t. t;
  tags = λ c. [];
  shortcodes = λ c. [];
  anchors = first_match;
  marks = λ c. [];
  escape = λ t. t;
  open_tag = λ href. 1 ∷ href;
  read_also = λ href anchor. 2 ∷ href ++ anchor;
  hrefs = λ c. [];
}

abbrev limits : Limits
limits = record { max_links = 3; min_gap = 100 }

abbrev link : Link
link = record { target_url = 9 ∷ []; anchor_text = some (5 ∷ []); target_title = 8 ∷ [] }

-- 5 6 becomes <a>5</a> 6.
abbrev rendered : List ℕ
rendered = 1 ∷ 9 ∷ 5 ∷ 60 ∷ 47 ∷ 97 ∷ 62 ∷ 6 ∷ []

link_is_inserted : insert_link page limits (5 ∷ 6 ∷ []) link ≡ (rendered, LinkOutcome.inserted)
unfolding insert_link prose_regions
link_is_inserted = refl

first_point_is_match : AreMatches page
first_point_is_match anchor [] = tt
first_point_is_match anchor (c ∷ cs) = ((omega arith, ground arith), tt)

insert_link-IsProseSpan_example : IsPlaced page limits (5 ∷ 6 ∷ []) link rendered
insert_link-IsProseSpan_example =
    insert_link-IsProseSpan page limits (5 ∷ 6 ∷ []) first_point_is_match link rendered
      link_is_inserted

second_is_present :
    (preview_links page limits (5 ∷ 6 ∷ []) (link ∷ link ∷ [])).1
    ≡ LinkOutcome.inserted ∷ LinkOutcome.already_present ∷ []
unfolding preview_links prose_regions
second_is_present = refl

preview_links-LinksOnce_example :
    let r = preview_links page limits (5 ∷ 6 ∷ []) (link ∷ link ∷ []) in
    LinksOnce page limits [] (link ∷ link ∷ []) r.1
    × AreWritten page limits (5 ∷ 6 ∷ []) (link ∷ link ∷ []) r.1 r.0
preview_links-LinksOnce_example =
    preview_links-LinksOnce page limits (5 ∷ 6 ∷ []) link (link ∷ []) first_point_is_match
