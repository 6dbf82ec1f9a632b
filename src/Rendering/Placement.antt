-- ===== src/Rendering/Placement.antt =====
-- Where links are placed (`_insert_link` of app/connectors/wordpress.py).
use linking_engine_backend.Prelude.{
  ℕ, ◌+◌, ◌≤◌, ◌<◌, ◌==◌, ◌⊎◌, ◌++◌, take, All-map, All-In, In-select_intro, ◌≡◌, refl, sym, subst,
  ap, Bool, true, false, not-true, ◌||◌, &&-true, Option, none, some, List, [], ◌∷◌, length, select,
  All, In, In-select, Bool-cases, inl, inr, arith,
}
use linking_engine_backend.Publication.Rows.{LinkOutcome}
use linking_engine_backend.Policy.Pool.{is_empty_text}
use linking_engine_backend.Rendering.Regions.{Span, prose_regions}
use linking_engine_backend.Rendering.{
  Page, Limits, Link, exists_span, is_inside, overlaps, only_one, crowds_existing_link,
  is_safe_span, anchor_span, at_limit, placed_span, spliced, drop_chars, slice, near_mark,
  insert_at, insert_link,
}
use linking_engine_backend.Rendering.Slices.{length-take, parts_of_slice, length-slice}

exists_span-In :
    (p : Span → Bool) (spans : List Span)
    → exists_span p spans ≡ true
    → (s : Span) × In s spans × (p s ≡ true)
exists_span-In p [] e = absurd (ground arith)
exists_span-In p (s ∷ spans) e = elim (Bool-cases (p s)) [
  | inl y ↦ (s, inl refl, y)
  | inr n ↦ let (t, i, y) = exists_span-In p spans (rw n at e) in (t, inr i, y)
]

none_of_spans :
    (p : Span → Bool) (spans : List Span)
    → exists_span p spans ≡ false
    → All (λ (s : Span). p s ≡ false) spans
none_of_spans p [] e = tt
none_of_spans p (s ∷ spans) e = (ground (arith, e), none_of_spans p spans (ground (arith, e)))

only_one_lem : (spans : List Span) (s : Span) → only_one spans ≡ some s → spans ≡ s ∷ []
only_one_lem [] s e = absurd (ground arith)
only_one_lem (t ∷ []) s e = ap (λ (u : Span). u ∷ []) (ground (arith, e))
only_one_lem (t ∷ u ∷ spans) s e = absurd (ground (arith, e))

exists_span_intro :
    (p : Span → Bool) (s : Span) (spans : List Span)
    → In s spans
    → p s ≡ true
    → exists_span p spans ≡ true
exists_span_intro p s [] i y = absurd i
exists_span_intro p s (t ∷ spans) (inl e) y = let y' : p t ≡ true = rw e at y in rw y' refl
exists_span_intro p s (t ∷ spans) (inr i) y = ground (arith, exists_span_intro p s spans i y)

no_span :
    (p : Span → Bool) (spans : List Span)
    → All (λ (s : Span). p s ≡ false) spans
    → exists_span p spans ≡ false
no_span p [] h = refl
no_span p (s ∷ spans) h = rw (h.0) (no_span p spans h.1)

overlap_lem :
    (s code : Span) → overlaps s code ≡ false → (s.end ≤ code.start) ⊎ (code.end ≤ s.start)
overlap_lem s code e = ground (arith, e)

one_element : (t s : Span) → In t (s ∷ []) → t ≡ s
one_element t s (inl e) = e
one_element t s (inr i) = absurd i

-- The matches of an anchor lie in the content that they are found in.
abbrev pub AreMatches : Page → Type 0
AreMatches page =
    (anchor content : List ℕ)
    → All (λ (s : Span). (s.start ≤ s.end) × (s.end ≤ length content)) (page.anchors anchor content)

module _ (page : Page) (limits : Limits) (content : List ℕ) where
  -- A span in the prose that no shortcode overlaps.
  abbrev pub IsProseSpan : Span → Type 0
  IsProseSpan s =
      ((region : Span) × In region (prose_regions page.lower (page.tags content) (length content))
        × (region.start ≤ s.start)
        × (s.end ≤ region.end))
      × All (λ (code : Span). (s.end ≤ code.start) ⊎ (code.end ≤ s.start)) (page.shortcodes content)

  -- No link of ours is nearer than the gap, where there is one.
  abbrev pub IsApart : Span → Type 0
  IsApart s =
      (limits.min_gap ≡ 0)
      ⊎ All (λ (mark : ℕ). (mark + limits.min_gap ≤ s.start) ⊎ (s.end + limits.min_gap ≤ mark))
          (page.marks content)

  -- The content with a link to `href` around what the span covers, all else as it was. The
  -- numbers are `</a>`.
  abbrev pub IsSpliced : List ℕ → Span → List ℕ → Type 0
  IsSpliced href s content' =
      (before covered after : List ℕ) × (content ≡ before ++ (covered ++ after))
      × (length before ≡ s.start)
      × (s.start + length covered ≡ s.end)
      × (content'
          ≡ before ++ (page.open_tag href ++ (covered ++ ((60 ∷ 47 ∷ 97 ∷ 62 ∷ []) ++ after))))

  -- The link is around the one match of its anchor that stands in the prose, with room for one
  -- more and clear of the others.
  pub record IsPlaced (l : Link) (content' : List ℕ) : Type 0 where
    pub anchor : List ℕ
    pub has_anchor : l.anchor_text ≡ some anchor
    pub span : Span
    pub is_match : In span (page.anchors anchor content)
    pub is_prose : IsProseSpan span
    pub is_only : (t : Span) → In t (page.anchors anchor content) → IsProseSpan t → t ≡ span
    pub has_room : length (page.marks content) < limits.max_links
    pub is_apart : IsApart span
    pub is_spliced : IsSpliced (page.escape l.target_url) span content'

  is_safe_span-IsProseSpan : (s : Span) → is_safe_span page limits content s ≡ true → IsProseSpan s
  is_safe_span-IsProseSpan s e =
      let (inside, apart) =
        &&-true
          (exists_span (is_inside s)
            (prose_regions page.lower (page.tags content) (length content)))
          _ e in
      let (region, i, f) = exists_span-In (is_inside s) _ inside in
      (
        (region, i, ground (arith, f), ground (arith, f)),
        All-map (λ (code : Span). overlaps s code ≡ false)
            (λ (code : Span). (s.end ≤ code.start) ⊎ (code.end ≤ s.start))
            (λ code g. overlap_lem s code g) (page.shortcodes content)
            (none_of_spans (overlaps s) (page.shortcodes content) (not-true _ apart)),
      )

  IsProseSpan-is_safe_span : (s : Span) → IsProseSpan s → is_safe_span page limits content s ≡ true
  IsProseSpan-is_safe_span s ((region, i, f, g), apart) =
      let inside =
        exists_span_intro (is_inside s) region
          (prose_regions page.lower (page.tags content) (length content)) i
          (ground (arith, f, g)) in
      let clear = no_span (overlaps s) (page.shortcodes content) (
        All-map (λ (code : Span). (s.end ≤ code.start) ⊎ (code.end ≤ s.start))
          (λ (code : Span). overlaps s code ≡ false) (λ code h. ground (arith, h))
          (page.shortcodes content) apart) in
      rw (inside, clear) refl

  IsApart_lem : (s : Span) → crowds_existing_link page limits content s ≡ false → IsApart s
  IsApart_lem s e = elim (Bool-cases (limits.min_gap == 0)) [
    | inl z ↦ inl (ground (arith, z))
    | inr n ↦ inr (far s (page.marks content) (rw n at e))
  ]
    where
      far :
          (s : Span) (marks : List ℕ)
          → near_mark page limits s marks ≡ false
          → All
              (λ (mark : ℕ). (mark + limits.min_gap ≤ s.start) ⊎ (s.end + limits.min_gap ≤ mark))
              marks
      far s [] e = tt
      far s (mark ∷ marks) e = (ground (arith, e), far s marks (ground (arith, e)))

  spliced-IsSpliced :
      (href : List ℕ) (s : Span)
      → s.start ≤ s.end
      → s.end ≤ length content
      → IsSpliced href s (spliced page limits content href s)
  spliced-IsSpliced href s h k = (
    take s.start content,
    slice s.start s.end content,
    drop_chars s.end content,
    sym (parts_of_slice s.start s.end content h),
    length-take s.start content (ground (arith, h, k)),
    length-slice s.start s.end content h k,
    refl,
  )

  pub spliced-IsPlaced :
      AreMatches page
      → (l : Link) (s : Span) → placed_span page limits content l.anchor_text ≡ some s
      → crowds_existing_link page limits content s ≡ false
      → IsPlaced l (spliced page limits content (page.escape l.target_url) s)
  unfolding anchor_span
  spliced-IsPlaced m l s e far = at l.anchor_text refl e
    where
      at :
          (t : Option (List ℕ))
          → l.anchor_text ≡ t
          → placed_span page limits content t ≡ some s
          → IsPlaced l (spliced page limits content (page.escape l.target_url) s)
      at none f g = absurd (ground (arith, g))
      at (some anchor) f g =
          elim (Bool-cases (is_empty_text anchor || at_limit page limits content)) [
            | inl y ↦ absurd (ground (arith, rw y at g))
            | inr n ↦
                let safe =
                  select (is_safe_span page limits content) (page.anchors anchor content) in
                let only = only_one_lem safe s (rw n at g) in
                let (i, is_safe) =
                  In-select (is_safe_span page limits content) s (page.anchors anchor content)
                    (rw only (inl refl)) in
                let (h, k) =
                  All-In (λ (s : Span). (s.start ≤ s.end) × (s.end ≤ length content)) s
                    (page.anchors anchor content) i (m anchor content) in
                record {
                  anchor = anchor;
                  has_anchor = f;
                  span = s;
                  is_match = i;
                  is_prose = is_safe_span-IsProseSpan s is_safe;
                  is_only = λ t j p. one_element t s (
                      subst (In t) only (
                        In-select_intro (is_safe_span page limits content) t
                          (page.anchors anchor content) j (IsProseSpan-is_safe_span t p)));
                  has_room = ground (arith, n);
                  is_apart = IsApart_lem s far;
                  is_spliced = spliced-IsSpliced (page.escape l.target_url) s h k;
                }
          ]

  -- A link that is reported as inserted, on matches that lie in their content, is put around the
  -- one match of its anchor that stands inside a prose region and clear of shortcodes. The content
  -- had room for one more link in the text, none of them is nearer than the gap, and apart from the
  -- two tags it is unchanged.
  pub insert_link-IsProseSpan :
      AreMatches page
      → (l : Link) (content' : List ℕ)
      → insert_link page limits content l ≡ (content', LinkOutcome.inserted)
      → IsPlaced l content'
  unfolding insert_link
  insert_link-IsProseSpan m l content' e = at (placed_span page limits content l.anchor_text) refl e
    where
      at :
          (o : Option Span)
          → placed_span page limits content l.anchor_text ≡ o
          → insert_at page limits content l o ≡ (content', LinkOutcome.inserted)
          → IsPlaced l content'
      at none f g = absurd (ground (arith, g))
      at (some s) f g = elim (Bool-cases (crowds_existing_link page limits content s)) [
        | inl y ↦ absurd (ground (arith, rw y at g))
        | inr n ↦
            subst (IsPlaced l) (ap (λ (r : List ℕ × LinkOutcome). r.0) (rw n at g))
              (spliced-IsPlaced m l s f n)
      ]
