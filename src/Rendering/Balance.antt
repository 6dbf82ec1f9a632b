-- ===== src/Rendering/Balance.antt =====
-- The count of open elements (`_prose_regions` of app/connectors/wordpress.py) against a
-- description that looks at the open elements themselves.
use linking_engine_backend.Prelude.{
  ℕ, ◌≡◌, refl, ap, ◌∙◌, ◌==◌, Bool, true, not, ◌&&◌, String, str_eq, Option, none, some, List, [],
  ◌∷◌, ◌++◌, if◌then◌else◌, ltb, count, count-append, Bool-cases, inl, inr, arith,
}
use linking_engine_backend.Rendering.Regions.{
  Span, Tag, Scan, is_void, is_unlisted, prose_open, with_region, cut_at, close_at, open_element,
  named_tag, scan_tag, scan, prose_regions,
}

-- Prose: no open element is unlisted, and there is a text container unless nothing is open.
abbrev pub all_listed : List String → Bool
all_listed [] = true
all_listed (n ∷ ns) = not (is_unlisted n) && all_listed ns

abbrev pub is_prose : List String → Bool
is_prose stack = all_listed stack && prose_open stack

-- The scan without a count.
pub record Outline : Type 0 where
  pub stack : List String
  pub cursor : ℕ
  pub regions : List Span

abbrev pub outlined_region : ℕ → Outline → List Span
outlined_region to o =
    if is_prose o.stack && ltb o.cursor to
    then o.regions ++ record { start = o.cursor; end = to } ∷ []
    else o.regions

abbrev pub closed_stack : Option (List String × List String) → List String → List String
closed_stack none stack = stack
closed_stack (some cut) stack = cut.1

module _ (lower : String → String) where
  abbrev pub outlined_stack : Tag → Option String → List String → List String
  outlined_stack tag none stack = stack
  outlined_stack tag (some name) stack =
      if tag.closing
      then closed_stack (cut_at (lower name) stack) stack
      else if not tag.self_closing && not (is_void (lower name))
      then lower name ∷ stack
      else stack

  abbrev pub outline : List Tag → Outline → Outline
  outline [] o = o
  outline (tag ∷ tags) o = outline tags (record {
    stack = outlined_stack tag tag.name o.stack;
    cursor = tag.end;
    regions = outlined_region tag.start o;
  })

abbrev outline_of : Scan → Outline
outline_of s = record { stack = s.stack; cursor = s.cursor; regions = s.regions }

abbrev IsBalanced : Scan → Type 0
IsBalanced s = s.blocked ≡ count is_unlisted s.stack

count_zero : (ns : List String) → (count is_unlisted ns == 0) ≡ all_listed ns
count_zero [] = refl
count_zero (n ∷ ns) = ground (arith, count_zero ns)

with_region_lem :
    (to : ℕ) (s : Scan) → IsBalanced s → with_region to s ≡ outlined_region to (outline_of s)
with_region_lem to s balanced =
    rw (balanced, count_zero s.stack)
      (elim (Bool-cases (all_listed s.stack)) [ inl e ↦ rw e refl | inr e ↦ rw e refl ])

abbrev pushed : String → Option (List String × List String) → Option (List String × List String)
pushed n none = none
pushed n (some r) = some (n ∷ r.0, r.1)

pushed_append :
    (n : String) (stack : List String) (o : Option (List String × List String))
    (closed left : List String)
    → ((c l : List String) → o ≡ some (c, l) → c ++ l ≡ stack)
    → pushed n o ≡ some (closed, left)
    → closed ++ left ≡ n ∷ stack
pushed_append n stack none closed left h g = absurd (ground (arith, g))
pushed_append n stack (some r) closed left h g =
    let c : n ∷ r.0 ≡ closed = ground (arith, g) in
    let l : r.1 ≡ left = ground (arith, g) in rw (← c, ← l) (ap (λ ns. n ∷ ns) (h r.0 r.1 refl))

cut_at-append :
    (name : String) (stack closed left : List String)
    → cut_at name stack ≡ some (closed, left)
    → closed ++ left ≡ stack
cut_at-append name [] closed left e = absurd (ground arith)
cut_at-append name (n ∷ stack) closed left e = elim (Bool-cases (str_eq n name)) [
  | inl u ↦
      let same : some (n ∷ [], stack) ≡ some (closed, left) = rw u at e in
      let c : n ∷ [] ≡ closed = ground (arith, same) in
      let l : stack ≡ left = ground (arith, same) in rw (← c, ← l) refl
  | inr u ↦
      pushed_append n stack (cut_at name stack) closed left
        (λ c l f. cut_at-append name stack c l f) (deeper (cut_at name stack) (rw u at e))
]
  where
    deeper :
        (o : Option (List String × List String))
        → elim o as (λ _. Option (List String × List String)) [
          | none ↦ none
          | some r ↦ some (n ∷ r.0, r.1)
        ]
          ≡ some (closed, left)
        → pushed n o ≡ some (closed, left)
    deeper none g = g
    deeper (some r) g = g

close_at-IsBalanced :
    (cut : Option (List String × List String)) (s : Scan)
    → ((closed left : List String) → cut ≡ some (closed, left) → closed ++ left ≡ s.stack)
    → IsBalanced s
    → IsBalanced (close_at cut s)
close_at-IsBalanced none s h balanced = balanced
close_at-IsBalanced (some (closed, left)) s h balanced =
    let same = ap (count is_unlisted) (h closed left refl) in
    omega (arith, balanced, same, count-append is_unlisted closed left)

open_element-IsBalanced :
    (name : String) (self_closing : Bool) (s : Scan)
    → IsBalanced s
    → IsBalanced (open_element name self_closing s)
open_element-IsBalanced name self_closing s balanced =
    elim (Bool-cases (not self_closing && not (is_void name))) [
      | inl e ↦ rw e (omega (arith, balanced))
      | inr e ↦ rw e balanced
    ]

module _ (lower : String → String) where
  named_tag-IsBalanced :
      (tag : Tag) (name : Option String) (s : Scan)
      → IsBalanced s
      → IsBalanced (named_tag lower tag name s)
        × (outline_of (named_tag lower tag name s)
            ≡ record (outline_of s) { stack = outlined_stack lower tag name s.stack })
  named_tag-IsBalanced tag none s balanced = (balanced, refl)
  named_tag-IsBalanced tag (some name) s balanced = elim (Bool-cases tag.closing) [
    | inl c ↦ rw c (
      close_at-IsBalanced (cut_at (lower name) s.stack) s (cut_at-append (lower name) s.stack)
          balanced,
      closed (cut_at (lower name) s.stack),
    )
    | inr c ↦ rw c (open_element-IsBalanced (lower name) tag.self_closing s balanced, opened)
  ]
    where
      closed :
          (cut : Option (List String × List String))
          → outline_of (close_at cut s) ≡ record (outline_of s) { stack = closed_stack cut s.stack }
      closed none = refl
      closed (some cut) = refl

      opened : outline_of (open_element (lower name) tag.self_closing s) ≡ record (outline_of s) {
        stack =
            if not tag.self_closing && not (is_void (lower name))
            then lower name ∷ s.stack
            else s.stack;
      }
      opened = elim (Bool-cases (not tag.self_closing && not (is_void (lower name)))) [
        | inl e ↦ rw e refl
        | inr e ↦ rw e refl
      ]

  scan_lem :
      (tags : List Tag) (s : Scan)
      → IsBalanced s
      → IsBalanced (scan lower tags s)
        × (outline_of (scan lower tags s) ≡ outline lower tags (outline_of s))
  scan_lem [] s balanced = (balanced, refl)
  scan_lem (tag ∷ tags) s balanced =
      let entered : Scan = record s { regions = with_region tag.start s; cursor = tag.end } in
      let (after, seen) = named_tag-IsBalanced tag tag.name entered balanced in
      let (last, same) = scan_lem tags (scan_tag lower tag s) after in
      (
        last,
        same
            ∙ ap (outline lower tags) (
                seen
                ∙ ap
                    (λ rs. record {
                      stack = outlined_stack lower tag tag.name s.stack;
                      cursor = tag.end;
                      regions = rs;
                    })
                    (with_region_lem tag.start s balanced)),
      )

  -- The prose of a post, which the code finds with a running count of the open elements that are
  -- not on its list, is what a scan finds that looks at all open elements at each tag.
  pub prose_regions_lem :
      (tags : List Tag) (n : ℕ)
      → prose_regions lower tags n
        ≡ outlined_region n (outline lower tags (record { stack = []; cursor = 0; regions = [] }))
  unfolding prose_regions
  prose_regions_lem tags n =
      let start : Scan = record { stack = []; blocked = 0; cursor = 0; regions = [] } in
      let (balanced, same) = scan_lem tags start refl in
      with_region_lem n (scan lower tags start) balanced ∙ ap (outlined_region n) same
