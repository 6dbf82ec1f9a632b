-- ===== src/Rendering/Regions.antt =====
-- The prose of a post (`_prose_regions` of app/connectors/wordpress.py).
--
-- The stack of open elements has the innermost one first. The matches of the tag expression are
-- given in order; a comment has no name.
use linking_engine_backend.Prelude.{
  ℕ, ◌+◌, ◌-◌, ◌==◌, Bool, true, false, not, ◌&&◌, ◌||◌, String, str_eq, Option, none, some, List,
  [], ◌∷◌, ◌++◌, if◌then◌else◌, ltb, count,
}

pub record Span : Type 0 where
  pub start : ℕ
  pub end : ℕ

pub record Tag : Type 0 where
  pub start : ℕ
  pub end : ℕ
  pub closing : Bool
  pub name : Option String
  pub self_closing : Bool

abbrev pub elem_name : String → List String → Bool
elem_name n [] = false
elem_name n (m ∷ ms) = str_eq n m || elem_name n ms

-- _SPLICE_OK
abbrev pub splice_ok : List String
splice_ok =
    "div" ∷ "section" ∷ "article" ∷ "main" ∷ "ul" ∷ "ol" ∷ "dl" ∷ "p" ∷ "li" ∷ "dd" ∷ "em"
    ∷ "strong" ∷ "b" ∷ "i" ∷ "u" ∷ "span" ∷ "small" ∷ "sub" ∷ "sup" ∷ "mark" ∷ []

-- _SPLICE_TEXT
abbrev pub splice_text : List String
splice_text = "p" ∷ "li" ∷ "dd" ∷ []

-- _VOID_ELEMENTS
abbrev pub void_elements : List String
void_elements =
    "area" ∷ "base" ∷ "br" ∷ "col" ∷ "embed" ∷ "hr" ∷ "img" ∷ "input" ∷ "link" ∷ "meta" ∷ "param"
    ∷ "source" ∷ "track" ∷ "wbr" ∷ []

unfoldable pub is_unlisted : String → Bool
is_unlisted name = not (elem_name name splice_ok)

unfoldable pub is_void : String → Bool
is_void name = elem_name name void_elements

abbrev pub has_text : List String → Bool
has_text [] = false
has_text (n ∷ ns) = elem_name n splice_text || has_text ns

abbrev pub prose_open : List String → Bool
prose_open [] = true
prose_open (n ∷ ns) = has_text (n ∷ ns)

pub record Scan : Type 0 where
  pub stack : List String
  pub blocked : ℕ
  pub cursor : ℕ
  pub regions : List Span

abbrev pub with_region : ℕ → Scan → List Span
with_region to s =
    if s.blocked == 0 && (prose_open s.stack && ltb s.cursor to)
    then s.regions ++ record { start = s.cursor; end = to } ∷ []
    else s.regions

-- The open elements that a closing tag closes, and those that stay open.
abbrev pub cut_at : String → List String → Option (List String × List String)
cut_at name [] = none
cut_at name (n ∷ ns) =
    let rest = cut_at name ns in
    if str_eq n name
    then some (n ∷ [], ns)
    else elim rest [ none ↦ none | some r ↦ some (n ∷ r.0, r.1) ]

abbrev pub close_at : Option (List String × List String) → Scan → Scan
close_at none s = s
close_at (some cut) s = record s { stack = cut.1; blocked = s.blocked - count is_unlisted cut.0 }

abbrev pub open_element : String → Bool → Scan → Scan
open_element name self_closing s =
    if not self_closing && not (is_void name)
    then record s {
      stack = name ∷ s.stack;
      blocked = s.blocked + (if is_unlisted name then 1 else 0);
    }
    else s

module _ (lower : String → String) where
  abbrev pub named_tag : Tag → Option String → Scan → Scan
  named_tag tag none s = s
  named_tag tag (some name) s =
      if tag.closing
      then close_at (cut_at (lower name) s.stack) s
      else open_element (lower name) tag.self_closing s

  abbrev pub scan_tag : Tag → Scan → Scan
  scan_tag tag s =
      named_tag tag tag.name (record s { regions = with_region tag.start s; cursor = tag.end })

  abbrev pub scan : List Tag → Scan → Scan
  scan [] s = s
  scan (tag ∷ tags) s = scan tags (scan_tag tag s)

  -- `length` is that of the content.
  unfoldable pub prose_regions : List Tag → ℕ → List Span
  unfolding is_unlisted is_void
  prose_regions tags length =
      with_region length (scan tags (record { stack = []; blocked = 0; cursor = 0; regions = [] }))
