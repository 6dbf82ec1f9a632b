-- ===== src/Publication/Connector.antt =====
-- `apply_planned_edit` of app/connectors/wordpress.py.
--
-- The site is outside: `read` is the answer of an edit-context GET (the raw content, or the text
-- of the error), `post` that of a POST with the site's new state. `S` is the state of the site.
use linking_engine_backend.Prelude.{
  ℕ, ◌≡◌, refl, ap, ◌∙◌, not, String, str_eq, str_eq_iff, Option, none, some, if◌then◌else◌, Result,
  ok, err, inl, inr, ◌⊎◌, arith, Bool-cases,
}

-- PlannedEditOutcome, and the exceptions of the call
pub data EditOutcome : Type 0 where
  written already_applied stale : EditOutcome
  raised : String → EditOutcome

pub record Site (S : Type 0) : Type 0 where
  pub read : ℕ → S → Result String String
  pub post : ℕ → String → S → Result String (Unit {0}) × S

module _ {S : Type 0} (site : Site S) where
  abbrev pub after_post : Result String (Unit {0}) × S → EditOutcome × S
  after_post (ok u, s) = (written, s)
  after_post (err text, s) = (raised text, s)

  abbrev pub after_read : ℕ → String → String → S → Result String String → EditOutcome × S
  after_read post_id original_html updated_html s (err text) = (raised text, s)
  after_read post_id original_html updated_html s (ok live) =
      if str_eq live updated_html
      then (already_applied, s)
      else if not (str_eq live original_html)
      then (stale, s)
      else after_post (site.post post_id updated_html s)

  unfoldable pub apply_planned_edit : Option ℕ → String → String → S → EditOutcome × S
  apply_planned_edit none original_html updated_html s = (raised "article has no WP post id", s)
  apply_planned_edit (some post_id) original_html updated_html s =
      after_read post_id original_html updated_html s (site.read post_id s)

  module _ (external_id : Option ℕ) (original_html updated_html : String) (s : S) where
    -- The POST of the approved content is the only change that a call makes to the site, and it
    -- is made only while the live post is the approved original.
    abbrev pub Sends : S → Type 0
    Sends s' =
        (s' ≡ s)
        ⊎ ((post_id : ℕ) × (external_id ≡ some post_id)
            × (site.read post_id s ≡ ok original_html)
            × (s' ≡ (site.post post_id updated_html s).1))

    after_post_state : (r : Result String (Unit {0}) × S) → (after_post r).1 ≡ r.1
    after_post_state (ok u, s) = refl
    after_post_state (err text, s) = refl

    after_read-Sends :
        (post_id : ℕ) (o : Result String String)
        → external_id ≡ some post_id
        → site.read post_id s ≡ o
        → Sends (after_read post_id original_html updated_html s o).1
    after_read-Sends post_id (err text) e f = inl refl
    after_read-Sends post_id (ok live) e f = elim (Bool-cases (str_eq live updated_html)) [
      | inl done ↦ rw done (inl refl)
      | inr new ↦ elim (Bool-cases (str_eq live original_html)) [
        | inr changed ↦ rw (new, changed) (inl refl)
        | inl same ↦
            rw (new, same)
              (inr (
                post_id,
                e,
                f ∙ ap ok ((str_eq_iff live original_html).0 same),
                after_post_state (site.post post_id updated_html s),
              ))
      ]
    ]

  -- A call leaves the site as it was, or it makes one POST of the approved content to the post of
  -- the article, while the live content of that post is the approved original.
  pub apply_planned_edit-Sends :
      (external_id : Option ℕ) (original_html updated_html : String) (s : S)
      → Sends external_id original_html updated_html s
          (apply_planned_edit external_id original_html updated_html s).1
  unfolding apply_planned_edit
  apply_planned_edit-Sends none original_html updated_html s = inl refl
  apply_planned_edit-Sends (some post_id) original_html updated_html s =
      after_read-Sends (some post_id) original_html updated_html s post_id (site.read post_id s)
        refl refl

  post_of_written :
      (r : Result String (Unit {0}) × S) (s' : S) → after_post r ≡ (written, s') → r ≡ (ok tt, s')
  post_of_written (ok u, s) s' e = ground arith
  post_of_written (err text, s) s' e = ground arith

  read_of_written :
      (post_id : ℕ) (original_html updated_html : String) (s s' : S) (o : Result String String)
      → after_read post_id original_html updated_html s o ≡ (written, s')
      → site.post post_id updated_html s ≡ (ok tt, s')
  read_of_written post_id original_html updated_html s s' (err text) e = ground arith
  read_of_written post_id original_html updated_html s s' (ok live) e =
      elim (Bool-cases (str_eq live updated_html)) [
        | inl done ↦ let e' = rw done at e in ground arith
        | inr new ↦ elim (Bool-cases (str_eq live original_html)) [
          | inr changed ↦ let e' = rw (new, changed) at e in ground arith
          | inl same ↦ post_of_written (site.post post_id updated_html s) s' (rw (new, same) at e)
        ]
      ]

  -- On a site that returns what was saved, a call that is repeated after a write (the worker
  -- died before it recorded the write) reports the edit as applied and sends nothing.
  pub apply_planned_edit_again :
      (external_id : Option ℕ) (original_html updated_html : String) (s s' : S)
      → ((post_id : ℕ) (html : String) (t t' : S)
          → site.post post_id html t ≡ (ok tt, t')
          → site.read post_id t' ≡ ok html)
      → apply_planned_edit external_id original_html updated_html s ≡ (written, s')
      → apply_planned_edit external_id original_html updated_html s' ≡ (already_applied, s')
  unfolding apply_planned_edit
  apply_planned_edit_again none original_html updated_html s s' saved e = ground arith
  apply_planned_edit_again (some post_id) original_html updated_html s s' saved e =
      let posted =
        read_of_written post_id original_html updated_html s s' (site.read post_id s) e in
      rw (
        saved post_id updated_html s s' posted,
        after_read,
        (str_eq_iff updated_html updated_html).1 refl,
      )
