-- ===== src/Publication/Tests/Preparations.antt =====
-- The preparation of an article while its older plan is approved, and without interference.
use linking_engine_backend.Prelude.{
  ◌≡◌, refl, List, [], ◌∷◌, ◌⊎◌, In, inl, ok, arith, String, Result,
}
use linking_engine_backend.Publication.Rows.{Suggestion, inserted}
use linking_engine_backend.Publication.Preparation.{
  Turn, LinkPreview, error, prepare_one, approved_plan_covers,
}
use linking_engine_backend.Publication.Preparation.Plans.{IsSingle}
use linking_engine_backend.Publication.Preparation.Outcome.{
  prepare_one-IsSingle, prepare_one_keeps_approved,
}
use linking_engine_backend.Publication.Tests.Data.{
  digest, prepared_plan, approved_plan, prepared_db, approved_db,
}

abbrev preview : List Suggestion → Result String LinkPreview
preview rows =
    ok (record { original_content = "old"; updated_content = "newer"; outcomes = inserted ∷ [] })

abbrev quiet : Turn
quiet = record {
  source_url = "https://a.example/7";
  preview_links = preview;
  during_preview = λ db. db;
  rivals = [];
}

-- The operator approves the older plan during the request.
abbrev racing : Turn
racing = record {
  source_url = "https://a.example/7";
  preview_links = preview;
  during_preview = λ db. approved_db;
  rivals = [];
}

racing_is_refused : prepare_one digest 1 9 racing 7 (11 ∷ []) prepared_db ≡ (
  error (record {
    source_article_id = 7;
    source_url = "https://a.example/7";
    message = approved_plan_covers 1;
  }),
  approved_db,
)
unfolding prepare_one
racing_is_refused = refl

single : IsSingle (prepared_plan ∷ [])
single a = ground arith

prepare_one-IsSingle_example :
    IsSingle (prepare_one digest 1 9 quiet 7 (11 ∷ []) prepared_db).1.plans
prepare_one-IsSingle_example =
    prepare_one-IsSingle digest 1 9 quiet 7 (11 ∷ []) prepared_db single single

prepare_one_keeps_approved_example :
    (In approved_plan (prepare_one digest 1 9 racing 7 (11 ∷ []) prepared_db).1.plans
      × ((prepare_one digest 1 9 racing 7 (11 ∷ []) prepared_db).1.suggestions
          ≡ approved_db.suggestions))
    ⊎ ((prepare_one digest 1 9 racing 7 (11 ∷ []) prepared_db).1 ≡ prepared_db)
prepare_one_keeps_approved_example =
    prepare_one_keeps_approved digest 1 9 racing 7 (11 ∷ []) prepared_db approved_plan refl
      (inl refl) refl
