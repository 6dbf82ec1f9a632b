-- ===== src/Policy/Tests.antt =====
-- Runs of the source policy on a table of one client and one source.
use linking_engine_backend.Prelude.{
  ℕ, ◌≡◌, refl, inl, inr, true, false, some, List, [], ◌∷◌, ◌++◌, ok, err,
}
use linking_engine_backend.Policy.Pool.{
  Names, Platform, Site, held_by_pool, held_by_client, create_site, approve_pool_source,
  require_no_pbn_conflict, pool_source_domain,
}
use linking_engine_backend.Policy.Pool.Separation.{
  IsSeparate, create_site-IsSeparate, approve_pool_source-IsSeparate,
}

-- A URL is its host here.
abbrev names : Names
names = record { strip = λ t. t; lower = λ t. t; idna = λ t. some t; hostname = λ t. some t }

-- "a.b", "x.a.b" and "c.b"
abbrev shop : List ℕ
shop = 97 ∷ 46 ∷ 98 ∷ []

abbrev blog : List ℕ
blog = 120 ∷ 46 ∷ 97 ∷ 46 ∷ 98 ∷ []

abbrev other : List ℕ
other = 99 ∷ 46 ∷ 98 ∷ []

abbrev client : Site
client = record {
  id = 1;
  tenant_id = 1;
  base_url = shop;
  platform = Platform.wordpress;
  pool_source_approved = false;
}

abbrev source_of : ℕ → List ℕ → Site
source_of id url = record {
  id = id;
  tenant_id = 1;
  base_url = url;
  platform = Platform.pool;
  pool_source_approved = false;
}

abbrev table : List Site
table = client ∷ source_of 2 blog ∷ source_of 3 other ∷ []

abbrev approved_table : List Site
approved_table =
    client ∷ source_of 2 blog ∷ record (source_of 3 other) { pool_source_approved = true } ∷ []

blog_is_refused :
    approve_pool_source names (blog ∷ other ∷ []) (source_of 2 blog) table
    ≡ err (held_by_client blog)
unfolding approve_pool_source require_no_pbn_conflict pool_source_domain
blog_is_refused = refl

other_is_approved :
    approve_pool_source names (blog ∷ other ∷ []) (source_of 3 other) table ≡ ok approved_table
unfolding approve_pool_source require_no_pbn_conflict pool_source_domain
other_is_approved = refl

client_on_source_is_refused :
    create_site names 4 1 (120 ∷ 46 ∷ other) Platform.html approved_table
    ≡ err (held_by_pool (120 ∷ 46 ∷ other))
unfolding create_site require_no_pbn_conflict pool_source_domain
client_on_source_is_refused = refl

abbrev grown_table : List Site
grown_table =
    approved_table ++ record client { id = 4; base_url = 120 ∷ []; platform = Platform.html } ∷ []

client_is_created : create_site names 4 1 (120 ∷ []) Platform.html approved_table ≡ ok grown_table
unfolding create_site require_no_pbn_conflict pool_source_domain
client_is_created = refl

table-IsSeparate : IsSeparate names table
unfolding pool_source_domain
table-IsSeparate =
    ((refl, (refl, (refl, tt))), ((refl, (refl, (refl, tt))), ((refl, (refl, (refl, tt))), tt)))

approved_table-IsSeparate : IsSeparate names approved_table
unfolding pool_source_domain
approved_table-IsSeparate =
    ((refl, (refl, (refl, tt))), ((refl, (refl, (refl, tt))), ((refl, (refl, (refl, tt))), tt)))

approve_pool_source-IsSeparate_example : IsSeparate names approved_table
approve_pool_source-IsSeparate_example =
    approve_pool_source-IsSeparate names (blog ∷ other ∷ []) (source_of 3 other) table
      approved_table refl (inr (inr (inl refl))) table-IsSeparate other_is_approved

create_site-IsSeparate_example : IsSeparate names grown_table
create_site-IsSeparate_example =
    create_site-IsSeparate names 4 1 (120 ∷ []) Platform.html approved_table grown_table
      approved_table-IsSeparate client_is_created
