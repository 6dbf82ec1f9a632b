-- ===== src/Lib.antt =====
-- The linking engine's backend: the review of suggested links, their rendering and publication, the
-- background jobs that do it, the callers' and operators' credentials, and the policies on client
-- sites, link sources and external targets.
--
-- An editor selects suggestions (a link from an article of a site to another page). Before
-- anything is written to the customer's site, a selection is rendered into a plan: the exact
-- content of one post before and after the edit, its items, and a hash of all that. An operator
-- approves plans by id and hash, and a worker takes the approved plans to the site.
--
-- Publication/Rows          app/models/publication_plan.py, app/models/suggestion.py: rows, tables
-- Publication/Artifact      app/services/publication_plan_service.py: canonical_artifact,
--                           compute_plan_hash, verify_integrity, snapshot_items
-- Publication/Cohort        the same file: grouped_batch, expire_superseded; its
--                           order (Order)
-- Publication/Preparation   the same file: prepare_site, _prepare_one, _active_plan, _supersede
-- Publication/Approval      the same file: approve_plans; when it succeeds (Exactness)
-- Publication/Connector     app/connectors/wordpress.py: apply_planned_edit
-- Publication/Worker        app/tasks/publication.py: the loop of _publish_approved_plans and its
--                           exits (Worker/Retire: mark_stale, _fail_plan,
--                           _record_attempt_failure; Worker/Finalize: the rows after a write);
--                           what a plan and a run count (Worker/Counting, Worker/Totals)
-- Publication/Progress      app/services/publication_progress.py: the counters of a job row
-- Dashboard                 app/services/dashboard_auth.py, app/models/dashboard.py: one-time
--                           login codes (Codes), sessions and admission (Sessions)
-- Policy/Pool               app/services/pool_source_policy.py, app/api/routes/sites.py: which
--                           source may be approved, which client site created
-- Access                    app/services/authorization.py: API keys, the caller they stand for, and
--                           its scope (Keys)
-- Rendering                 app/connectors/wordpress.py: the prose of a post (Regions, Balance), where
--                           a link is placed (Placement) and how often (Preview)
-- Review                    app/api/routes/suggestions.py: reviews of suggestions, by a rule and its
--                           undo (Rules), against approved plans (Bound, Undo)
-- External                  app/domain_policy.py, app/services/external_link_policy.py: domain rules,
--                           the evaluation of a target (Policy), what the ranker may inspect (Context),
--                           the expiry of suggestions (Expiry)
-- Jobs                      app/services/job_service.py, app/models/job.py: attempts of a job
--                           (Execution, Retries), interruptions (Interruption), enqueueing and
--                           reconciliation (Enqueue), the shown status (Status), histories (Steps)
-- Prelude                   shared lemmas on lists, tables, groups, sorting and results
--
-- The parts share the database (`Db`): preparation inserts plans, approval binds suggestions to
-- them, the worker takes the approved ones, and the connector reads and writes the site. A
-- definition takes the state and returns the new one, and stands beside the Python function of
-- the same name. Concurrency is explicit: a `Turn` gives the transactions that others commit at
-- each point where the code holds no lock (during the preview request, before a row lock is
-- granted, between a rollback and the read after it), as arbitrary functions of the database.
--
-- The login is the part that says who an operator is: the bot issues a one-time code to an
-- approved account, and the browser trades it for a session. It has its own tables (`Desk`). The
-- source policy decides which sites may be link sources beside the clients' sites. Every request
-- carries an API key, whose principal bounds the sites that a review may touch; a review works on
-- the same tables as publication, which is why it looks at the approved plans.
--
-- A job row follows each background task, and the queue (RQ, with Redis) decides on its retries. An
-- external target is checked again before its link is published.
--
-- Parameters, for code that is not in the repository: the digest (SHA-256 over json.dumps), the
-- site (the answers of its read and write requests, on a state of any type), the clock, the keyed
-- digests, random parts, the case mapping of `str`, the `idna` codec and the parts of a URL, the
-- answers of RQ and Redis, the tasks' bodies, and the matches of regular expressions. The language
-- model's placements are a parameter too, and so is the rendered preview in Preparation, which
-- Rendering describes on its own. Loops run over lists and are structural, so no fuel is needed; the
-- attempts of a job are a recursion on its retries. Numbers are natural numbers: ids, counters and
-- times are never negative, and scores are only compared.
--
-- Not modelled: suggestion generation (embeddings, BM25, graph learning), ingestion, the parsing of
-- HTML, the other API routes, migrations and the bot, which are I/O or third-party numerics;
-- the pipeline's stages; the wording of messages; database failures other than the ones named in a
-- file.
pub mod Access
pub mod Dashboard
pub mod External
pub mod Jobs
pub mod Policy
pub mod Prelude
pub mod Publication
pub mod Rendering
pub mod Review
