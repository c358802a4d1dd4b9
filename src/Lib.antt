-- ===== src/Lib.antt =====
-- A model of the hungrx agent's core: the restaurant tree, its deterministic validation, the two
-- workflows that collect a restaurant and keep a published one up to date, the review that lies between
-- them and the production tables, and what these stand on: the crawler, the choice of a source, the
-- extraction, the ingestion queue and the rate limit.
--
-- The program collects restaurants' menus with the help of a language model, validates what it has
-- collected by deterministic rules, has an administrator review it, and publishes it.
--
-- * `Schema` models core/schemas: `Schema.Nutrition` nutrition.py, `Schema.Menu` menu.py,
--   `Schema.Restaurant` restaurant.py, with the source's fields; the field `state` of a location is
--   `region`. `Schema.Fields` has the field validators. A category tree is the data type
--   `MenuCategory` in a mutual block with the lists of categories.
-- * `Validation` models core/validation, a module for each file: `Validation.Result` result.py,
--   `SchemaCheck` schema_validation.py, `RequiredFields` required_fields.py, `NutritionRules`
--   nutrition_rules.py, `PriceRules` price_rules.py, `ImpossibleValues`
--   impossible_value_detection.py, `AllergenRules` allergen_rules.py, `Duplicates`
--   duplicate_detection.py, `Corrections` safe_corrections.py, `Engine` engine.py.
--   A check is a function to the list of its issues. A path such as `menus[0].categories[1]` is the
--   list of its keys and indices; a message is a constructor with the values that it prints.
--   The modules below them prove the properties.
-- * `Review` models the way from a validated restaurant to its publication. `Review.Rows` has the rows
--   of core/schemas/proposed_change.py, agent_run.py, audit.py and source.py and the database, a record
--   of tables; `Review.Repositories` and `Review.Production` the operations of database/repositories
--   that change or read it, within the columns of database/models/restaurant.py (`Review.Columns`). The nodes of workflows/collector_workflow/nodes are functions from the state
--   and the database to an update and the database: `Review.Nodes.SourceAuthority`, `Extraction`,
--   `Translation`, `DeterministicValidation`, `HumanReview` and `Publish`. `Review.Graph` is graph.py,
--   with the checkpoints that LangGraph keeps for each thread, and `Review.Service` is
--   apps/api/app/services/review_service.py. The service takes the workflows that it resumes as values
--   of the record `Workflow`, and its theorems ask of them what `Review.Decisions.IsLawful` says;
--   `Review.Collector` shows it of the collector's graph, `Reviewer.Graph.Resumption` of the reviewer's.
--   An operation that may raise gives a `Result`; a raised exception has no database, since the
--   session's transaction is then rolled back. `Review.Collector.Start` is about a run from its start to
--   its pause.
-- * `Reviewer` models workflows/reviewer_workflow, which polls the website of a published restaurant and
--   patches the production tables: `Reviewer.State` state.py, `Reviewer.Nodes` the nodes but for
--   `Reviewer.Patch`, which is nodes/delta_patch.py, and `Reviewer.Graph` graph.py; `Reviewer.Delta` is
--   core/schemas/diff.py, `Reviewer.Paths` the texts of its paths, and `Reviewer.Repositories` has the
--   operations of database/repositories that only this workflow uses. The modules below `Reviewer.Graph` and `Reviewer.Patch` have the proofs. The
--   collector's and the reviewer's graph share the world of `Review.Graph`, so that `Review.Service` resumes
--   either.
-- * `Crawler` models infrastructure/crawler: `Crawler.Domains` domain_lock.py, `Crawler.Links`
--   page_discovery.py, `Crawler.Guard` ssrf_guard.py, `Crawler.Fetch` http_fetcher.py. The resolver and the
--   network are the records `Network` and `Web`; a fetch gives the URLs that it opened, that of robots.txt
--   (robots.py) included, with its result.
-- * `Extraction` has the schemas of core/schemas/extraction_output.py and the provider of
--   infrastructure/ai/provider.py. `Extraction.Chunked` models infrastructure/ai/chunked_extraction.py;
--   `Extraction.Capture`, `Extraction.Material` and `Extraction.Mapping` the functions that the nodes
--   extraction.py and multimodal_translation.py of the collector and targeted_reextraction.py of the
--   reviewer are made of, and `Extraction.Extractor` what they take from outside.
-- * `Json` is a JSON document, as a delta carries it.
-- * `Queue` models the manual ingestions: `Queue.Items` core/schemas/ingestion_queue.py and
--   database/repositories/ingestion_queue_repository.py, `Queue.Dispatcher` the lock and the jobs of
--   apps/worker/app/jobs/ingestion_queue_dispatcher.py as a step relation, in which the processes
--   interleave in any order; `Queue.Batches` and `Queue.Changes` have the proofs about the table.
-- * `Sources` models infrastructure/source_authority: `Sources.Aggregators` aggregator_blocklist.py, the
--   domains that are never a restaurant's own site, `Sources.Urls` url_normalizer.py and
--   domain_validator.py; and `Sources.Authority` apps/api/app/services/source_authority_service.py and
--   manual_source_verification.py, over the schema in `Sources.Results`.
-- * `RateLimit` models apps/api/app/core/rate_limit.py over the record `Redis` of the commands that it
--   sends; `RateLimit.Throttling` says what Redis documents of them and follows one counter,
--   `RateLimit.Attempts` has the attempts on one key and `RateLimit.Logins` the login's two limits.
-- * `Text` and `Decimal` are the operations of Python's `str` and `decimal.Decimal` that the program
--   uses. A text is the list of its code points, and the character tables of Python are a parameter,
--   the record `Unicode`; the examples run with the ASCII tables of `Text.Ascii`. A decimal is a
--   coefficient over a power of ten; sums and products are exact.
-- * `Prelude` has the shared names and lemmas, `Tests` the examples.
--
-- Pydantic's parsing of a raw payload is a parameter: the theorems take what it returns, a restaurant
-- or its complaints, and in the review the record `Pydantic` over an arbitrary type of JSON values.
-- Parameters too are the functions of `urllib.parse` (`Urls`), DeepDiff and the parsing of a UUID (the
-- record `Differ`), the fetched pages and BeautifulSoup (`PageFetcher`), and the model's answers
-- (`AiProvider`), the parser of a robots.txt and the network (`Web`, `Network`), and what LangGraph does
-- with a thread that it does not know (fields of `World`). Of PostgreSQL the model has unique keys, foreign
-- keys, the limits of the columns and row locks; of SQLAlchemy's session, that rows are deleted at a flush.
-- All recursion is structural: the rounds of a fetch are counted by the source's own bound of ten redirects.
--
-- Not modelled: the rest of the web service, the dashboard, the database engine, the browser and the
-- waiting for a domain's lock, the client of the language model, and what an ingestion job does inside
-- the dispatcher's block.
pub mod Prelude
pub mod Text
pub mod Decimal
pub mod Schema
pub mod Validation
pub mod Json
pub mod Review
pub mod Reviewer
pub mod Crawler
pub mod Extraction
pub mod Queue
pub mod Sources
pub mod RateLimit
pub mod Tests
