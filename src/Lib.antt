-- ===== src/Lib.antt =====
-- SentinelDrive: verification of the intelligence pipeline.
--
-- SentinelDrive collects threat intelligence on connected vehicles from public sources, normalises
-- it into rows that are deduplicated by a key, scores the rows by fixed rules, and raises alerts on
-- them. The worker runs collection, normalisation and scoring as stages of one pipeline
-- (worker/sentineldrive_worker/pipeline.py); the backend evaluates the alert rules
-- (backend/app/services/alerts.py), takes intelligence from other systems
-- (backend/app/services/intelligence_ingest.py), and lets users in with signed tokens, who work on
-- the alerts. The parts meet in the database: collection writes raw rows, normalisation reads the raw
-- rows that wait and writes rows of threat intelligence, the ingest writes both kinds at once, scoring
-- reads and writes rows of intelligence, and the alert rules read them and write alerts, of which
-- users change the status. Each change by a user is an event in the audit log.
--
-- The files, and the code that they model; a path that does not begin at the root stands in
-- worker/sentineldrive_worker:
--   Value, Database: dynamic Python values, dicts, table rows, and the SELECT, UPDATE and INSERT
--     statements of the services. A row is a function from column names, a table a list of rows.
--   Text: the methods of `str` that the program uses.
--   Sanitize: `sanitize_error`, which scoring/service.py, normalization/service.py and
--     connectors/runtime.py each define.
--   Collection: connectors/contracts.py, connectors/registry.py and connectors/runtime.py. The state
--     is `RuntimeState`; `run_connector` with its loop of attempts (Runtime), and
--     `run_enabled_sources` (Enabled).
--   Persistence: persistence/service.py. `persist_source_run` and its statements, `persist_runs` and
--     `run_and_persist_enabled_sources` (Whole), on four tables; Reports is on what is reported of a
--     source.
--   Normalization: normalization/dedup.py (Dedup, Keys, Numbers), hints.py (Hints), models.py
--     (Record), registry.py (Registry), service.py (Unique, Merge and Service; Columns, Merged,
--     Service/Upsert and Service/Queue are on what a merge, an upsert and a run leave) and
--     normalizers.py (Cleaning: the helpers; Sources: the base record; Sources/Feeds and
--     Sources/Entries: the normalisers; Sources/Builtin: their registration; Sources/Titled and
--     Sources/Chosen are on what they give).
--   Scoring: scoring/rules.py (Signals, Factors, Rules) and scoring/service.py (Service); Bounds, Levels,
--     Rescore, Explanation and Runs are on the results.
--   Alerts: backend/app/services/alerts.py. Entry and Rules hold the columns and the five rules,
--     Service the evaluation; Again, Levels and Triggers are on the alerts.
--   Api/Safety: backend/app/api/safety.py, the redaction of metadata, texts and URLs.
--   Ingest: backend/app/services/intelligence_ingest.py, with the validators of
--     backend/app/api/schemas/intelligence.py (Request). Derived is what is computed from a payload,
--     Store the search, the merge and the link, Service the whole ingest on the entries and the raw
--     rows; Findable, Again, Invariant, Redacted, Merged, Agreement and Urls are on what it
--     leaves.
--   Access: backend/app/security/tokens.py (Tokens), backend/app/api/deps.py and
--     backend/app/services/audit.py (Guards), backend/app/api/routes/auth.py (Users) and
--     backend/app/api/routes/users.py (Accounts). The state of the routes is the table of users and
--     the audit log.
--   Search: backend/app/api/routes/alerts.py. Search.antt has LIKE patterns and pages, Alerts the
--     filters, the order and the listing, Alerts/Status the other handlers; Alerts/Agree is on the two
--     ways to a page, Alerts/Change on the change of a status.
--   Pipeline: pipeline.py, the four stages and their errors.
--   Prelude: shared names, lists, integers, equality and sorting over the native numbers.
--   Tests: runs of the code on samples, and the theorems at concrete inputs. Codec is a base64 and a
--     JSON that keep what `CryptoLaws` promises.
--
-- How the code is read:
--   A function that raises returns a sum of its result and an `Error`, which is the text of the
--   exception and the name of its class. A session's block is a function on the tables, which keeps
--   the old tables where it raises (the rollback). An exception of the database is an argument
--   (`SessionFault` in Database): a function that says for each row or source whether its session
--   raises, and whether in a statement or at the commit. The loops append a report before they commit,
--   so a commit that raises leaves it and the report of the failure. The time of a run and new
--   identifiers (`uuid4`) are arguments too. Queries that do not say an order return rows in the
--   order of the table.
--   A score is its number of hundredths, and a duration or an instant its number of microseconds.
--   A datetime of a payload has an offset or none (`Datetime` in Api/Safety); one from the database is
--   an instant, and what instant a datetime without an offset is stored as is a parameter of `Web`. To
--   compare the two kinds raises. A datetime that is written as ISO text and read back is the same
--   instant. Letter case is that of
--   ASCII. Sets of texts are lists without repetition.
--   The texts of numbers and containers, `float` of a text, JSON, SHA-256 and `urllib.parse` are
--   parameters (`Python` in Value, `UrlParse` in Normalization/Keys, `Web` in Api/Safety,
--   `stable_hash` in Collection/Contracts, `byte_size` in Persistence), and so are the classes of word
--   characters and digits (`CharClasses` in Normalization/Numbers), HMAC and base64 (`Crypto` in
--   Access/Tokens, with its promises in `CryptoLaws`), passlib (`Passwords` in Access/Users), and
--   `UUID` of a text with the secret and the time (`Gate` in Access/Guards). In the service the
--   normalisers are what the registry holds; what a connector does in an attempt, a timeout included,
--   is a parameter.
--   A handler returns an answer or an error with the tables it leaves. The answers that it does not
--   name, such as an exception that no `except` catches, are `server_error`. A list in metadata of
--   which an item is no text counts for the text that `str` gives, and a value where a list is read
--   that is none counts as the empty list (Normalization/Sources).
--   Every loop is structural recursion, over rows, sources or the attempts that are left; there is
--   no fuel. `replace_all` in Sanitize counts down the characters that a match has taken.
--
-- Not modelled: the connectors of single sources, which are HTTP, XML and dates; the routes of
-- intelligence, of manual entries, of sources, of statistics and of exports; the summary of the
-- intelligence in the detailed answer on an alert; the Celery wiring; the tables' and models'
-- declarations, of which the constraints that the ingest relies on are in Ingest/Service; and the
-- frontend.
pub mod Prelude
pub mod Text
pub mod Value
pub mod Database
pub mod Sanitize
pub mod Normalization
pub mod Scoring
pub mod Alerts
pub mod Collection
pub mod Persistence
pub mod Pipeline
pub mod Api
pub mod Ingest
pub mod Access
pub mod Search
pub mod Tests
