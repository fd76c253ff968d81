-- ===== src/Lib.antt =====
-- repowatch watches package repositories, keeps a catalogue of their packages in SQLite, warms an
-- nginx cache with them, and publishes the nginx configuration of that cache. This library models
-- the parts of the program whose logic does not depend on the network or the disk, and proves what
-- makes them correct. Paths below are from the root of the repository.
--
-- The parts, and how they meet:
-- * Slots (src/repowatch/operations/slots.py): `RepoSlots`, the pool that the index checks and the
--   cache warming share. Slots.antt has `resize`, `_available` and the two ends of `_hold`;
--   Slots/Tasks.antt has the tasks that run `_hold` on one event loop, a schedule being a list of
--   runs up to the next `await`.
-- * Bandwidth (src/repowatch/bandwidth.py): the limits on what warming downloads.
--   Bandwidth/Schedule.antt has `minute`, `validate_schedule` and `scheduled_limit`;
--   Bandwidth/Bucket.antt has `_Bucket`; Bandwidth/Budget.antt has `_step`, the turn that each
--   waiting download gets; Bandwidth/Budget/Rate.antt has the arrivals, turns and cancellations of
--   `consume`.
-- * Storage (src/repowatch/storage/repositories.py, models.py, storage/schema.py): the tables and
--   `record_snapshot`, which every check of an index ends with. It reports what changed, and leaves
--   the replaced files to be purged and warmed again. Storage/Repositories.antt has the headers of
--   the last index, the checks and expiry dates that are stored on their own, and the count and
--   removal of a repository's rows.
-- * Notifications (src/repowatch/notifications.py, storage/notifications.py): failure streaks, the
--   alerts about them, and in Notifications/Delivery.antt the retries of one webhook.
-- * Nginx (src/repowatch/nginx/apply.py, nginx/reconcile.py): the transaction that publishes five
--   rendered files, with nginx's check, the reload, the backups, the status and the rollback.
-- * Dedup (src/repowatch/cache/dedup.py): Dedup.antt has `accepted_pairs`, which redirects of the
--   proposed ones nginx gets; Dedup/Chains.antt has `dedup_keys`, which follows their chains.
-- * Cleanup (src/repowatch/operations/dedup_cleanup.py): Cleanup.antt has `_evidence`, `_Window` and
--   the first pass of `make_plan`; Cleanup/Plan.antt has the second pass, which holds each chosen
--   key against every owner in the catalogue.
-- * Storage/Cache (src/repowatch/storage/cache.py): Warmed.antt has the warm-up records, Bans.antt the
--   banned names, Interest.antt the demand for packages, Nix.antt the files and the trust of Nix
--   repositories, Replacements.antt the pending replacements, Removal.antt the count and removal of a
--   repository's rows.
-- * Purge (src/repowatch/cache/purge.py, cache/probe.py, cache/nix.py): the outcome of a purge for each
--   package; Purge/Items.antt has `purge_items` (operations/cleanup.py), which picks the way.
-- * Retention (src/repowatch/operations/cleanup.py): Retention.antt has the orphaned repositories,
--   Retention/Sweep.antt the purge of what has expired or left the index, Retention/Pass.antt
--   `prune_all`, which runs these in its order on one time.
-- * Scheduler (src/repowatch/runtime/scheduler.py): Scheduler/Due.antt has `_due_repositories`,
--   Scheduler.antt `RepoDispatcher` with its tasks, Scheduler/Runs.antt its histories.
-- * Routing (src/repowatch/routing.py, url_templates.py): Routing/Templates.antt has `expand`,
--   Routing.antt the prefixes of the ten repository types, Routing/Routes.antt `compute_routes` and
--   `CacheKeyBuilder`; Routing/Characters.antt reads the regular expressions.
-- * Warming (src/repowatch/operations/warm.py, warming_policy.py, operations/replacements.py):
--   Warming/Rules.antt has the rules for names, Warming.antt the run of a batch and the report of a
--   manual one, Warming/Refresh.antt the purge and new download of replaced files.
-- * Check (src/repowatch/operations/check.py): `check_index`, the check of one index, with the parser
--   and the reading of the keys as parameters.
-- * Access (src/repowatch/storage/access.py): Access.antt has the sessions and the tokens, with the
--   hashes and the fresh secrets as parameters, Access/Revoked.antt their histories.
-- Prelude holds what they share: Boolean tests, lists and tables, errors as values, the order of
-- texts, and the interface of keys with a decidable equality.
--
-- How state is modelled: a table or a dictionary is a list of pairs that is read by its first match,
-- a set is a list of keys, an error is a value of the component's own type. Times of the bandwidth
-- budget are milliseconds and its bytes are thousandths, so that a rate times a time is exact where
-- the program's floats round. The loop of `dedup_keys` alone runs on fuel, as many turns as there are
-- redirects, which is enough since no path is visited twice; every other loop is over a list or a text,
-- or over the three attempts of a webhook.
--
-- What is a parameter: the time zone database (`known`, and the local time it gives), the routes and
-- redirects of a configuration where the cleanup of copies and the purge use them, the outcome of each
-- write, removal and command of the operating system, what nginx answers to a purge, the replies of a
-- webhook's server with their Retry-After header once parsed, the digest of texts and of inputs, the
-- clock and the random ids, how a text is read as a time, what the other tasks do to the database
-- during a purge, the URL of a file, the lower case of a text, the redirects that the renderer
-- proposes, and the standard library's URLs, quoting and format strings.
--
-- What is not modelled: the shape checks of values read from YAML, the parsers of package indexes,
-- nginx's templates, HTTP handlers, the pages, the reporting and the command line; the proposal of
-- redirects; the download of files into the cache and the warming of Nix repositories; the retention
-- of requests, and the loop that runs the dispatcher. A task's own timeouts, which count as requests
-- to cancel it while they run, are left out of the dispatcher, so a request to stop is always its own;
-- the downloads of a batch run one after the other, and no other task writes to the database meanwhile.
pub mod Prelude
pub mod Slots
pub mod Bandwidth
pub mod Storage
pub mod Notifications
pub mod Nginx
pub mod Dedup
pub mod Cleanup
pub mod Purge
pub mod Retention
pub mod Scheduler
pub mod Routing
pub mod Warming
pub mod Check
pub mod Access
