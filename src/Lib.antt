-- ===== src/Lib.antt =====
-- Verification of the release tooling of the inventory service (scripts/ and monitoring/).
--
-- The tooling decides whether an image may be migrated to and rolled out, and exercises the service
-- in disposable containers. The parts modelled here and their files:
--
--   Contract    scripts/release_contract.py: validate_contract, strict_object
--   Image       scripts/release_contract.py: run_checked, _remove_owned_container, _inspection,
--               _extract_contract, inspect_local_contract, inspect_registry_contract
--   Deploy      scripts/verify-deployment-image.py: aws, verify_deployment, which calls Image
--   Webhook     monitoring/webhook-receiver.py: sanitize_notification, Receiver.do_GET, Receiver.do_POST (do_get, do_post)
--   Security    scripts/check_security_reports.py: the loop over the reports and the condition to pass
--   Drill       scripts/recovery-drill.py: docker, Api, Fixture, run_drill, main
--   Rotation    scripts/credential-rotation-drill.py: run_rotation, main, over Drill's fixture
--   Replica     scripts/replica-drill.py: ReplicaFixture, concurrent_batch, summarize_batch,
--               require_same_reservation, require_stock_conflicts, run_drill, main, over Drill's fixture
--   Rollback    scripts/rollback-drill.py: make_candidate_jar, validate_history, schema_history,
--               check_added_column, remove_candidate, remove_base_tag
--   Preflight   scripts/cloud-preflight.py: validate_config, AwsMetadata.read, validate_aws, main
--   Load        scripts/load-test.py: percentile, summarize, the workers of run_load and its final checks
--   Json        the values that json.loads gives, and Python's operations on a value of unknown shape
--   Exec        state with exceptions, try/except and try/finally, and the host
--   Base        shared helpers: tests, lists, sets, integers, texts, character classes
--
-- A function of the source keeps its name. Python's exceptions are values (Json.Exc), and each
-- operation raises what Python raises: v[k] a KeyError or TypeError, v.get an AttributeError, and so
-- on. Code that calls Docker or AWS is a state passing function over the history of the run; a host
-- answers each call and may answer anything, depending on all that was done before. The decoder of
-- JSON, the digest, random identifiers and temporary files are fields of the host. json.loads with
-- object_pairs_hook is split in two: the host decodes the text to pairs, and the hook is applied to
-- each object, the innermost first, by the model.
--
-- Regular expressions are matched on code points (Base.Regex, by derivatives); \d is any decimal digit of Unicode, as in Python.
--
-- The workers of the workload are a step relation: each step is one of them taking a job under the lock,
-- or its request coming back, with whatever the clock shows and the service answers.
--
-- The threads of a batch of the replica drill take turns in an order that is a parameter: a worker reads
-- the clock, makes its request, and reads the clock again, each in a turn of its own. A schedule that
-- leaves a worker unfinished is too short, and the batch then raises out_of_fuel; three turns are enough.
--
-- Every loop is a structural recursion, except for the two loops of the drill that wait, which run on
-- fuel: Drill.Defs.poll_health and Drill.Fixture.poll_database. Each round sleeps for a fixed time
-- before a fixed deadline; the fuel is one round more than fit into that time, and a run that uses it
-- up raises out_of_fuel, which is none of Python's exceptions.
--
-- json.loads can also raise a RecursionError on a text that is nested too deeply. The receiver reads
-- bodies that anybody may send, and there it is modelled (Webhook.Defs.Loaded). All other texts come from
-- Docker, AWS, the service and files of the repository, and are taken not to be nested beyond
-- Python's recursion limit.
--
-- Not modelled: printing, command line arguments, the JSON text format itself, the Java service, and
-- the parts listed as such in the components of the project.
pub mod Base
pub mod Json
pub mod Exec
pub mod Contract
pub mod Image
pub mod Deploy
pub mod Webhook
pub mod Security
pub mod Drill
pub mod Preflight
pub mod Rotation
pub mod Replica
pub mod Rollback
pub mod Load
mod Tests
