-- ===== src/Lib.antt =====
-- A geofence service: an HTTP API accepts positions of users and publishes them to a partitioned
-- queue; workers evaluate each position against the areas and keep, in PostgreSQL, who is where
-- (`user_area_presence`) and a log row for each entry into an area (`logs`).
--
-- Database: the tables of src/migrations and the statements that the services send, as functions on
--   the tables; which statements fail is a parameter. A transaction that fails leaves no trace.
--   Growing is what they leave of the tables.
-- Presence, Service: src/presence, and the state that a request can reach: tables, the worker's
--   memory, the counters, the commands sent to Redis.
-- Locations: src/locations/locations.service.ts. Transition is the body of the transaction, Report is
--   `report`; Hint, Coherence, Evaluation, Failing and Fresh prove what they do.
-- Worker: src/worker/worker-consumer.service.ts. `handle` and `process_event` treat one delivery as
--   one step, since the chains let no two deliveries of a user overlap and other users' deliveries
--   touch other rows; Chains models the promise chains as steps that the event loop chooses. Lifecycle
--   is the boot, a function of the broker's answers, and the shutdown, as steps among those of the
--   chains. History is any sequence of deliveries, with Locations and the tables behind them.
-- Areas: src/areas. Index is the search in two stages of spatial-index.ts, with rbush and turf as
--   parameters; Snapshot is area-snapshot.service.ts as steps: commits, polls, and the two queries and
--   the swap of each rebuild. Its answers are what Locations takes as `find_covering_area_ids`.
--   Locating puts the two together. GeoJson is the check of a polygon in a request. Service is
--   areas.service.ts: `create`, up to its commit a function and then steps of Snapshot, and `findAll`.
-- Mq, Ingest: src/mq and src/locations/location-ingest.service.ts: the connection to the broker as
--   steps, a publish by the events that may follow it, and `accept`, which turns a position into the
--   event that Worker handles.
-- Request: POST /locations, from the body by src/locations/dto/report-location.dto.ts and the pipe of
--   src/app.module.ts to the reply, through Ingest, the envelope and Filter. NewArea and Stored are the
--   same for POST /areas and `create`.
-- Filter: src/common/filters/all-exceptions.filter.ts, from the thrown value to the response.
-- Logs: src/logs: the pages of GET /logs, their cursor and its patterns; the statement is the filtered
--   table in the order of its ORDER BY.
-- Config: src/config: the partitions that a worker's setting names, and in Environment the schema that
--   the environment must pass and the configurations that read it.
-- Harness: scripts/measure-presence.mjs: the waits, the counts and summaries of a load, the tracers and
--   the warm-up. The results of its doubles are a parameter.
--
-- Numbers that are only compared (coordinates, accuracy) are finite doubles in units of 2^-1074. A
-- uuid is its 128-bit number. Times are milliseconds. Sequence numbers are natural numbers; the
-- worker's are exact below 2^53. Fuel: `walk` in Logs, a client of the pages, asks for no more pages
-- than there are rows; `wait_for_drain` in Harness is shown to need `timeoutMs + 2` rounds. The
-- decimal print of a number in Prelude makes fewer rounds than the number.
--
-- Assumed: an acknowledgement does not throw; a message whose content parses and has the right `v`
-- holds an event of its type, as the worker's cast says; the publisher's channel closes with its
-- connection, and one that the broker closes alone shows as a publish that throws. The dedup of the
-- transaction in Locations is for a report with a device, which the worker does not make.
--
-- Not modelled: the PostgreSQL server (locks, isolation), Redis, RabbitMQ, rbush, turf, class-
-- validator and Nest; the set-up of connections; formatting of log lines.
pub mod Prelude
pub mod Database
pub mod Presence
pub mod Service
pub mod Locations
pub mod Worker
pub mod Tests
pub mod Areas
pub mod Mq
pub mod Ingest
pub mod Filter
pub mod Request
pub mod Harness
pub mod Logs
pub mod Locating
pub mod Config
