-- ===== src/Lib.antt =====
-- Verification of go-uptime: the checks of endpoints and the handling of their results.
--
-- A result of an endpoint comes from a check, from a push or from a missed heartbeat. It is processed
-- with the lock of the key of the endpoint held: it is stored, announced to the pages that follow the
-- endpoint, and handed to the alerts, which notify through the providers.
--
-- Parts, and where they are modelled:
-- - Clock.antt: what the program uses of Go's package time.
-- - Result.antt: internal/config/endpoint/result.go, result_push.go, event.go, status.go, uptime.go.
-- - Key.antt: internal/config/key/key.go. JsonPath.antt: internal/jsonpath/jsonpath.go.
--   Gontext.antt: internal/config/gontext/gontext.go.
-- - Conditions.antt: internal/config/endpoint/condition.go, condition_result.go and placeholder.go, and
--   internal/pattern/pattern.go. Conditions/Placeholder.antt is ResolvePlaceholder, Conditions/
--   Compare.antt is isEqual and the numbers, Conditions/Display.antt what is shown of a condition,
--   Conditions/Evaluate.antt the evaluation, and Conditions/Health.antt is Type and
--   EvaluateHealthWithContext of endpoint.go. A panic is a value.
-- - Maintenance.antt: internal/config/maintenance/maintenance.go.
-- - Suites.antt: internal/config/suite/suite.go and result.go, and the loop of executeSuite of
--   internal/watchdog/suite.go.
-- - Alerting.antt: internal/alerting/alert/alert.go, and HandleAlerting with its two handlers of
--   internal/watchdog/alerting.go. A method that changes the endpoint or an alert returns the new one,
--   and the calls of providers and of the storage are effects, in order. Alerting/Restore.antt is
--   internal/watchdog/alert_state.go and MigrateTriggeredAlerts of alerting_source.go.
-- - Memory.antt: internal/storage/store/memory. Memory/Paging.antt is the selection of util.go,
--   Memory/History.antt its AddResult, Memory/Uptime.antt is uptime.go and GetUptimeByKey of memory.go,
--   Memory/Buckets.antt is response_time_buckets.go with internal/storage/store/common, and
--   Memory/Sessions.antt is login_sessions.go. Memory/Store.antt is memory.go and uptimesOf of
--   endpoint_uptime_batch.go, for endpoints.
-- - LiveUpdates.antt: internal/liveupdates/liveupdates.go; every function holds the mutex, so a
--   schedule of calls is a list of operations.
-- - Watchdog.antt: internal/watchdog/push.go and external_endpoint.go, with ToEndpoint of
--   internal/config/endpoint/external_endpoint.go. Watchdog/Registry.antt is registry.go, and
--   Watchdog/Checks.antt is executeEndpoint and UpdateEndpointStatus of endpoint.go, and
--   SubmitEndpointResult of push.go.
-- - Managed.antt: the endpoints of the administration, internal/managedendpoint: the types of
--   definition.go and the snapshot of registry.go. Managed/Storage.antt and Managed/Storage/Rename.antt
--   are the transactions of internal/storage/store/sql/managed_endpoints.go, with a driver that may
--   fail at every statement. Managed/Service.antt is what the changes share (prepare, startMonitoring,
--   the undoing), Managed/Service/Changes.antt is Update and update of service.go, and
--   Managed/Service/Entries.antt is SetEnabled, Delete and create. A change uses the registry of
--   Watchdog/Registry.antt, the tables and the snapshot, which are one record, World.
-- - StatusPage.antt: internal/statuspage/limiter.go; StatusPage/Selection.antt: selection.go.
-- - Push.antt: internal/config/push/push.go; Push/Resolver.antt: internal/push/resolver.go.
-- - Security.antt: internal/security/limiter.go.
-- - Common.antt: lists, options, maps, signed integers and Boolean tests.
-- The modules below a part hold its theorems, and its Examples the runs at concrete values.
--
-- Bounds: a uint64 keeps its wrap-around (% 2 ^ 64), and so do the signed products of the pages
-- (int64). The numbers of failures and of successes in a row are plain numbers, since they grow by one
-- for each result. A time is the number of nanoseconds since the zero time, a duration is signed, and
-- the difference of two times saturates. The loop of an uptime query runs on a bound of the tests of
-- its condition, one for each hour of the range with both its ends and one more, after which it would
-- answer none, and that of a JSON path on its length and one more: both are enough, and so is the length of a key for its indices. The limiter of the status pages computes with
-- exact fractions where the code has float64, and its times are not before the epoch; a version of a
-- managed endpoint is a plain number, since it grows by one for each change. Texts are bytes, and their upper and lower case is that of ASCII.
--
-- Outside of the model, as parameters: the answers of the alert providers, the clock, the windows of
-- maintenance, whether the storage fails, the formatting of texts, the functions of Go's standard
-- library that parse and print, a location without changes of its clock, the cache of the memory
-- storage, the network, the lookups of the administration by the pushes, and the YAML documents of the
-- administration with their validation, except that of the key. Not modelled: the rest of the SQL
-- storage (schemas, results, uptimes), the HTTP API, what is sent over the network, the loading of the
-- configuration, the metrics, the log lines, the descriptions of endpoints that the administration
-- returns, the alert providers of the administration, and the payloads of the status pages.
pub mod Common
pub mod Clock
pub mod Key
pub mod JsonPath
pub mod Gontext
pub mod Conditions
pub mod Maintenance
pub mod Suites
pub mod Result
pub mod Alerting
pub mod Memory
pub mod LiveUpdates
pub mod Watchdog
pub mod Managed
pub mod Push
pub mod StatusPage
pub mod Security
