-- ===== src/Lib.antt =====
-- Verification of the Omnicus messaging platform: scenarios, their validation, simulation and
-- parts.
--
-- The program. A scenario is a graph of nodes (messages, conditions, tags, delays, waits, HTTP
-- requests) joined by edges. packages/automation-core/src/index.ts holds its types, the check of a
-- graph before it is published, the evaluation of conditions, the lookup of the values that
-- conditions name, the test whether an event is the reply a scenario waits for, and the simulation
-- of a scenario on a given input. The API calls the check and the simulation; the worker evaluates
-- conditions and replies with the same functions.
--
-- Files. Automation/Graph: the node types, operators, edges and graphs of the schemas.
-- Automation/Condition: `evaluateCondition`, `evaluateConditionGroup`. Automation/Field:
-- `automationValueFor`, `valueAtPath`, `record`. Automation/Reply: `matchesWaitForReplyCriteria`.
-- Automation/HttpConfig: the types and refinements of `externalHttpRequestConfigSchema`.
-- Automation/Outgoing, NodeChecks, Reach, Cycle, Issue, Validate: `validateScenarioGraph`, by
-- parts: the maps it builds, the checks of a node, the search from the triggers,
-- `hasUnguardedCycle`, the messages, and the whole. Automation/Branch: `byPriority`, `edgeMatches`,
-- `hasLegacyNodeCondition` and the choice of a CONDITION node. Automation/Simulate:
-- `simulateScenarioGraph`. Value models the JSON values that this code reads, Prelude the functions
-- of the language's library that it calls (string search, split, Map and Set as association lists
-- in order of insertion). Names are the source's in snake case.
--
-- packages/automation-http/src/index.ts sends the requests of EXTERNAL_HTTP_REQUEST nodes.
-- Http/Address: `isBlocked`, `selectSafeLookupAddress`, with addresses as numbers. Http/Transport:
-- `resolveTarget`, `transport`. Http/Template: `renderScalar`, `valueAt`. Http/Payload:
-- `renderJsonValue`, `compileBody`. Http/Compile: `compileRequest`. Http/Heap: `valueAt` and
-- `setAt` on objects with addresses. Http/Mapping: `executeExternalHttpRequest`, its mappings over
-- these objects. Http/Body: the callbacks of `requestPinned` on the events of a response.
--
-- apps/api/src/access decides what a user may do. Access/Permissions: permissions.ts.
-- Access/Service: `AccessService`, over a record of the database's answers. Access/Guard:
-- `PermissionGuard`. apps/worker/src/telegram-inbound/telegram-inbound-failure.ts: Inbound, the
-- classification of failures by class of error, and the delay before the next attempt.
--
-- apps/api/src/auth/auth.service.ts keeps the browser sessions. Sessions/Table: the rows, the
-- statements on them and the constraints of the schema, where the moment at which the database
-- checks the reference from a rotated session to its replacement is an argument (`declared` is what
-- the migration says). Sessions/Service: `AuthService`, a method being an action on the store that
-- may throw. Sessions/Active: the statements of all requests of this service in any order. The
-- random values of a request and the times it reads are arguments, as are the hash functions and
-- the signature.
--
-- apps/worker/src/external-http/external-http-outbox.service.ts sends these requests from an
-- outbox. HttpOutbox/Row: the row with its operation and execution. HttpOutbox/Process: `process`
-- and the statements it ends in. HttpOutbox/Moves: the statements of all workers in any order. The
-- request, the runtime that a reply wakes (apps/worker/src/automation) and the clock are arguments.
--
-- apps/worker/src/automation/automation-runtime.service.ts executes scenarios. Runtime/Rows: the
-- rows of one conversation and its contact, and the actions of a transaction, whose error rolls it
-- back. Runtime/Project: what is only read, as a record. Runtime/Condition, Effects, Suspend, Node:
-- `applyNode` by parts. Runtime/Run: `executeGraph`, which hands back the context that it changes,
-- and the calls that resume an execution. Runtime/Merge: `deepMerge`. Runtime/Service: the public
-- methods, and the scan of automation-continuation.service.ts beside it. Runtime/Lifecycle: what a
-- property of delayed actions and waits has to meet to hold through all calls.
--
-- A broadcast sends one content to an audience:
-- apps/worker/src/broadcasts/broadcast-preparation.service.ts makes its recipients and queues their
-- messages, apps/api/src/broadcasts/broadcasts.service.ts launches, pauses, resumes, cancels and
-- archives it. Broadcasts/State: the rows of one broadcast. Broadcasts/Preparation: `scanOnce` and
-- `materialize`. Broadcasts/Control: the methods of the API. The audience, the rendering of the
-- content and the identifiers the database makes are arguments, and the loop over the recipients
-- runs without other writes in between.
--
-- packages/media-core/src/index.ts checks media files. Media/Bytes: the reading of bytes, a file
-- being the list of its bytes. Media/Dimensions: `pngDimensions`, `jpegDimensions`,
-- `webpDimensions`. Media/Identity: `signatures`. Media/Structure: `validateMediaIdentity`,
-- `validateDocumentStructure`. Media/Validate: `validateTelegramPhoto`, `validateMedia`.
-- Media/Canvas: `telegramPhotoCanvas`, whose products of doubles are arguments.
--
-- Bounds. The two searches of the validation recurse on fuel, one more than the number of nodes. A
-- node is entered once at most, so the fuel is never used up: `Automation/Reach/Total`,
-- `Automation/Cycle/Total`. A run of a scenario calls itself for a subflow and for a parent that it
-- wakes, which has no bound of its own: these calls have fuel, and `exhausted` is no outcome of the
-- code. The theorems that say what a run comes to need fuel for one call, in which no other is
-- made; the invariant of the rows holds with any. The trimming of a photo's size has the sum of its
-- sides as fuel: `Media/Canvas/Laws`. The scan of a JPEG file has fuel for one round more than
-- there are bytes: `Media/Dimensions/Ends`. The simulation's budget of 100 steps is the source's
-- own.
--
-- Not modelled. The parsers that zod makes of the schemas are parameters (`Schemas` of
-- Automation/Issue, `contract` of Automation/Reply), as is `toLocaleLowerCase`. Of the HTTP client,
-- the URL class, the name service (`dns_lookup`, which may answer differently each time), the
-- sending of one request (`request_pinned`) and the reading of an address text (`is_ip`) are
-- parameters. Messages are constructors of `Issue` in place of texts. Numbers of JSON are finite
-- doubles, written as multiples of 2^-1074. The database, the web client, the queues and the
-- channel adapters are outside.
pub mod Access
pub mod Automation
pub mod Broadcasts
pub mod Http
pub mod HttpOutbox
pub mod Inbound
pub mod Media
pub mod Prelude
pub mod Runtime
pub mod Sessions
pub mod Value
