-- ===== src/Lib.antt =====
-- Verification library of the Faryo owner service, the Python code under
-- apps/owner/local-tmux-owner, and of the security policy of the gateway before it,
-- apps/gateway/server/gateway_security.py.
--
-- The owner service runs on the workstation beside Codex. It keeps structured Codex sessions alive,
-- streams their events to browsers, and takes the browsers' answers. A session of the App Server
-- has a record in the registry, under a short name that it shares with no terminal session; what
-- happens in it is published in the event journal, from which a browser that was away replays; a
-- request of the App Server to the user waits in the interaction broker for one answer; a slash
-- command of a browser leaves an event in the command timeline. Beside these, Codex runs in tmux
-- panes: a message of a browser is delivered into the pane once, with a receipt that outlives the
-- process; a menu that Codex shows there becomes an interaction with an opaque id, which the
-- browser answers with keys; and a slash command of the catalogue is typed into it. The gateway
-- lets a browser in by a signed cookie, and limits how often a login may fail.
--
-- Parts:
-- - Journal.antt: appserver_events.py. `EventCursor.parse` and `render` are `parse` and `render`,
--   `EventJournal.publish`, `_trim` and `replay` are `publish`, `trim` and `replay_from`; `run` is
--   a sequence of publications. Journal/Invariant.antt, Replay.antt and Cursor.antt prove.
-- - Requests.antt: appserver_requests.py, its data and `declined_response`. Requests/Build.antt:
--   `_build`, `_choice`, `_approval_choices` and `_questions`. Requests/Flow.antt: `request`, split
--   at its `await` into `open_request` and `close_request`, `respond` and `cancel`. The modules
--   below Requests/Flow prove; Steps.antt has every interleaving of these calls as a step relation.
-- - Timeline/Command.antt: command_timeline.py, `command_parts` to `command_summary`.
--   Timeline/Event.antt: `_clean_metadata`, `_valid_event`, and the JSON form of an event.
--   Timeline/Store.antt: `CommandTimelineStore`, with `_load`, `begin` and `update` in
--   Loading.antt, Adding.antt and Updating.antt below it, each with its proofs below.
-- - Sessions/Namespace.antt: session_namespace.py. Sessions/Record.antt: `WebSessionRecord` of
--   appserver_registry.py. Sessions/Registry.antt: `WebSessionRegistry`, with `load` in
--   Registry/Loading.antt and `reassign_conflicts` in Registry/Reassign.antt.
-- - Commands/: codex_command_policy.py. Catalog.antt: `CommandEntry` and `CommandCatalog`;
--   Entries.antt: `_clean_command` and `_entries`; Loading.antt: `_read_payload` and
--   `load_catalog`; Invocation.antt: `exact_command` to `command_behavior`. AppServer.antt:
--   appserver_commands.py, the commands of a session of the App Server, with `_usage_prompt` in
--   AppServer/Usage.antt, `begin` in AppServer/Begin.antt, a definition for each command, and
--   `respond` in AppServer/Respond.antt.
-- - Delivery/: Record.antt and Store.antt have delivery_store.py; Runtime.antt, Service.antt,
--   Steps.antt and Send.antt `DeliveryService`, whose `send` is split into one definition for each
--   stage. Effects.antt counts the tmux commands that are run. Locks.antt: `scoped_lock`, whose two
--   ends are `enter` and `leave`, and the steps of the threads between them.
-- - Interaction/: Types.antt has interaction_types.py; Runtime.antt the data of
--   interaction_service.py, what it asks of the terminal and its loops; Service.antt
--   `InteractionService`, with `respond` in Service/Respond.antt and `begin_command` in
--   Service/Readiness.antt, its checks, and Service/Command.antt, which adds a command to the
--   timeline of Timeline/ and takes it from the catalogue of Commands/. Clock.antt and Typings.antt
--   have the two measures of a run, the time that it takes and what it sends to the terminal;
--   Does.antt takes both at once.
-- - Program.antt: programs with a state and exceptions, in which Delivery/, Interaction/ and
--   Commands/AppServer.antt are written.
-- - Gateway/Headers.antt: `browser_security_headers`; Gateway/Limiter.antt: `LoginRateLimiter`;
--   Gateway/Cookie.antt: `SessionCookieCodec`, `csrf_token`, `safe_target` and `login_rate_key`.
--   What `username` does with the value of the cookie is `user_of_value`.
-- - Base.antt passes the shared names on; Base/Text.antt and Base/Letters.antt have
--   Python's text functions, Base/Dict.antt its dict in insertion order, Json.antt, Json/Str.antt
--   and Json/Read.antt JSON values, json.dumps, and str, bool, int and iteration on them.
-- Each part has a module Tests with runs on small inputs and the theorems at such inputs.
--
-- State is passed explicitly, and a lock that is held for a whole call makes that call one step.
-- Parameters stand for what the code draws or asks the system: random tokens, times, the digest
-- function, the whole part of a float, HMAC, Base64, the reading of cookie headers and IP
-- addresses, and whether a file can be written. A stored file is the JSON value that stands in it.
-- What the terminal answers may depend on the history of all calls that were made to it, so nothing
-- is assumed of how a pane reacts; during a call of the App Server other tasks may act. What Python
-- does with floats that JSON holds is a record of functions.
--
-- Bounds: `decimal` divides by ten with n rounds at hand for n, and the search for a session name
-- has a round for each name that is used, since a round that goes on has met one of them. The waits
-- of the interaction service have one round more than the timeout has units, which is enough where
-- the clock never goes back and a pause takes a unit at least. Sequence numbers, byte counts and
-- times are natural numbers without a bound, as in the source.
--
-- Not modelled: letters outside ASCII in `lower`, `title`, `int` and `repr`; the interpreter's
-- limit on the digits of an `int`; a handler of the broker that raises, and a number in the place
-- of a list of questions, which raises TypeError there; the temporary file of an atomic write, its
-- modes and its fsync; files that are not UTF-8; a terminal call that raises an exception of its
-- own; the process-wide catalogue, which is an argument; a clock before 1970; an int that is too
-- large to be shown as a float; fractions of a clock's unit; and the other modules of the
-- repository, among them its HTTP routes, its processes and its browser code.
pub mod Base
pub mod Json
pub mod Journal
pub mod Requests
pub mod Timeline
pub mod Sessions
pub mod Gateway
pub mod Program
pub mod Commands
pub mod Delivery
pub mod Interaction
