-- ===== src/Lib.antt =====
-- A model of the monitor backend: the server that takes game readings from client devices over
-- websockets, keeps the latest of each device in memory, passes them on to the web pages that watch
-- them, and keeps the statistics and the team play of each account in a database.
--
-- Parts, and the files that model them:
--   * internal/protocol/messages.go: `Protocol` has the payload types (`Protocol.Types`) and how each is
--     read from JSON (`Protocol.Shapes`, `Protocol.Reports`), and `Protocol.Validate` `ValidateEnvelope`,
--     one function for each message type; `Protocol.Accepted`, `Protocol.Alarms`, `Protocol.Events` and
--     `Protocol.Kinds` describe what it accepts. `Json` has what is used of encoding/json: a value is a
--     tree, and a decoder writes it over what its target held.
--   * internal/realtime/hub.go: `Hub` has the rooms and channels, `Hub.Devices` attaching and detaching,
--     `Hub.Publishing` what a device's message does, `Hub.Commands` the commands to devices, and
--     `Hub.Watching` viewers, observers and the readers of the latest payloads. `Hub.Claims`,
--     `Hub.ClaimSteps`, `Hub.PublishCases`, `Hub.PublishSteps`, `Hub.QuietSteps` and
--     `Hub.QuietClaims` keep an invariant of the monitor claims over every step, `Hub.Runs` states it
--     for histories of steps, and
--     `Hub.Exclusion`, `Hub.Conflicts`, `Hub.Channels`, `Hub.Broadcasts`,
--     `Hub.Queues` and `Hub.Gains` say what follows for devices and viewers.
--   * internal/expgain/service.go: `ExpGain` has the states and the sampling, `ExpGain.Ticking` the
--     ticks, which read the hub and publish to it, and `ExpGain.Store` the two tables.
--   * internal/api/boss_cycle.go: `BossCycle` has the rows and queries, `BossCycle.Starting` the start
--     of a cycle, and `BossCycle.Handlers` the receipts and the heartbeat, which send through the hub.
--   * internal/notification/service.go: `Notification` has the tests of times, `Notification.Stalls` the
--     tracking of experience that does not grow, and `Notification.Alerts` the scans of the rune,
--     verification and zone alerts, which read the hub. The joined rows that a query gives are arguments.
--     `Notification.Settings`, `Notification.Switches` and `Notification.Deliveries` have the settings, what
--     changes them, and the test notifications; the Bark server and the encryption are arguments.
--   * internal/api/server.go and clients.go: `Server` has the rows of the tables and the shared queries,
--     `Server.Sessions` `ensureDeviceSession`, `Server.Clients` the clients of an account, `Server.Teams`
--     and its modules the handlers of the rope team, and `Server.Joins` and `Server.Progress` what a
--     device's reports about the team do, which use the boss cycle and the hub. `Server.Rows` has lemmas
--     on tables; the other modules say what follows.
--   * the accounts of internal/api/server.go and internal/auth/service.go, and internal/api/admin.go and
--     invite_codes.go: `Server.Accounts` has the names, tokens and mode permissions,
--     `Server.Accounts.Registering` registration and login, and `Server.Accounts.Admin` the admin handlers
--     and the invite codes. Password hashing, the signing of tokens, the random codes and the database's
--     comparison of user names are arguments. `Server.Accounts.Consuming` and `Server.Accounts.Modes` say
--     what follows.
--   * internal/api/client_versions.go: `Server.Versions`; `Server.Policies` says what a saved policy does.
--   * `Base` has shared tests, lists, maps, texts, int64 numbers and results.
--
-- Names are those of the source in lower case with underscores. A handler is a function from the state
-- to the new state and its result. What one lock covers is one step. Calls that take several locks
-- in turn or release one in between (`Publish`, the detach function of `AttachDevice`, `Subscribe`,
-- `SubscribeClients`, `persistUser`) are the composition of their steps; `Hub.Runs` has the histories in
-- which the steps of `Publish` and of detaching interleave with all others, `Hub.Broadcasts` the
-- broadcasts of a room that overlap. Histories are the data types `Step` and `Reach`. Whether a
-- database statement succeeds, and how many frames a connection takes while a command waits, are
-- arguments. Loops are recursion
-- on the list they go through, so no fuel is needed.
--
-- Numbers: row ids, times (in milliseconds) and dates (days at UTC+8) are natural numbers without an
-- upper bound; experience values are int64 with wrap-around (`Base.Int`). A float64 of a message is the
-- number that its JSON text rounds to, written as a decimal, and a sum of two is rounded again. The
-- member names of a message are compared with their letter case folded, as encoding/json does.
--
-- Not modelled: routing, cookies, the websocket loops and the answer with a token of
-- internal/api/server.go, the websocket of internal/api/clients.go, the lists of
-- admin.go, invite_codes.go and client_versions.go, the handlers of cloud_maps.go and notification.go,
-- the timer of the notification service, its Bark client and secret box, password hashing,
-- configuration and start-up. They are input and output or use the parts above by the calls that are
-- modelled.
pub mod Base
pub mod Json
pub mod Protocol
pub mod Hub
pub mod ExpGain
pub mod BossCycle
pub mod Notification
pub mod Server
