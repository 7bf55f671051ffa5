-- ===== src/Lib.antt =====
-- A library for games and their servers: an HTTP interface for accounts, and services for locks,
-- sessions, cooldowns, queues and streams over Redis. This development models the services and
-- the account code; a reader finds each part of the program in the file named for it.
--
-- - Base: the shared names, lists, JSON values and objects (`Value`, `Fields`), and the methods of
--   the program as functions from a state to a result and a state (`Exec`), since what was written
--   before a throw stays written. The errors are those of src/providers/errors.
-- - Redis: the commands that the program sends, as an interface with their documented results, and
--   a server in memory that meets it. JSON.stringify and JSON.parse are part of it.
-- - Pool: src/providers/database/RedisManager.ts and RedisManager/RedisIOClient.ts: clients of a pool,
--   whose answer to the question number n is a function of n. Connecting has five retries. Listing reads
--   the list of the clients, of RedisManager/RedisClientConnectionManager.ts.
-- - PubSub: src/providers/redis/RedisPubSub.ts, over the command `SET NX`.
-- - HashTable: src/providers/database/InMemoryHashTable.ts, one function per method, in the words of the
--   source (`setNx` is `set_nx`).
-- - Locks, Cooldown, Poller, Sessions: src/providers/locks/Locker.ts, sockets/SocketAuthLock.ts,
--   sockets/SocketAuth.ts, time/Cooldown.ts, poller/ResultsPoller.ts, sockets/SocketSessionControl.ts
--   and sockets/SocketEventsBinderControl.ts, all on the hash table. Clocks are arguments. What other
--   clients do between two calls is a list of calls, or for the poller a function of the number of
--   questions left; the poller asks 300 times, which is the bound of its loop.
-- - Sensitive: src/providers/middlewares/SensitiveDataMiddleware.ts on JSON values.
-- - Repository: src/providers/database/repository/BaseRepository.ts over the adapter interface of
--   src/providers/database/DatabaseTypes.ts (Repository/Database), with an adapter in memory, and
--   src/repositories/ModuleSystem/user/UserPreferenceRepository.ts (Repository/Preferences) with its
--   controller; the A/B tests of abTests/ABTestController.ts are in Repository/AbTests.
-- - Databases: the three adapters of that interface, FirebaseRepository.ts, PrismaRepository.ts and
--   MongooseRepository.ts of src/providers/database/repository, over what their libraries give: a
--   reference, a delegate and a model. A collection in memory meets the laws of a reference,
--   which promise that a record is read back for what Firebase stores as it is. A date in a query is an
--   object of its own form.
-- - Accounts: src/providers/auth (Tokens), the use cases and controllers under
--   src/useCases/ModuleSystem/user (Login, Passwords, OAuth, Premium) and the middlewares
--   AuthMiddleware.ts and IsAdminMiddleware.ts (Access), DTOValidatorMiddleware.ts (Update), and push
--   notifications (Push). The record `Runtime` holds the libraries
--   they call: bcrypt, jsonwebtoken, email-validator, the mailer, and the settings. Random values
--   and the time of a call are arguments. The state is the database, the events that were
--   tracked and the mails.
-- - Streams: src/providers/redis/RedisStreams.ts. The attempts to connect are a list, each with
--   its outcome and whether the service was shut down in the wait before it; callbacks and retries
--   that run side by side are taken one after the other. Reading takes a list of passes of the loop.
--   Groups has the consumer groups, which are made before the reading, and Trimming the timer that
--   trims the streams.
-- - Queue: src/providers/queue/DynamicQueue.ts, EntityQueueScalingCalculator.ts and
--   QueueActivityMonitor.ts: names, scaling and inactivity, with the time limit of a job (Jobs) and
--   closing (Inactive), which asks ten times for each job; Queue/Registry: the maps of queues,
--   workers and connections with DynamicQueueCleaner.ts.
-- - Broker: src/providers/rabbitmq/RabbitMQ.ts, and src/providers/microservice/messaging-broker (Messaging).
--   Whether the call number n of the broker succeeds is a function of n. The loops have the rounds of
--   the source: ten reconnections, five attempts each, ten for a command. A reconnection is one
--   step, and so is the arrival of a message, which is processed in its own time
--   (Acks); whether a channel is open, when something is sent on it, is part of the step.
-- - Sockets: src/providers/sockets/SocketAdapter.ts and, of src/providers/middlewares,
--   SocketIOAuthMiddleware.ts and GeckosAuthMiddleware.ts (Auth), with
--   src/providers/sockets/SocketMessaging.ts (Messaging), on Sessions and Repository: connections are opened and
--   closed, and the listeners of a channel run when it closes.
-- - Mailer: emails/TransactionalEmail.ts and src/repositories/ModuleSystem/LogRepository.ts: which service
--   sends a mail, with the two services of emails/TransactionalEmailProviders.ts (Services).
-- - Server: src/server.ts, src/providers/server (ServerBootstrap.ts, PM2Helper.ts, HeapMonitor.ts in
--   Heap) and src/providers/cronjobs (Cron), with NewRelic.ts of src/providers/analytics (Tracking) and
--   RateLimitMiddleware.ts (Limits): which parts are initialised in which order (Components), what
--   the last process clears at its start, and jobs under a lock, started by timers in any order.
-- - Board: src/providers/queue/BullBoardMonitor.ts: the page of the queues. What other processes do to
--   the server before a refresh, and how the libraries answer in it, are given for each refresh.
-- - Places, Formatter: src/providers/places with src/useCases/ModuleSystem/places, and
--   src/providers/text, where texts are lists of code units.
--
-- Not modelled: the libraries of the databases, the socket servers, the calls of Google, Apple,
-- Mixpanel and New Relic, signals and messages between processes, the configuration, and numbers with
-- a fraction. A method that waits does so without a change of the state, unless the model names what
-- other clients do meanwhile.
pub mod Base
pub mod Redis
pub mod HashTable
pub mod Locks
pub mod Cooldown
pub mod Poller
pub mod Sessions
pub mod Sensitive
pub mod Repository
pub mod Accounts
pub mod Streams
pub mod Queue
pub mod Mailer
pub mod Board
pub mod Broker
pub mod Databases
pub mod Formatter
pub mod Places
pub mod Pool
pub mod PubSub
pub mod Server
pub mod Sockets
