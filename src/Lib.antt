-- ===== src/Lib.antt =====
-- Verification of CodeWarzz, a platform for programming contests.
--
-- The program's parts. The core service (core/) takes submissions: it stores the row and an outbox
-- message in one transaction, relays the outbox to RabbitMQ, and keeps a versioned event stream per
-- entity. The evaluation service (evaluation-service/) consumes the submission queue, runs the code
-- in a sandbox, compares the outputs, sends the verdict back to core over HTTP and publishes solves
-- of a contest. The leaderboard service (leaderboard-service/) encodes points and time into one score
-- of a Redis sorted set and projects it to a read model; core takes snapshots of it. The services
-- share a circuit breaker, a saga, the queue consumer with retries, a lock and an idempotency guard.
-- The gateway (api-gateway/) stands in front of them: it limits rates, sheds requests for ids that do
-- not exist, caches answers and keeps streams of events open. Core also signs users in, keeps the
-- problems and the statistics of the users, and compares submissions for plagiarism. The front end
-- (web/) submits solutions and polls for their verdicts.
--
-- Files and the code they model.
--   Prelude, Prelude/*: names of the library, Boolean tests, lists and sorting; no code.
--   Circuit: core/src/utils/circuitBreaker/index.ts. The class is the record `CircuitBreaker`, its
--     methods are functions on it, the registry is an association list. Circuit/Invariant runs
--     overlapping callers as a sequence of events, Circuit/Recovery counts failures and successes.
--   Saga: core/src/service/saga.service.ts, over any type of world state (Saga/Laws).
--   Queue/Consumer: core/src/queues/rabbitmq/consumer.ts. `on_delivery` is the consume callback,
--     `lifetime` a message's way over the retry queue; its fuel is the number of deliveries, for
--     which `maxRetries + 1` is enough (Queue/Consumer/Lifetime).
--   Queue/Connection: core/src/queues/rabbitmq/connection.ts, as steps between the events of the event
--     loop; the ten rounds of an attempt are the source's own bound (Queue/Connection/Attempts).
--   Outbox: core/src/service/outbox.service.ts and the table in core/src/db/schema/outbox.ts. Whether the
--     database accepts the array of ids, as the query library passes it, is an argument.
--   EventStore: core/src/service/eventStore.service.ts. `append_loop` has the source's five attempts
--     as its fuel; other writers' inserts come between the read and the insert of each attempt.
--   Sandbox/Compare, Sandbox/Judge: evaluation-service/src/sandbox/compareOutput.ts, executor.ts
--     and runSandbox.ts. What the runner leaves behind is an input.
--   Leaderboard: leaderboard-service/src/services/leaderboard.service.ts and
--     leaderboard.readmodel.service.ts, core/src/service/leaderboard.service.ts. A score is a number
--     of 1 / MAX_PENALTY_MINS points, so the arithmetic is exact where the source rounds a
--     double. Leaderboard/Store is over an interface of the Redis sorted-set commands;
--     Leaderboard/ReadModel is the read model with leaderboard.controller.ts and
--     leaderboard-service/src/grpc/grpc.server.ts: the projections that no handler awaits are part
--     of the state, and a step ends one.
--     Leaderboard/VerdictConsumer is leaderboard-service/src/queues/verdict/consumer.queue.ts.
--   Evaluation: evaluation-service/src/queues/submission/consumer.queue.ts. The other services'
--     answers are arguments, what the handler does to them is a list of effects.
--   Submission: core/src/service/submission.service.ts, core/src/repository/submission.repository.ts
--     and the initial values of core/src/controllers/submission.controller.ts. It uses Outbox and
--     EventStore for what it stores there.
--   Contest: core/src/service/contest.service.ts and core/src/repository/contest.repository.ts,
--     registration and status, with the cache of registrations. Contest/Standings is the SQL of
--     `getContestLeaderboard` as operations on the rows of the tables.
--   Redis: an interface of the Redis string commands; Redis/Lock is
--     core/src/utils/distributedLock/index.ts, Redis/Idempotency is
--     core/src/middlewares/idempotency.middleware.ts. A wait has 100 polls (5000 ms, one each
--     50 ms); the rounds of `withIdempotency`, which the source does not bound, are fuel.
--   Plagiarism: core/src/service/plagiarism. Fingerprint hashes k-grams on 32-bit numbers and winnows
--     them, Similarity compares two sets as an exact fraction, Check is plagiarism.service.ts with its
--     two tables. The queue of jobs in core/src/queues/plagiarism only calls the check. Tokenizer and
--     Keywords are tokenizer.ts, each regular expression as the scan that it asks for, and CodeCheck
--     puts it in front of the check.
--   Bloom: core/src/service/bloom.service.ts over an interface of the Redis bitmap commands;
--     Bloom/Gateway is api-gateway/src/middlewares/bloomFilter.ts with its own copy of the offsets.
--   RateLimit: Gateway is api-gateway/src/middlewares/rateLimiter.ts, Core and Rules are
--     core/src/middlewares/rateLimiter.middleware.ts. Tokens are counted in 1/60 and 1/60000, by which
--     refills are whole numbers where the source has doubles.
--   Auth: core/src/service/auth.service.ts, core/src/repository/auth.repository.ts and, in core/src/
--     middlewares, auth.middleware.ts (Auth/Access) and csrf.middleware.ts (Auth/Csrf), over an
--     interface of the libraries for passwords and tokens. Auth/Access leads the route
--     PATCH /submissions/:id to Submission's `updateSubmission`.
--   ResponseCache: api-gateway/src/middlewares/cache.ts as steps of concurrent requests.
--   Backpressure: core/src/service/backpressure.service.ts; its answer is an input of Submission.
--   Grpc: core/src/grpc/grpc.server.ts, which uses Redis/Lock and Submission. Beside core's tables it
--     keeps the keys of Redis as they were at the last write, to say that it is under the lock.
--   Problem: core/src/service/problem.service.ts, core/src/repository/problem.repository.ts, their
--     controller and the schema of a request in core/src/dtos/problem.dto.ts. The order in which the
--     database comes upon rows, which decides between ties of the pages, is an argument.
--   User: core/src/service/user.service.ts and core/src/repository/user.repository.ts; the SQL queries are
--     operations on the rows of the tables.
--   Gateway: api-gateway/src/server.ts, the routes, and in Gateway/Chain the middlewares of RateLimit,
--     Auth/Csrf and Bloom in front of them. Gateway/Events is api-gateway/src/routes/leaderboard.sse.ts.
--   Web/Problem: the state of web/src/features/problems/routes/Problem.tsx.
--   The modules called Examples and CodeExamples run the definitions on concrete data.
--
-- Numbers. Times are milliseconds and counters natural numbers, below 2 ^ 53 in JavaScript; nothing
-- here comes near it. Ids, keys and opaque texts are numbers that stand for them.
--
-- Not modelled: logging, metrics and tracing; the HTTP and gRPC transports; Docker, the compilers and
-- the file system; PostgreSQL, Redis and RabbitMQ themselves; the timers that start a relay, a
-- snapshot or a listener; the regular expressions of the gateway's routes; signing in with Google; the
-- Go worker and the other React components of the web front end. Percentages are left as fractions.
pub mod Prelude
pub mod Circuit
pub mod Saga
pub mod Queue
pub mod Outbox
pub mod EventStore
pub mod Sandbox
pub mod Leaderboard
pub mod Evaluation
pub mod Submission
pub mod Contest
pub mod Redis
pub mod Plagiarism
pub mod Bloom
pub mod RateLimit
pub mod Auth
pub mod Grpc
pub mod ResponseCache
pub mod Backpressure
pub mod Problem
pub mod User
pub mod Gateway
pub mod Web
