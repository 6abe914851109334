-- ===== src/Lib.antt =====
-- The services of fastapi-kafka-guide and what makes them correct.
--
-- The repository is a guide of chapters, each a small system of FastAPI services that talk
-- through Kafka: first producers and consumers (02-first-producer, 03-first-consumer), topics
-- and partitions (04-topics-and-partitions), consumer groups (05-consumer-groups), serialization
-- (06-message-serialization), retries with a dead letter queue (07-error-handling-and-retry),
-- processing once by keys in Redis (08-exactly-once-and-idempotency), the saga of orders,
-- payments, stock and refunds (09-saga-pattern-order-system), monitoring
-- (10-monitoring-and-testing), the services with a separate read model
-- (11-multi-service-architecture), the transactional outbox (12-outbox-pattern), and retries
-- with a circuit breaker (13-resilience-patterns).
--
-- Prelude holds what all modules share: Boolean tests on native numbers, lists, Python's
-- unbounded integers (Prelude/Int), its dicts in insertion order (Prelude/Dict), and
-- computations that change a state and return or raise (Prelude/Results). Messaging holds how a
-- send to Kafka ends and the loops that each `start_consumer` repeats: 30 attempts to connect,
-- then the messages until the task is cancelled or an exception leaves the loop.
-- Messaging/Clients holds the records, keys and sends of the services that answer with a
-- record's place. Prelude/Windows is the last entries of a list.
--
-- Python is what the services use of the standard library: Utf8 is `str.encode` and
-- `bytes.decode`, Json is `json.dumps` with `ensure_ascii=False` and `json.loads` on its texts,
-- as Python reads and writes them. The parser runs on fuel of twice the text's length and two,
-- and Json/Total shows that this is enough for every text. How a float is written and read back
-- is a parameter.
--
-- Outbox is 12-outbox-pattern/app. Database is the two tables of models.py and the SQL of
-- relay.py; Orders is outbox.py, schemas.py and the endpoints of main.py; Relay is `_tick`,
-- `_publish` and `run` of relay.py; Consumer is consumer.py, with the exceptions that its
-- header, its INSERT, its business logic and its commit may raise. A poll of the relay takes
-- what it meets as an argument: how each send ends, which rows other transactions hold, the
-- clock, and whether the commit goes through. Atomic, Delivery, Progress and Once hold the
-- proofs on one component, History those on all requests and polls in any order, and EndToEnd
-- follows an order to the consumer.
--
-- Resilience is 13-resilience-patterns/app. CircuitBreaker is circuit_breaker.py over a world
-- that other tasks change while a call waits; Retry is retry.py; GatewayClient is `charge` of
-- gateway_client.py and the payment endpoint of client_main.py; Gateway is gateway_main.py.
-- `random`, `asyncio.sleep` and httpx's `post` are parameters. The retry loop runs on fuel of
-- one more than `max_attempts`, and Retry/Bounds shows that it always ends within that. Times
-- are whole units; a delay is counted in units of 2 ^ -53 ms, the resolution of
-- `random.random()`.
--
-- Saga is 09-saga-pattern-order-system. Events is shared/events.py and the rows that each
-- service keeps; OrderService, PaymentService and InventoryService are the services of these
-- names, with one function for each handler and each publisher. The state is the memory of the
-- three services with Kafka's records. Steps is the system: a request is placed or confirmed, or
-- a service handles any record that Kafka holds, so that records may be late, repeated and in
-- any order. Safety is the invariant, and its children show that each handler keeps it.
--
-- MultiService is 11-multi-service-architecture: OrderService, PaymentService, InventoryService,
-- Notifier (notification-service) and QueryService (query-service, with its endpoints in Stats
-- and Search), each with its own store, and Gateway (gateway), whose calls of httpx are
-- parameters. The consumers catch what a message raises and go on. Replay shows what the read
-- model is, Listing what its filtered list shows, Coherence and Ordering what the order of the
-- events does to a status.
--
-- ErrorHandling is 07-error-handling-and-retry/app. Retry is the loop of retry.py, a recursion
-- on the rounds of its `range`; Payments is consumer.py, dlq_consumer.py and the payment
-- endpoint. Accounting follows each payment to where it ends; a commit that raises ends the
-- loop.
--
-- Idempotency is consumer.py and idempotency.py of 08-exactly-once-and-idempotency/app, with
-- Redis as an interface of commands at a time, whose keys expire, and what it documents as named
-- laws; Credits holds the proofs. Api is producer.py, schemas.py and the endpoints of main.py;
-- Duplicates follows the duplicate test from the request to the balances.
--
-- Serialization is 06-message-serialization: Serializers is app/serializers.py, Events is
-- shared/events.py with pydantic's conversions as an interface, Consumer is app/consumer.py, Api
-- and Queries are app/schemas.py and app/main.py. Sound says which events survive their way
-- through JSON; RoundTrip, Delivery, Memory, Listing and Constraints hold the proofs.
--
-- Monitoring is 10-monitoring-and-testing/app: Producer, Consumer and HealthChecker are
-- producer.py, consumer.py and health.py, Api is main.py. Kafka's answers to the health checker
-- are arguments. Counters, History, Lag and Metadata hold the proofs.
--
-- ConsumerGroups is 05-consumer-groups: the producer's main.py and schemas.py, and the
-- consumer's consumer.py in Consumer. A draw of `uuid4` is its 128-bit number. Delivery follows
-- an order to a consumer, Bulk a request for many orders, and Received both.
--
-- FirstServices is app/main.py of 02-first-producer and consumer/app of 03-first-consumer
-- (Texts), and app/main.py of 04-topics-and-partitions (Partitions); Arrival and Topics hold the
-- proofs.
--
-- Floats are a type with the operations that the services use on them (Saga/Events), so no law
-- of arithmetic is assumed; the outbox's decimals are a coefficient and an exponent, with
-- Python's decimal context and the rounding of the column Numeric(12, 2) as arguments. A draw of
-- `random.random()` is its numerator over 2 ^ 53, and a configured rate is compared as one.
-- UUIDs and clock readings are arguments; in the chapters 07 to 09 and 11 to 13 an event is a
-- record of its fields, not its JSON text, and a field that an event lacks and a field that is
-- null are both `none`.
--
-- Not modelled: logging, the start and stop of producers, consumers and HTTP servers where they
-- are only calls of the client library, the settings read from the environment, and Kafka
-- itself. The chapters 00 and 01 have no services.
pub mod ConsumerGroups
pub mod ErrorHandling
pub mod FirstServices
pub mod Idempotency
pub mod Messaging
pub mod Monitoring
pub mod MultiService
pub mod Outbox
pub mod Prelude
pub mod Python
pub mod Resilience
pub mod Saga
pub mod Serialization
