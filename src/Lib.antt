-- ===== src/Lib.antt =====
-- CloudRM: a multi-agent system that places tasks on the nodes of a data centre. Seven agents react to
-- events that a broker delivers, share their state in a Redis server, and record what they do in a
-- database; the API submits tasks and simulates failures; a load generator and a script of experiments
-- submit tasks to the API. This library models the services' handlers, their start, and what they
-- share.
--
-- What the source does not implement is an argument: `Platform` (Platform.antt) is a record of Python's
-- floats and number formats, JSON, the clock, uuid4 and the commands of a Redis client. Theorems that
-- need more than that name it as a hypothesis: `IsRedis` (Platform/Laws.antt) is the documented
-- behaviour of Redis, one typed entry for each key; `IsFloat` (Platform/Floats.antt) is the order of
-- floats and the monotony of rounded operations, wherever no operand is nan, `IsHalves` the exactness
-- of its halves, `IsExact` that of its small integers, and `IsRounding` what `round(x, 4)` keeps.
-- Examples/Toy.antt is a concrete platform that has all five (Examples/ToyRedis.antt, Examples/ToyFloat.antt), and the other files of Examples apply
-- the theorems there.
--
-- A handler is a function from a world to a result and a world (`Exec`, Exec.antt). The world holds the
-- Redis store, the statements sent to the database, the messages sent to the brokers, and a counter
-- of the readings of the clock and of uuid4. An exception keeps the world it leaves, so what was
-- written before it stays written, as in the source, which has no transaction over two stores.
--
-- The files and the code they model:
--   Value, Key          JSON values, Redis hashes; the keys and patterns of all services
--   Message             common/cloudrm/messages.py: EventEnvelope, TaskCreate
--   Python, Config      Python's conversions; get_nested, _expand_env of common/cloudrm/config.py
--   Statement, Persistence   common/cloudrm/persistence.py
--   Database, Database/Views   persistence.py: get_task, TaskView of messages.py, and get_task of
--                       services/api_service/main.py: the row of a task, read off the statements sent
--   Schema, Schema/Columns   common/cloudrm/db.py: run_migrations; the columns of the statements
--   Runtime, Runtime/Setting, Service, Start, Health
--                       common/cloudrm/runtime.py: ServiceRuntime.publish, _event_backend, start,
--                       health, ready_response; api_backend is the API's reading of the same setting
--   Runtime/Lifespan    ServiceRuntime.stop, and the lifespan and /ready of the agents
--                       (services/*/main.py), as the states that a service's process can reach
--   Worker              the loop of the agents' workers over the messages that they are given
--   Kafka               common/cloudrm/kafka.py: EventConsumer, and in Kafka/Producer EventBus
--   Retry               common/cloudrm/retry.py: retry_async
--   Rabbit/Settings, Connect, Topology, Message, Consumer, Push, Routing   common/cloudrm/rabbit.py
--   QueueAgent/Priority, Handlers, Ageing   services/queue_agent/main.py
--   SlaAgent/Risk, Violation, Handlers      services/sla_agent/main.py
--   Coordinator/Utility, Ranking, Proposals, Degrade, Decide, Events
--                       services/coordinator_agent/main.py
--   ExecutorAgent/Reserve, Execute          services/executor_agent/main.py
--   ScaleAgent/Handlers                     services/scale_agent/main.py
--   ResourceAgent/Nodes, Score, Handlers    services/resource_agent/main.py
--   Forecast/Handlers                       services/forecast_agent/main.py
--   Api/Start, Events, Tasks, Handlers, Ready      services/api_service/main.py
--   Service.antt of each agent's folder     its topics, worker, lifespan and readiness
--   Experiments/Load, Run, Metrics    scripts/run_experiments.py: the scenarios and their tasks, one
--                       experiment with its requests, the percentiles and the load of the nodes
--   Experiments/Generator, Service   services/load_generator/main.py
--   Checks, Checks/Stack    scripts/validate_runtime.py: its checks and the exit code
--   Environment         scripts/validate_env.py: the reading of .env and the exit code
-- The other files hold proofs and are named for what they prove.
--
-- Loops are recursions on the lists they walk. The wait of execute_task runs on fuel: it waits at most
-- ten seconds in steps of half a second, so twenty steps are enough for floats; between two of its
-- sleeps other services may change the store, by a function that is an argument of the model.
-- `deliveries` counts deliveries of one message up to a given number. A retried call is a function of
-- its attempt's number, and a start runs on the attempts of its configuration. A worker (`serve`)
-- reads a list of messages, which its iterator gives it. Which queues a message reaches depends on the
-- topic test of the broker, an argument that `IsTopicMatch` (Rabbit/Subscribed.antt) describes
-- as AMQP does; a queue passes on what expires in it as its declaration says (Rabbit/Routing.antt).
--
-- Not modelled: gauges, counters and log lines; the passing of the time to live of Redis keys, and the
-- time to live that the coordinator gives to payloads; failures of the connections to Redis and the
-- database after the start; what the database refuses, but for the INSERT of a task, which it refuses
-- where an integer does not fit its column or the task is there; the interleaving of two handlers
-- elsewhere than at the sleeps of execute_task; identifiers that hold a colon, by which two keys could
-- be the same text; the validation of a request by FastAPI, but for the constraints of TaskCreate; the
-- queries of the experiments' statistics and the files they write; what the scripts print; and the
-- scripts that only probe the brokers, docker or one address (validate_brokers.py, check_compose.py,
-- validate_infra.py, healthcheck_http.py, wait_for_http.py).
pub mod Prelude
pub mod Value
pub mod Key
pub mod Platform
pub mod Message
pub mod Schema
pub mod Statement
pub mod Exec
pub mod Python
pub mod Config
pub mod Database
pub mod Persistence
pub mod Runtime
pub mod Rabbit
pub mod Worker
pub mod Kafka
pub mod QueueAgent
pub mod SlaAgent
pub mod ScaleAgent
pub mod ExecutorAgent
pub mod Coordinator
pub mod ResourceAgent
pub mod Forecast
pub mod Api
pub mod Experiments
pub mod Retry
pub mod Checks
pub mod Environment
pub mod Examples
