-- ===== src/Lib.antt =====
-- A verification library for the automation platform: a system that stores workflow definitions,
-- starts executions of them by hand or by chronological triggers, and lets workers run their tasks
-- in dependency order through a queue with leases.
--
-- The program's parts and how they interact. The database (PostgreSQL, by SQLAlchemy) holds the
-- workflow executions and their tasks. A worker claims a task from the execution queue, starts it
-- in one transaction, runs its plugin outside of any transaction, and completes or retries it in a
-- second one; then it finishes or releases its claim, and a finish enqueues the tasks that became
-- runnable. A heartbeat thread renews the lease meanwhile. The reconciler enqueues runnable tasks
-- that are missing in the queue. The scheduler processes due triggers, which start workflows.
--
-- The files and the code that they model (paths below src/automation_platform/):
--   Domain      domain/: the data classes and enumerations, constructor by constructor.
--   Queue       execution_queue/postgres/queue.py and model.py, execution_queue/claims.py: enqueue,
--               claim, heartbeat, release, finish, _insert_queue_entries, on a list of rows.
--   Executions  persistence/workflow_executions/repository.py, model.py, operations.py: start_task,
--               complete_task, retry_task with their private helpers, find_runnable_ids,
--               find_workflow_execution, on two lists of rows; Executions/Loading has load and
--               delete, with application/workflow_execution_query/services.py.
--   Plugins     plugins/: the registry, the three task plugins, the interval trigger.
--   Processing  application/task_processing/services.py: _start_task, _complete_task, _retry_task
--               as the two transactions of process, with the plugin's call between them.
--   Launch      application/workflow_start/services.py with create and the mapper's to-model half of
--               persistence/workflow_executions. Workflows has start, with the repository of
--               definitions and the queue, and the way from a request to a start.
--   Definitions application/workflow_definitions/: create and delete, with _validate_tasks,
--               _has_dependency_cycle, _create_task_definitions and _create_trigger_definitions.
--   Catalog     persistence/workflow_definitions/: save, load and delete of the repository with its
--               synchronization helpers and the mapper, on four lists of rows.
--   Triggers    application/chronological_triggers/service.py, application/trigger_initialization/
--               service.py, persistence/chronological_triggers/, runtime/scheduler/scheduler.py.
--   Worker      runtime/worker/worker.py.   Reconciler  runtime/reconciler/reconciler.py.
--   Config      config/loader.py and settings.py, over the environment variables; the record Python
--               holds what is used of Python's floats and texts.
--   System      all processes together, as a step relation: one step for each transaction, a start
--               of a workflow among them.
--   Table       SELECT, UPDATE, DELETE and the primary key constraint on lists of rows.
--   Errors      the exceptions and the results of methods that may raise.
--   Texts       texts as keys of sets and dicts.
--   Base        shared names, Boolean tests and list helpers.   Examples  concrete data and runs.
--
-- How state is modelled. A table is a list of rows and a transaction is a function on it, so each
-- transaction is atomic; what a rolled back transaction wrote is dropped. Identifiers are naturals,
-- since they are only compared, and times are naturals, in microseconds; `a <= now - lease` is
-- written `a + lease <= now`. Counters of dependencies and tries are naturals: every decrement
-- stands behind a test that the counter is positive. The fresh values of uuid4(), the clock, the
-- rows that other transactions hold locked (FOR UPDATE SKIP LOCKED) and the registered plugins are
-- arguments. Where a query gives no total order, the order is that of the list. A loop that runs
-- until a stop event is a recursion on the list of its rounds, so no fuel is needed. The loop of the
-- cycle check takes the number of tasks as fuel: each key is pushed once at most.
--
-- The session writes what was merged before each merge and before each statement that it executes.
-- The foreign keys and unique keys of the tables of definitions are checked at each write; in the
-- other tables, the primary keys are. The numbers in Integer columns are checked against 32 bits
-- where a row is inserted: max_tries, remaining_tries and remaining_dependencies. The operations on
-- executions only lower them. Texts are those that PostgreSQL stores, which are without the character
-- NUL, and JSON values are those that it stores as jsonb.
--
-- What is not modelled. The HTTP API, composition roots, logging, engine and session set-up,
-- plugin discovery by import, migrations. Deadlocks, lost connections and the isolation
-- anomalies of transactions that overlap: transactions are taken as serial. The cascade of the
-- deletion of a definition to the states of its triggers. Time arithmetic past the last time that
-- datetime has, but for the next occurrence of an interval trigger.
pub mod Base
pub mod Domain
pub mod Table
pub mod Texts
pub mod Config
pub mod Errors
pub mod Queue
pub mod Executions
pub mod Plugins
pub mod Processing
pub mod Definitions
pub mod Launch
pub mod Triggers
pub mod Catalog
pub mod Workflows
pub mod Worker
pub mod Reconciler
pub mod System
pub mod Examples
