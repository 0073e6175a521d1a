-- ===== src/Lib.antt =====
-- A verification library of reflowfy, the data movement framework of this repository: its core is a
-- manager that plans an execution into jobs, stores them in PostgreSQL and sends them to Kafka at a
-- limited rate, and workers that claim a job, fetch its records, transform them and write them to a
-- destination. The tables of the database are the state that these parts share, so each operation
-- here takes a table, or several, and returns it with what the method returns.
--
-- Files and the code that they model:
-- Prelude: shared helpers. Prelude.Sql has the statements on a table (SELECT, UPDATE, DELETE, count,
--   ORDER BY) as functions on the list of its rows, Prelude.Keyed and Prelude.KeyedRows the row of a
--   primary key, Prelude.Chunks slices of a list, Prelude.Members sets as lists, Prelude.Int signed
--   integers. Json is the type of JSON values.
-- Jobs: class Job of reflowfy/reflow_manager/models.py. Jobs.Manager is JobManager of
--   reflowfy/reflow_manager/job_manager.py, Jobs.Worker are the statements of
--   reflowfy/worker/executor.py on the job's row. Jobs.Steps has any interleaving of all these as a
--   step relation; Jobs.Claims, Jobs.Attempts.Starts, Jobs.Sweeps, Jobs.Queue and Jobs.Counts prove what
--   their names say.
-- Executions: class Execution and ExecutionManager of reflowfy/reflow_manager/execution.py, with the
--   lease of the loop that drives an execution (Executions.Drivers) and the states of an execution
--   (Executions.Lifecycle).
-- Runner: PipelineRunner of reflowfy/reflow_manager/pipeline_runner.py over the jobs and the
--   executions: the loop that saves a plan (Runner.Plan), and a pass of the drive loop, which sweeps,
--   counts, sends (Runner.Window) and settles the execution (Runner.Settle). It sends through Dispatch
--   and calls Jobs.Manager and Executions as the class calls its managers. Runner.Recover is the
--   resumption of an interrupted execution up to the drive loop.
-- Dispatch: reflowfy/reflow_manager/dispatcher.py and reflowfy/reflow_manager/local_dispatcher.py over
--   a port for Kafka, the token bucket and the callbacks, and the `should_stop` of `_send_jobs` in
--   reflowfy/reflow_manager/pipeline_runner.py.
-- Limiter: the token bucket of reflowfy/reflow_manager/rate_limiter.py.
-- Dedup: reflowfy/execution/content_dedup.py, `_claim_records` of reflowfy/worker/executor.py and the
--   purge of reflowfy/reflow_manager/content_dedup_scheduler.py.
-- Worker: a delivery of a job, `_execute_job_inner` of reflowfy/worker/executor.py, over Jobs.Worker and
--   Dedup, with what the source, the transformations and the destination do given.
-- Params: the parameters of a job from the plan to the worker, reflowfy/core/execution_context.py and
--   the payloads of reflowfy/reflow_manager/pipeline_runner.py. Json.Dict reads and writes the dicts.
-- Pipelines: what a pipeline declares, its parameters and its schedules,
--   reflowfy/core/abstract_pipeline.py: its `resolve` up to define_jobs (Pipelines.Accepted) and the
--   check of the schedules (Pipelines.Names), which are those of Schedules.
-- Ids: the batches of an id-based pipeline, reflowfy/core/id_based_pipeline.py, over Params.
-- Transform: the transformations of a job. Transform.Skips and Transform.Pool are the reasons and the
--   workers of a per-record step of reflowfy/transformations/base.py, Transform.Chain the chain of
--   reflowfy/execution/transformation_runner.py.
-- Consumer: the Kafka consumer of a worker, reflowfy/worker/consumer.py.
-- Schedules: the cron schedules, reflowfy/reflow_manager/pipeline_scheduler.py, over Executions.
-- Retention: the purge of old executions with their jobs,
--   reflowfy/reflow_manager/content_dedup_scheduler.py, over Jobs and Executions.
-- Dlq: dead letters, taken up by a poll or on demand (Dlq.Poll) and retried (Dlq.Retries):
--   reflowfy/reflow_manager/dlq_scheduler.py.
--
-- Conventions. Times are microseconds and each operation takes the time that it reads. A table is the
-- list of its rows in the order of insertion; a statement is atomic, and concurrency is the order of
-- statements. SHA-256, json.dumps, the LIKE of SQL, Kafka, croniter, sleeping and the other sessions
-- are parameters. Rates are whole numbers of jobs per minute, and tokens are counted exactly where the
-- source uses floats. What the user's pipeline does, the transformations, define_source and the like,
-- is a function that the definitions take.
-- Fuel. acquire_token, the purge and the recovery of a plan loop until something happens; their
-- functions take fuel, and Limiter.Acquire, Dedup.Purge and Runner.Recover.Ends prove how much is
-- enough; the chain of transformations has one round more than max_steps. The other loops are
-- structural.
-- Not modelled: the clients of sources and destinations, the REST routes, the command line, the
-- registry, logs and metrics, which do I/O; the threads around the loops, with their start and stop;
-- and the derivation of a pipeline's parameters from its types, which inspects classes.
pub mod Consumer
pub mod Dedup
pub mod Dispatch
pub mod Dlq
pub mod Executions
pub mod Ids
pub mod Jobs
pub mod Json
pub mod Limiter
pub mod Params
pub mod Pipelines
pub mod Prelude
pub mod Retention
pub mod Runner
pub mod Schedules
pub mod Transform
pub mod Worker
