-- ===== src/Lib.antt =====
-- Deep Scout runs research: a planner makes a graph of tasks, workers carry them out under a budget,
-- and the store keeps runs, tasks and jobs in a database that several processes share. This library
-- models the parts that decide what may run, when it stops, what it may use, and who works on it.
--
-- - Base: lists, results, integers over the native numbers, tables of rows by key, sets and
--   dictionaries of text keys, a stable sort, and what is asked of a float (Base/Float).
-- - Domain: libs/core/src/deepscout_core/domain/enums.py, schemas.py and invariants.py.
-- - Budget: domain/budget.py. Limits holds ResearchBudget and BudgetConsumption, Ledger holds
--   BudgetLedger (`record` is `record_use`); Bounds and Construction are about them.
-- - Runs: the rows of runs in libs/persistence/src/deepscout_persistence/models.py and the budget
--   operations on them in store.py (record_budget_usage, extend_run_budget and the functions that they
--   call), and libs/research/src/deepscout_research/budget_gate.py; Usage/Tokens is record_token_usage,
--   which adds tokens and cost without a check, and Usage/Overrun what follows an overrun. Status is
--   about update_run_status and cancel_run, TaskRows about the rows of tasks: claims, reports of workers, and reclaims.
-- - Tasks: tasks/graph.py (Graph, Cycles, Ready), contracts/dependency_gate.py (Gate), termination.py
--   runtime/allocation.py and runtime/plan_repair.py (Repair) of libs/research/src/deepscout_research.
-- - Reviews: the human approval of budget extensions and answers to questions, hitl/__init__.py and
--   approval.py of libs/research/src/deepscout_research with the review operations of store.py: Create
--   opens a review, Resolve decides it, and System puts reviews, budgets and statuses together.
-- - Jobs: the job operations of store.py (Queue), jobs/service.py (Service), and what they promise a
--   worker (Claims, Takes, Leases, History, Promises, Enqueue).
-- - Examples: concrete inputs at which the theorems apply.
--
-- How the state corresponds. A table is the list of its rows, a session's change to a row is a change
-- in the table, and an exception is a value and leaves the table as it was, as the transaction rolls
-- back. The clock, new keys, tokens and rows locked by others are arguments. A Python int that can be
-- negative is ℤ, a float is a type F with the operations and laws of Float. Keys of rows and times are
-- ℕ. TaskGraph is its tuple of tasks; by_key is an association list in order of insertion.
--
-- Fuel. `visit` recurses on fuel, one more than the number of keys: the keys being visited are
-- distinct. The loop of block_tasks_with_terminal_dependencies runs on fuel, one more than the number
-- of tasks: each round but the last blocks a task. Both are shown not to run out.
--
-- Not modelled: the HTTP API and the web application, the model providers, retrieval and fetching,
-- the orchestration of model calls, and the store's operations on sources, claims and reports.
pub mod Base
pub mod Domain
pub mod Budget
pub mod Runs
pub mod Tasks
pub mod Jobs
pub mod Reviews
pub mod Examples
