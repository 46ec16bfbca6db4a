-- ===== src/Examples.antt =====
-- Concrete inputs for the theorems: every one of their hypotheses can hold.
mod Numbers
mod Budgets
mod Graphs
mod Queues
mod Plans
mod Workers
mod Approvals
