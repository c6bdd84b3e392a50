-- ===== src/Worker.antt =====
-- app/infrastructure/queue and app/interfaces/worker: the worker that executes the messages of a
-- queue.
pub mod Policy
pub mod Attempts
pub mod Failures
pub mod Executor
