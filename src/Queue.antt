-- ===== src/Queue.antt =====
-- app/infrastructure/queue and the worker's catalogue of jobs: types of jobs, their references and
-- versions, and the messages that carry them.
pub mod Job
pub mod Resolver
pub mod Binding
pub mod Envelope
pub mod Dispatcher
