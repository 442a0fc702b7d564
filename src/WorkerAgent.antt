-- ===== src/WorkerAgent.antt =====
-- internal/workeragent: the admission of invocations by a Worker.
pub mod Limiter
