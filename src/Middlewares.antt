-- ===== src/Middlewares.antt =====
-- run/middleware: the middlewares that ship with the runner, but for the pipeline.
pub mod Key
pub mod Timeout
pub mod Debug
pub mod Json
pub mod Jq
pub mod Limits
pub mod Tap
pub mod Kafka
