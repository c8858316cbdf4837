-- ===== src/Sources.antt =====
-- run/source: where the inputs come from.
pub mod Kafka
pub mod Http
pub mod Sqs
pub mod ServiceBus
pub mod Lambda
pub mod Cron
