-- ===== src/Queue.antt =====
-- core/src/queues/rabbitmq: the consumer's handling of a delivery, and the connection it runs on.
pub mod Consumer
pub mod Connection
