-- ===== src/Realtime.antt =====
-- ledger/realtime/: the first message, and the connection of the consumer.
pub mod FirstMessage
pub mod Consumer
pub mod Entitled
pub mod Delivery
