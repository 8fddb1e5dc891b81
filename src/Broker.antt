-- ===== src/Broker.antt =====
-- The message broker: internal/broker.
pub mod Base
pub mod Dedup
pub mod Group
pub mod Queue
pub mod Stream
pub mod Registry
pub mod Call
pub mod Recovery
pub mod StreamHandlers
pub mod Handlers
pub mod RetryDlq
pub mod Server
mod Examples
