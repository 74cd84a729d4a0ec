-- ===== src/Processor.antt =====
-- services/seckill-processor: the handling of a queued seckill message, and of payment timeouts.
pub mod Model
pub mod Submit
pub mod Intake
pub mod PaymentTimeout
