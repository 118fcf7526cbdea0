-- ===== src/Refund.antt =====
-- The example agent of src/anchor/examples/refund_agent.py, which looks up a payment, refunds it and
-- tells the customer.
pub mod Tools
pub mod Specs
pub mod Agent
pub mod Covered
pub mod Landed
pub mod Bounded
pub mod Worker
pub mod Crashed
