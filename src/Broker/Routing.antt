-- ===== src/Broker/Routing.antt =====
-- base_broker.py: `_process_message` and its handlers: whom a message goes to, and what it does to
-- their sessions.
pub mod Targets
pub mod Deliver
pub mod Exact
pub mod Push
