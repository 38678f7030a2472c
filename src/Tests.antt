-- ===== src/Tests.antt =====
-- Concrete inputs for the theorems, one module for each part of the program.
mod Tl
mod Utils
mod Session
mod Broker
mod Manager
mod Chat
mod Stars
mod Snowflake
mod AuthKeys
mod Gateway
mod Privacy
mod Handshake
mod AuthLimit
mod SpamBlock
