-- ===== src/Utils.antt =====
-- piltover/utils: small data structures.
pub mod RepeatedList
pub mod SingleElementList
