-- ===== src/Schema.antt =====
-- src/schema.cpp and include/ndnmps/schema.hpp.
pub mod Pattern
pub mod Policy
pub mod Container
pub mod Replacement
pub mod AggregateKey
pub mod Section
