-- ===== src/Examples.antt =====
-- Concrete names, schemas and packets, and the theorems at concrete inputs.
mod Names
mod Schemas
mod Sections
mod Blocks
mod Packets
mod Parties
mod Exchanges
mod Certificates
mod Losses
mod Ciphers
mod Policies
mod Signing
mod Requests
