-- ===== src/Domain.antt =====
-- domain/: the vocabulary that the services and the adapters share.
pub mod Errors
pub mod Json
pub mod Kinds
pub mod Memory
pub mod Records
