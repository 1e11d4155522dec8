-- ===== src/Inference.antt =====
-- src/application/inference/service.rs, src/adapter/outbound/inference/inferrer.rs and
-- src/infrastructure/orchestration/inference.rs: relations that a language model proposes.
pub mod Inferrer
pub mod Json
pub mod Batches
pub mod Known
pub mod Names
pub mod Sound
